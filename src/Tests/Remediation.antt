-- ===== src/Tests/Remediation.antt =====
-- Remediation plans on concrete inputs (law_agent/review/case_store.py).
use crosscomply_agent.Prelude.{
  ℕ, String, true, none, some, [], ◌∷◌, ◌≡◌, refl, ◌⊎◌, inl, get, values, ok, err, value_error,
  Option, ◌+◌,
}
use crosscomply_agent.Workflow.Strip.{strip}
use crosscomply_agent.Remediation.Records.{
  PlanStatus, RemediationStatus, SubmissionStatus, RemediationPlan, RemediationTask,
  RemediationSubmission, RemediationStore, TaskData, SubmissionView, empty_remediation,
}
use crosscomply_agent.Remediation.Tasks.{
  TaskUpdate, create_remediation_task, update_remediation_task, start_remediation_task, updated,
  moved, get_remediation_plan, get_remediation_submission, new_remediation_task,
}
use crosscomply_agent.Remediation.Plans.{
  create_remediation_plan, activate_remediation_plan, cancel_remediation_plan,
  sync_guided_remediation_plan, refreshed, plan_for, plan_moved, has_open_task,
}
use crosscomply_agent.Remediation.Submissions.{
  create_remediation_submission, apply_agent_remediation_assessment, review_remediation_submission,
  add_remediation_event, settle_plan, assess, assessed, reviewed,
}
use crosscomply_agent.Remediation.Events.{Event, happen, remediation_after, start, next}
use crosscomply_agent.Remediation.Edits.{stale_edit_refused}
use crosscomply_agent.Remediation.Reviews.{agent_completes_no_control, StaysOpen}
use crosscomply_agent.Remediation.Settled.{accepted_review_settles, StatusFollows}
use crosscomply_agent.Remediation.Kept.{AreNewSubmissions}
use crosscomply_agent.Remediation.Once.{review_remediation_submission_once}

remediation : Unit {0}
unfolding happen strip create_remediation_task update_remediation_task start_remediation_task
    updated moved get_remediation_plan get_remediation_submission create_remediation_plan
    activate_remediation_plan cancel_remediation_plan sync_guided_remediation_plan refreshed
    plan_for plan_moved has_open_task create_remediation_submission
    apply_agent_remediation_assessment review_remediation_submission add_remediation_event
    settle_plan assess assessed reviewed
remediation = tt

abbrev encrypt : TaskData
encrypt = record {
  id = none;
  title = "Encrypt the transfer";
  description = none;
  acceptance_criteria = none;
  source_recommendation_index = none;
  source_recommendation = none;
  source_review_result_id = none;
  source_issue_id = none;
  task_kind = none;
  answer_type = none;
  phase = none;
  blocking = some true;
  source_key = some "k1";
  assignee_id = some "ann";
  priority = none;
  due_date = some "2026-12-01";
}

abbrev planned : RemediationStore
planned = happen 1 (Event.sync "case" "ann" none ((encrypt, "t1") ∷ []) "p1") empty_remediation

abbrev started : RemediationStore
started = happen 2 (Event.begin "t1") planned

abbrev submitted : RemediationStore
submitted = happen 3 (Event.submit "t1" "ann" "done" (some "completed") [] "s1") started

abbrev accepted : RemediationStore
accepted =
    happen 5 (Event.review "s1" "accepted" "rita" none)
      (happen 4 (Event.assess "s1" "resolved") submitted)

abbrev task_at : String → RemediationStore → RemediationTask
task_at k s = elim (get k s.tasks) [ some t ↦ t | none ↦ new_remediation_task "" "" encrypt "" 0 ]

abbrev plan_at : String → RemediationStore → RemediationPlan
plan_at k s = elim (get k s.plans) [
  | some p ↦ p
  | none ↦ record {
    id = "";
    case_id = "";
    created_by = "";
    status = PlanStatus.draft;
    no_remediation_reason = none;
    version = 0;
    created_at = 0;
    updated_at = 0;
  }
]

abbrev submission_at : String → RemediationStore → RemediationSubmission
submission_at k s = elim (get k s.submissions) [
  | some x ↦ x
  | none ↦ record {
    id = "";
    task_id = "";
    submitted_by = "";
    note = "";
    response_choice = none;
    status = SubmissionStatus.rejected;
    reviewed_by = none;
    review_note = none;
    reviewed_at = none;
    created_at = 0;
  }
]

-- The agent leaves the control to a person, whose acceptance completes the task and the plan.
course :
    ((task_at "t1" (happen 4 (Event.assess "s1" "resolved") submitted)).status
      ≡ RemediationStatus.pending_review)
    × ((task_at "t1" accepted).status ≡ RemediationStatus.completed)
    × ((plan_at "p1" submitted).status ≡ PlanStatus.active)
    × ((plan_at "p1" accepted).status ≡ PlanStatus.completed)
    × ((task_at "t1" accepted).version ≡ 5)
unfolding remediation
course = (refl, refl, refl, refl, refl)

abbrev rename : TaskUpdate
rename = record {
  title = some "Encrypt";
  description = none;
  acceptance_criteria = none;
  assignee_id = none;
  priority = none;
  due_date = none;
}

stale_edit_refused_example :
    (get "t1" started.tasks ≡ some (task_at "t1" planned))
    ⊎ ((e : TaskUpdate) (now : ℕ)
        → update_remediation_task "t1" e (some 1) now started ≡ err value_error)
unfolding remediation
stale_edit_refused_example =
    stale_edit_refused {s = planned} {u = started} "t1" (task_at "t1" planned) refl
      (next start 2 (Event.begin "t1") tt refl)

review_remediation_submission_once_example :
    (get "s1" (happen 6 (Event.assess "s1" "resolved") accepted).submissions
      ≡ get "s1" accepted.submissions)
    × ((d by : String) (n : Option String) (now : ℕ)
        → review_remediation_submission "s1" d by n now
            (happen 6 (Event.assess "s1" "resolved") accepted)
          ≡ err value_error)
unfolding remediation AreNewSubmissions
review_remediation_submission_once_example =
    review_remediation_submission_once (happen 4 (Event.assess "s1" "resolved") submitted) accepted
      "s1" "accepted" "rita" none 5
      (record { submission = submission_at "s1" accepted; evidence = [] }) refl
      (next start 6 (Event.assess "s1" "resolved") tt refl) (tt, tt)

accepted_review_settles_example :
    (v : SubmissionView) × (s' : RemediationStore) × (q : RemediationPlan)
    × (review_remediation_submission "s1" "accepted" "rita" none 5 submitted ≡ ok (v, s'))
    × (get "s1" s'.submissions
        ≡ some (record (submission_at "s1" submitted) {
          status = SubmissionStatus.accepted;
          reviewed_by = some "rita";
          review_note = none;
          reviewed_at = some 5;
        }))
    × (get "t1" s'.tasks
        ≡ some (record (task_at "t1" submitted) {
          status = RemediationStatus.completed;
          version = (task_at "t1" submitted).version + 1;
          updated_at = 5;
        }))
    × (get "p1" s'.plans ≡ some q)
    × (q.version ≡ (plan_at "p1" submitted).version + 1)
    × StatusFollows q.status "p1" (values s'.tasks)
unfolding remediation
accepted_review_settles_example =
    accepted_review_settles "s1" "rita" none 5 submitted (submission_at "s1" submitted)
      (task_at "t1" submitted) (plan_at "p1" submitted) refl (inl refl) refl refl

agent_completes_no_control_example :
    StaysOpen "t1"
      (remediation_after submitted (apply_agent_remediation_assessment "s1" "resolved" 4 submitted))
unfolding remediation
agent_completes_no_control_example =
    agent_completes_no_control "s1" "resolved" 4 submitted "t1" (task_at "t1" submitted) refl refl
      refl
