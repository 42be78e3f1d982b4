-- ===== src/Remediation/Submissions.antt =====
-- Submissions of remediation tasks and their review, in law_agent/review/case_store.py.
use crosscomply_agent.Prelude.{
  ℕ, String, Bool, true, false, not, ◌&&◌, ◌||◌, Option, none, some, List, [], ◌∷◌, ◌++◌, ◌==◌,
  Dict, get, put, item, Result, ok, value_error, raise_if, ◌>>=◌, ◌>>◌, if◌then◌else◌,
}
use crosscomply_agent.Remediation.Records.{
  RemediationStatus, SubmissionStatus, RemediationTask, RemediationSubmission, RemediationEvidence,
  RemediationEvent, RemediationStore, SubmissionView,
}
use crosscomply_agent.Remediation.Tasks.{
  get_or, text_or, is_task_in_progress, is_fact_confirmation, moved, view_submission,
  get_remediation_submission,
}
use crosscomply_agent.Remediation.Plans.{plan_moved, open_status}

-- Each piece of evidence under the identifier it would draw.
abbrev pub add_evidence :
    (submission_id : String)
    → List (String × String)
    → ℕ
    → Dict RemediationEvidence
    → Dict RemediationEvidence
add_evidence submission_id [] now d = d
add_evidence submission_id ((content, new_id) ∷ rest) now d = add_evidence submission_id rest now (
    put new_id
      (record { id = new_id; submission_id = submission_id; content = content; created_at = now })
      d)

unfoldable pub create_remediation_submission :
    (task_id submitted_by note : String) (response_choice : Option String)
    (evidence : List (String × String)) (new_id : String) (now : ℕ)
    → RemediationStore
    → Result (SubmissionView × RemediationStore)
create_remediation_submission task_id submitted_by note response_choice evidence new_id now s = do
  task ← item task_id s.tasks
  raise_if (not (is_task_in_progress task.status)) value_error
  let submission : RemediationSubmission = record {
    id = new_id;
    task_id = task_id;
    submitted_by = submitted_by;
    note = note;
    response_choice = response_choice;
    status = SubmissionStatus.pending_review;
    reviewed_by = none;
    review_note = none;
    reviewed_at = none;
    created_at = now;
  }
  let s' = record s {
    submissions = put new_id submission s.submissions;
    evidence = add_evidence new_id evidence now s.evidence;
    tasks = put task_id (moved RemediationStatus.pending_review now task) s.tasks;
  }
  ok (view_submission s' submission, s')

abbrev pub is_pending_review : SubmissionStatus → Bool
is_pending_review SubmissionStatus.pending_review = true
is_pending_review _ = false

abbrev pub is_agent_feedback : SubmissionStatus → Bool
is_agent_feedback SubmissionStatus.agent_feedback = true
is_agent_feedback _ = false

-- The plan's status follows its tasks.
unfoldable pub settle_plan : String → ℕ → RemediationStore → Result RemediationStore
settle_plan plan_id now s = do
  plan ← item plan_id s.plans
  ok (record s { plans = put plan_id (plan_moved (open_status plan_id s) now plan) s.plans })

-- `self.get_remediation_submission(identifier) or submission`
abbrev pub submission_answer :
    String → RemediationSubmission → RemediationStore → SubmissionView × RemediationStore
submission_answer identifier x s =
    (get_or (get_remediation_submission identifier s) (record { submission = x; evidence = [] }), s)

-- The statuses that an assessment gives the submission and the task.
unfoldable pub assessed :
    (resolved : Bool)
    → RemediationTask
    → RemediationSubmission
    → SubmissionStatus × RemediationStatus
assessed resolved task submission =
    if resolved && is_fact_confirmation task.task_kind
    then (SubmissionStatus.agent_verified, RemediationStatus.completed)
    else if resolved
        || not (is_fact_confirmation task.task_kind)
          && (text_or submission.response_choice "" == "completed"
              || text_or submission.response_choice "" == "not_applicable")
    then (SubmissionStatus.pending_review, RemediationStatus.pending_review)
    else (SubmissionStatus.agent_feedback, RemediationStatus.in_progress)

-- A submission that waits for its review is assessed.
unfoldable pub assess :
    (identifier : String) (resolved : Bool) (now : ℕ)
    → RemediationSubmission
    → RemediationStore
    → Result (SubmissionView × RemediationStore)
assess identifier resolved now submission s = do
  task ← item submission.task_id s.tasks
  let after = record submission { status = (assessed resolved task submission).0 }
  s' ← settle_plan task.plan_id now (record s {
    submissions = put identifier after s.submissions;
    tasks = put submission.task_id (moved (assessed resolved task submission).1 now task) s.tasks;
  })
  ok (submission_answer identifier after s')

-- Any other submission is returned as it is.
abbrev pub assess_pending :
    (pending : Bool) (identifier : String) (resolved : Bool) (now : ℕ)
    → RemediationSubmission
    → RemediationStore
    → Result (SubmissionView × RemediationStore)
assess_pending true identifier resolved now submission s =
    assess identifier resolved now submission s
assess_pending false identifier resolved now submission s =
    ok (submission_answer identifier submission s)

unfoldable pub apply_agent_remediation_assessment :
    (identifier assessment_status : String) (now : ℕ)
    → RemediationStore
    → Result (SubmissionView × RemediationStore)
apply_agent_remediation_assessment identifier assessment_status now s = do
  submission ← item identifier s.submissions
  assess_pending (is_pending_review submission.status) identifier (assessment_status == "resolved")
      now submission s

-- The submission and its task as the review leaves them.
unfoldable pub reviewed :
    (accepted : Bool) (reviewed_by : String) (review_note : Option String) (now : ℕ)
    → RemediationSubmission
    → RemediationSubmission
reviewed accepted reviewed_by review_note now x = record x {
  status = if accepted then SubmissionStatus.accepted else SubmissionStatus.rejected;
  reviewed_by = some reviewed_by;
  review_note = review_note;
  reviewed_at = some now;
}

-- `submission is None or submission["status"] not in {"pending_review", "agent_feedback"}`
abbrev pub is_not_reviewable : Option RemediationSubmission → Bool
is_not_reviewable none = true
is_not_reviewable (some x) = not (is_pending_review x.status) && not (is_agent_feedback x.status)

-- Only an accepted review looks at the plan.
abbrev pub settle_if : (accepted : Bool) → String → ℕ → RemediationStore → Result RemediationStore
settle_if true plan_id now s = settle_plan plan_id now s
settle_if false plan_id now s = ok s

unfoldable pub review_remediation_submission :
    (identifier decision reviewed_by : String) (review_note : Option String) (now : ℕ)
    → RemediationStore
    → Result (SubmissionView × RemediationStore)
review_remediation_submission identifier decision reviewed_by review_note now s = do
  raise_if (is_not_reviewable (get identifier s.submissions)) value_error
  submission ← item identifier s.submissions
  let accepted = decision == "accepted"
  task ← item submission.task_id s.tasks
  let after = reviewed accepted reviewed_by review_note now submission
  let status = if accepted then RemediationStatus.completed else RemediationStatus.in_progress
  let s1 = record s {
    submissions = put identifier after s.submissions;
    tasks = put submission.task_id (moved status now task) s.tasks;
  }
  s2 ← settle_if accepted task.plan_id now s1
  ok (submission_answer identifier after s2)

unfoldable pub add_remediation_event :
    (plan_id actor_id event_type payload : String) (task_id : Option String) (new_id : String)
    (now : ℕ)
    → RemediationStore
    → RemediationEvent × RemediationStore
add_remediation_event plan_id actor_id event_type payload task_id new_id now s =
    let event : RemediationEvent = record {
      id = new_id;
      plan_id = plan_id;
      task_id = task_id;
      actor_id = actor_id;
      event_type = event_type;
      payload = payload;
      created_at = now;
    } in
    (event, record s { events = s.events ++ event ∷ [] })
