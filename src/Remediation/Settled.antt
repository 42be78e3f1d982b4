-- ===== src/Remediation/Settled.antt =====
-- What an accepted review makes of a task and its plan (law_agent/review/case_store.py).
use crosscomply_agent.Prelude.{
  ℕ, ◌+◌, String, Bool, Bool-cases, true, false, not, ◌&&◌, Option, some, List, [], ◌∷◌, ◌≡◌, ◌≢◌,
  ◌⊎◌, refl, inl, inr, get, put, get-put_self, eq_iff, ◌==◌, values, select, any, All, ok, arith,
  or_true, or_false, and_true,
}
use crosscomply_agent.Remediation.Records.{
  PlanStatus, RemediationStatus, SubmissionStatus, RemediationPlan, RemediationTask,
  RemediationSubmission, RemediationStore, SubmissionView,
}
use crosscomply_agent.Remediation.Tasks.{is_task_completed, moved}
use crosscomply_agent.Remediation.Plans.{open_status, has_open_task, plan_moved}
use crosscomply_agent.Remediation.Submissions.{
  review_remediation_submission, reviewed, settle_plan, submission_answer, is_not_reviewable,
}

pub completed_status :
    (st : RemediationStatus) → is_task_completed st ≡ true → st ≡ RemediationStatus.completed
completed_status RemediationStatus.completed h = refl
completed_status RemediationStatus.unstarted h = cc
completed_status RemediationStatus.in_progress h = cc
completed_status RemediationStatus.pending_review h = cc

-- Every current task of the plan is completed, and some current task of it is not.
abbrev pub IsDone : String → List RemediationTask → Type 0
IsDone plan_id ts =
    All (λ t. t.plan_id ≡ plan_id → t.is_current ≡ true → t.status ≡ RemediationStatus.completed) ts

abbrev pub HasOpen : String → List RemediationTask → Type 0
HasOpen plan_id [] = ⊥
HasOpen plan_id (t ∷ ts) =
    ((t.plan_id ≡ plan_id) × (t.is_current ≡ true) × (t.status ≢ RemediationStatus.completed))
    ⊎ HasOpen plan_id ts

abbrev is_open_task : RemediationTask → Bool
is_open_task t = t.is_current && not (is_task_completed t.status)

module _ (plan_id : String) where
  none_open :
      (ts : List RemediationTask)
      → any is_open_task (select (λ t. t.plan_id == plan_id) ts) ≡ false
      → IsDone plan_id ts
  none_open [] h = tt
  none_open (t ∷ ts) h = elim (Bool-cases (t.plan_id == plan_id)) [
    | inl e ↦
        let (closed, rest) = or_false (is_open_task t) _ (rw e at h) in
        (
          (λ own current. completed_status t.status (ground (arith, closed, current))),
          none_open ts rest,
        )
    | inr e ↦ (
      (λ own current. absurd (ground (arith, e, (eq_iff t.plan_id plan_id).1 own))),
      none_open ts (rw e at h),
    )
  ]

  some_open :
      (ts : List RemediationTask)
      → any is_open_task (select (λ t. t.plan_id == plan_id) ts) ≡ true
      → HasOpen plan_id ts
  some_open [] h = cc
  some_open (t ∷ ts) h = elim (Bool-cases (t.plan_id == plan_id)) [
    | inl e ↦
        elim (or_true (is_open_task t) (any is_open_task (select (λ u. u.plan_id == plan_id) ts))
          (rw e at h)) [
            | inl o ↦
                let (current, open_) = and_true t.is_current (not (is_task_completed t.status)) o in
                inl ((eq_iff t.plan_id plan_id).0 e, current, (λ d. ground (arith, open_, d)))
            | inr rest ↦ inr (some_open ts rest)
          ]
    | inr e ↦ inr (some_open ts (rw e at h))
  ]

-- The plan's status tells whether a current task of it is open.
abbrev pub StatusFollows : PlanStatus → String → List RemediationTask → Type 0
StatusFollows st plan_id ts =
    ((st ≡ PlanStatus.completed) × IsDone plan_id ts)
    ⊎ ((st ≡ PlanStatus.active) × HasOpen plan_id ts)

open_status-StatusFollows :
    (plan_id : String) (s : RemediationStore)
    → StatusFollows (open_status plan_id s) plan_id (values s.tasks)
unfolding has_open_task
open_status-StatusFollows plan_id s = elim (Bool-cases (has_open_task plan_id s)) [
  | inl e ↦ inr (rw e refl, some_open plan_id (values s.tasks) e)
  | inr e ↦ inl (rw e refl, none_open plan_id (values s.tasks) e)
]

reviewable :
    (x : RemediationSubmission)
    → (x.status ≡ SubmissionStatus.pending_review) ⊎ (x.status ≡ SubmissionStatus.agent_feedback)
    → is_not_reviewable (some x) ≡ false
reviewable x (inl e) = rw e refl
reviewable x (inr e) = rw e refl

-- An accepted review completes the task and settles its plan: for a submission that may be reviewed,
-- whose task and plan are stored, the review is taken and the submission accepted. The task is
-- completed under its next version, and nothing else of it is changed but the time. The plan has its
-- next version, and is completed if every current task of it is completed, and active if one is not.
pub accepted_review_settles :
    (i by : String) (n : Option String) (now : ℕ) (s : RemediationStore) (x : RemediationSubmission)
    (t : RemediationTask) (p : RemediationPlan)
    → get i s.submissions ≡ some x
    → (x.status ≡ SubmissionStatus.pending_review) ⊎ (x.status ≡ SubmissionStatus.agent_feedback)
    → get x.task_id s.tasks ≡ some t
    → get t.plan_id s.plans ≡ some p
    → (v : SubmissionView) × (s' : RemediationStore) × (q : RemediationPlan)
      × (review_remediation_submission i "accepted" by n now s ≡ ok (v, s'))
      × (get i s'.submissions
          ≡ some (record x {
            status = SubmissionStatus.accepted;
            reviewed_by = some by;
            review_note = n;
            reviewed_at = some now;
          }))
      × (get x.task_id s'.tasks
          ≡ some (record t {
            status = RemediationStatus.completed;
            version = t.version + 1;
            updated_at = now;
          }))
      × (get t.plan_id s'.plans ≡ some q)
      × (q.version ≡ p.version + 1)
      × StatusFollows q.status t.plan_id (values s'.tasks)
unfolding review_remediation_submission settle_plan plan_moved moved reviewed
accepted_review_settles i by n now s x t p a b c d =
    let s1 = record s {
      submissions = put i (reviewed true by n now x) s.submissions;
      tasks = put x.task_id (moved RemediationStatus.completed now t) s.tasks;
    } in
    let q = plan_moved (open_status t.plan_id s1) now p in
    let s2 = record s1 { plans = put t.plan_id q s.plans } in
    (
      (submission_answer i (reviewed true by n now x) s2).0,
      s2,
      q,
      ground (arith, a, reviewable x b, c, d),
      get-put_self i _ s.submissions,
      get-put_self x.task_id _ s.tasks,
      get-put_self t.plan_id _ s.plans,
      refl,
      open_status-StatusFollows t.plan_id s1,
    )
