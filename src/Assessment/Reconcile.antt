-- ===== src/Assessment/Reconcile.antt =====
-- `reconcile_guided_action_list` of law_agent/review/remediation.py: a finished review leaves a
-- plan, what blocks the approval, and the case's next status.
use crosscomply_agent.Prelude.{
  ℕ, suc, ◌≡◌, refl, ◌↔◌, inl, inr, String, Bool, true, false, eq_iff, and_true, not, ◌&&◌, ◌||◌,
  Option, none, some, List, [], ◌∷◌, ◌==◌, arith, Bool-cases, select, All, if◌then◌else◌, ok,
}
use crosscomply_agent.Workflow.{
  CaseStatus, TransitionAuthority, ReviewResult, ReviewPayload, has_items, next_status_after_review,
  review_needs_source_verification, review_has_missing_information, review_requires_retry,
  validate_case_transition,
}
use crosscomply_agent.Workflow.Routing.{complete_review}
use crosscomply_agent.Remediation.Records.{
  RemediationStatus, RemediationStore, TaskData, TaskView, PlanView,
}
use crosscomply_agent.Remediation.Tasks.{is_task_completed}
use crosscomply_agent.Remediation.Settled.{completed_status}
use crosscomply_agent.Remediation.Plans.{sync_guided_remediation_plan}
use crosscomply_agent.Assessment.Guided.{ReviewDetails, guided_actions_from_review}

-- `task_result.get("review_result") or {}`
abbrev pub result_or_empty : Option ReviewResult → ReviewResult
result_or_empty none = record { risk_level = ""; missing_information = []; legal_basis_gaps = [] }
result_or_empty (some r) = r

-- Each action with the identifier that it would draw.
abbrev pub with_ids : (ℕ → String) → ℕ → List TaskData → List (TaskData × String)
with_ids new_ids n [] = []
with_ids new_ids n (t ∷ ts) = (t, new_ids n) ∷ with_ids new_ids (suc n) ts

abbrev pub reason_for : List TaskData → Option String
reason_for [] = some "本轮审查没有待处理事项。"
reason_for (t ∷ ts) = none

-- A task that has to be done before the approval, and is not.
unfoldable pub is_blocker : TaskView → Bool
is_blocker v =
    v.task.is_current
    && v.task.blocking
    && v.task.phase == "pre_approval"
    && not (is_task_completed v.task.status)

unfoldable pub status_after : ReviewPayload → List TaskView → CaseStatus
unfolding next_status_after_review
status_after p blockers =
    if review_needs_source_verification p
    then CaseStatus.pending_source_verification
    else if review_requires_retry p
    then CaseStatus.run_failed
    else next_status_after_review (review_has_missing_information p || has_items blockers)

pub record Reconciled : Type 0 where
  pub plan : PlanView
  pub blockers : List TaskView
  pub final_status : CaseStatus

module _ (sha256 casefold : String → String) where
  unfoldable pub reconcile_guided_action_list :
      (case_id actor_id : String) (requester_id : Option String)
      → ReviewPayload
      → ReviewDetails
      → (new_id : String) (new_ids : ℕ → String) (now : ℕ) → RemediationStore
      → Reconciled × RemediationStore
  reconcile_guided_action_list case_id actor_id requester_id p details new_id new_ids now s =
      let actions =
        guided_actions_from_review sha256 casefold (result_or_empty p.review_result) details
          requester_id in
      let (plan, s') =
        sync_guided_remediation_plan case_id actor_id (reason_for actions)
          (with_ids new_ids 0 actions) new_id now s in
      let blockers = select is_blocker plan.tasks in
      (record { plan = plan; blockers = blockers; final_status = status_after p blockers }, s')

-- A task that is current, blocking and due before the approval is completed.
abbrev pub IsSettled : TaskView → Type 0
IsSettled v =
    v.task.is_current ≡ true
    → v.task.blocking ≡ true
    → v.task.phase ≡ "pre_approval"
    → v.task.status ≡ RemediationStatus.completed

is_blocker-IsSettled : (v : TaskView) → (is_blocker v ≡ false) ↔ IsSettled v
unfolding is_blocker
is_blocker-IsSettled v = (to, from)
  where
    to : is_blocker v ≡ false → IsSettled v
    to h current blocking phase =
        completed_status v.task.status
          (ground (arith, h, current, blocking, (eq_iff v.task.phase "pre_approval").1 phase))

    from : IsSettled v → is_blocker v ≡ false
    from settled = elim (Bool-cases (is_blocker v)) [
      | inr h ↦ h
      | inl h ↦
          let (h1, open_) = and_true _ _ h in
          let (h2, phase) = and_true _ _ h1 in
          let (current, blocking) = and_true _ _ h2 in
          let done = settled current blocking ((eq_iff v.task.phase "pre_approval").0 phase) in
          absurd (ground (arith, open_, done))
    ]

IsSettled-iff : (vs : List TaskView) → (has_items (select is_blocker vs) ≡ false) ↔ All IsSettled vs
IsSettled-iff vs = (settled vs, unblocked vs)
  where
    settled : (vs : List TaskView) → has_items (select is_blocker vs) ≡ false → All IsSettled vs
    settled [] h = tt
    settled (v ∷ vs) h = elim (Bool-cases (is_blocker v)) [
      | inl e ↦ absurd (ground (arith, e))
      | inr e ↦ ((is_blocker-IsSettled v).0 e, settled vs (rw e at h))
    ]

    unblocked : (vs : List TaskView) → All IsSettled vs → has_items (select is_blocker vs) ≡ false
    unblocked [] h = refl
    unblocked (v ∷ vs) h = rw ((is_blocker-IsSettled v).1 h.0) (unblocked vs h.1)

status_after_iff :
    (p : ReviewPayload) (blockers : List TaskView)
    → (status_after p blockers ≡ CaseStatus.pending_feishu_approval)
      ↔ ((review_has_missing_information p ≡ false) × (has_items blockers ≡ false))
unfolding status_after
status_after_iff p blockers =
    (λ h. (ground (arith, h), ground (arith, h)), λ h. ground (arith, h, complete_review p h.0))

status_after-accepted :
    (p : ReviewPayload) (blockers : List TaskView)
    → validate_case_transition CaseStatus.review_running
        (status_after p blockers)
        TransitionAuthority.local
        none
      ≡ ok (status_after p blockers)
unfolding status_after validate_case_transition
status_after-accepted p blockers = ground arith

abbrev pub IsRoutedBy : ReviewPayload → Reconciled → Type 0
IsRoutedBy p r =
    ((r.final_status ≡ CaseStatus.pending_feishu_approval)
      ↔ ((review_has_missing_information p ≡ false) × All IsSettled r.plan.tasks))
    × (validate_case_transition CaseStatus.review_running r.final_status TransitionAuthority.local
          none
        ≡ ok r.final_status)

routed :
    (p : ReviewPayload) (plan : PlanView)
    → IsRoutedBy p (record {
      plan = plan;
      blockers = select is_blocker plan.tasks;
      final_status = status_after p (select is_blocker plan.tasks);
    })
routed p plan =
    let blockers = select is_blocker plan.tasks in
    let (sent, send) = status_after_iff p blockers in
    let (settled, unblocked) = IsSettled-iff plan.tasks in
    (
      (λ h. ((sent h).0, settled (sent h).1), λ h. send (h.0, unblocked h.1)),
      status_after-accepted p blockers,
    )

module _ (sha256 casefold : String → String) (case_id actor_id : String)
    (requester_id : Option String) (p : ReviewPayload) (details : ReviewDetails) (new_id : String)
    (new_ids : ℕ → String) (now : ℕ) (s : RemediationStore) where
  -- A finished review sends its case to the approval platform exactly when it misses no
  -- information and, of the tasks of the plan that it leaves, each that is current, blocking and due
  -- before the approval is completed. Wherever it sends a running case, the
  -- lifecycle accepts the change without the platform's authority.
  pub reconcile_guided_action_list_lem :
      IsRoutedBy p
        (reconcile_guided_action_list sha256 casefold case_id actor_id requester_id p details new_id
          new_ids now s).0
  unfolding reconcile_guided_action_list
  reconcile_guided_action_list_lem =
      routed p
        (reconcile_guided_action_list sha256 casefold case_id actor_id requester_id p details new_id
          new_ids now s).0.plan
