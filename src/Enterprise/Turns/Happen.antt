-- ===== src/Enterprise/Turns/Happen.antt =====
-- Each event of the store moves every one of its tasks by steps of the task's own machine.
use mathlib.Core.Path.{subst}
use crosscomply_agent.Prelude.{
  ℕ, String, not, ◌&&◌, ◌||◌, ◌≡◌, refl, sym, Option, none, some, List, [], get, value_error,
  raise_if, arith,
}
use crosscomply_agent.Workflow.{is_text}
use crosscomply_agent.Enterprise.Records.{ReviewTask, EnterpriseStore, HashInput}
use crosscomply_agent.Enterprise.Tasks.{
  enqueue_review_task, requeue_expired_tasks, claim_head, claim_next_task, is_running, is_waiting,
  is_failed, queued_tasks, has_no_attempts, is_stale, new_task, is_foreign,
}
use crosscomply_agent.Enterprise.Outcomes.{
  fail_task, checkpoint_agent, pause_task, record_waiting_input, resume_task, retry_task,
  complete_task, failed_with, checkpointed, paused, recorded, resumed, retried, completed,
  is_restart, gate_of,
}
use crosscomply_agent.Enterprise.Materials.{
  create_material_version, create_material_snapshot, create_intake_snapshot, case_snapshot,
  is_empty, versions_of, reject_multiple_versions,
}
use crosscomply_agent.Enterprise.Events.{
  Event, happen, IsFresh, Run, start, next, store_after, store_after_bind,
}
use crosscomply_agent.Enterprise.Validity.{IsValid}
use crosscomply_agent.Enterprise.Invariant.{happen-IsValid}
use crosscomply_agent.Enterprise.Turns.{
  Turns, Turns-trans, rest, HasTurned, fails, checkpoints, pauses, answers, resumes, retries,
  completes, stands, change_task-HasTurned, requeue_expired_tasks-HasTurned,
  supersede_waiting_tasks-HasTurned, claim_head-HasTurned, task_or_new-HasTurned,
  snapshot_or_new-HasTurned, intake_or_new-HasTurned, queued_tasks-IsFound,
}
use crosscomply_agent.Enterprise.Validity.{requeue_expired_tasks-IsValid}

HasTurned-trans :
    (k : String) {t u : ReviewTask} (s : EnterpriseStore)
    → Turns t u
    → HasTurned k u s
    → HasTurned k t s
HasTurned-trans k s a (v, h, b) = (v, h, Turns-trans a b)

module _ (canonical_hash : HashInput → String) (k : String) (t : ReviewTask) (s : EnterpriseStore)
    (h : get k s.tasks ≡ some t) (now : ℕ) where
  create_material_snapshot-HasTurned :
      (c : String) (vs : List String) (by id : String)
      → HasTurned k t (store_after s (create_material_snapshot canonical_hash c vs by id now s))
  unfolding create_material_snapshot
  create_material_snapshot-HasTurned c vs by id =
      let P = HasTurned k t in
      store_after_bind P s (raise_if (is_empty vs) value_error) _ (stands k t s h) λ _ _.
        store_after_bind P s (versions_of c vs s) _ (stands k t s h) λ rows _.
          store_after_bind P s (reject_multiple_versions [] rows) _ (stands k t s h)
            λ _ _. snapshot_or_new-HasTurned k t _ _ s h

  enqueue_review_task-HasTurned :
      (c m i model b id : String)
      → get id s.tasks ≡ none
      → HasTurned k t (store_after s (enqueue_review_task canonical_hash c m i model b id now s))
  unfolding enqueue_review_task
  enqueue_review_task-HasTurned c m i model b id fresh =
      store_after_bind (HasTurned k t) s
        (raise_if (is_foreign c m (get i s.intake_snapshots)) value_error) _ (stands k t s h)
        λ _ _. task_or_new-HasTurned k t _ (new_task c m i model b _ id now) s fresh h

  create_intake_snapshot-HasTurned :
      (c m i by : String) (ref : Option String) (id : String)
      → HasTurned k t (store_after s (create_intake_snapshot canonical_hash c m i by ref id now s))
  unfolding create_intake_snapshot
  create_intake_snapshot-HasTurned c m i by ref id =
      store_after_bind (HasTurned k t) s (case_snapshot c (get m s.snapshots)) _ (stands k t s h)
        λ x _. intake_or_new-HasTurned k t _ _ s h

claim_next_task-HasTurned :
    (k : String) (t : ReviewTask) (w : String) (l now : ℕ) (s : EnterpriseStore)
    → IsValid s
    → get k s.tasks ≡ some t
    → HasTurned k t (claim_next_task w l now s).1
unfolding claim_next_task
claim_next_task-HasTurned k t w l now s v h =
    let s' = (requeue_expired_tasks now s).1 in
    let (u, g, a) = requeue_expired_tasks-HasTurned k t now s h in
    HasTurned-trans k (claim_head (queued_tasks s') w l now s').1 a (
      claim_head-HasTurned k u (queued_tasks s') w l now s'
        (queued_tasks-IsFound s' (requeue_expired_tasks-IsValid s v now)) g)

module _ (canonical_hash : HashInput → String) where
  -- No event loses a task or changes it but by steps of the task's machine, each under its guard.
  pub happen-HasTurned :
      (now : ℕ) (e : Event) (s : EnterpriseStore) (k : String) (t : ReviewTask)
      → IsValid s
      → IsFresh canonical_hash e s
      → get k s.tasks ≡ some t
      → HasTurned k t (happen canonical_hash now e s)
  unfolding happen
  happen-HasTurned now (Event.upload u m i) s k t v f h =
      (t, unfold create_material_version in h, rest refl)
  happen-HasTurned now (Event.freeze c vs by id) s k t v f h =
      create_material_snapshot-HasTurned canonical_hash k t s h now c vs by id
  happen-HasTurned now (Event.freeze_intake c m i by ref id) s k t v f h =
      create_intake_snapshot-HasTurned canonical_hash k t s h now c m i by ref id
  happen-HasTurned now (Event.enqueue c m i model b id) s k t v f h =
      enqueue_review_task-HasTurned canonical_hash k t s h now c m i model b id f
  happen-HasTurned now Event.requeue s k t v f h = requeue_expired_tasks-HasTurned k t now s h
  happen-HasTurned now (Event.claim w l) s k t v f h = claim_next_task-HasTurned k t w l now s v h
  happen-HasTurned now (Event.fail j n c m e) s k t v f h =
      unfold fail_task in
      change_task-HasTurned k t j
        (λ u. not (is_running u.status) || has_no_attempts u || is_stale e u)
        (failed_with n c m now) s h (λ u b. fails n c m e now (ground arith) (ground arith) refl)
  happen-HasTurned now (Event.checkpoint j st e) s k t v f h =
      unfold checkpoint_agent in
      change_task-HasTurned k t j (λ u. not (is_running u.status) || is_stale e u)
        (checkpointed st now) s h (λ u b. checkpoints st e now (ground arith) (ground arith) refl)
  happen-HasTurned now (Event.pause j st e) s k t v f h =
      unfold pause_task in
      change_task-HasTurned k t j
        (λ u. not (is_running u.status) || has_no_attempts u || is_stale e u) (paused st now) s h
        (λ u b. pauses st e now (ground arith) (ground arith) refl)
  happen-HasTurned now (Event.answer j st g) s k t v f h =
      unfold record_waiting_input in
      change_task-HasTurned k t j (λ u. not (is_waiting u.status) || not (is_text (gate_of u) g))
        (recorded st now) s h (λ u b. answers st now (ground arith) refl)
  happen-HasTurned now (Event.resume j st) s k t v f h =
      unfold resume_task in
      change_task-HasTurned k t j (λ u. not (is_waiting u.status)) (resumed st now) s h
        (λ u b. resumes st now (ground arith) refl)
  happen-HasTurned now (Event.retry j) s k t v f h =
      unfold retry_task in
      change_task-HasTurned k t j (λ u. not (is_failed u.status) && not (is_restart u))
        (retried now) s h (λ u b. retries now (ground arith) refl)
  happen-HasTurned now (Event.complete j r n e) s k t v f h =
      unfold complete_task in
      change_task-HasTurned k t j
        (λ u. not (is_running u.status) || has_no_attempts u || is_stale e u) (completed r n now) s
        h (λ u b. completes r n e now (ground arith) (ground arith) refl)
  happen-HasTurned now (Event.supersede c) s k t v f h =
      supersede_waiting_tasks-HasTurned k t c now s h

  -- Over any run from a valid store every task stays, and has only made steps of its machine.
  pub Run-HasTurned :
      {s u : EnterpriseStore} (k : String) (t : ReviewTask)
      → IsValid s
      → Run canonical_hash s u
      → get k s.tasks ≡ some t
      → HasTurned k t u × IsValid u
  Run-HasTurned {s} k t v start h = (stands k t s h, v)
  Run-HasTurned k t v (next {t = mid} r now e f eq) h =
      let ((m, g, a), w) = Run-HasTurned k t v r h in
      (
        subst (HasTurned k t) (sym eq) (
            HasTurned-trans k (happen canonical_hash now e mid) a
              (happen-HasTurned now e mid k m w f g)),
        subst IsValid (sym eq) (happen-IsValid canonical_hash now e mid w),
      )
