-- ===== src/Enterprise/OneActive.antt =====
-- A case has at most one active review task: what keeps this, and the one method that does not.
use mathlib.Core.Path.{subst}
use crosscomply_agent.Prelude.{
  item, ℕ, ◌≤◌, String, Bool, true, false, not, ◌||◌, ◌==◌, ◌≡◌, Option, none, some, List, [], ◌∷◌,
  All, get, values, count_values, count_values-put, count_values-put_new, count_values-map_values,
  count_values_of_none, IsFound, ok, value_error, raise_if, arith, Bool-cases, inl, inr, any,
  eq_iff, raise_if-ok,
}
use crosscomply_agent.Workflow.{is_text}
use crosscomply_agent.Enterprise.Records.{
  MaterialSnapshot, IntakeSnapshot, ReviewTask, EnterpriseStore, HashInput,
}
use crosscomply_agent.Enterprise.Tasks.{
  requeue_task, requeue_expired_tasks, claimed, claim_head, claim_next_task, is_queued, is_running,
  is_waiting, queued_tasks, has_no_attempts, is_stale, task_or_new, new_task, is_active_of,
  is_foreign, enqueue_review_task,
}
use crosscomply_agent.Enterprise.Outcomes.{
  fail_task, checkpoint_agent, pause_task, record_waiting_input, resume_task, complete_task,
  supersede_waiting_tasks, superseded, failed_with, checkpointed, paused, recorded, resumed,
  completed, gate_of,
}
use crosscomply_agent.Enterprise.Materials.{
  create_material_version, create_material_snapshot, create_intake_snapshot, snapshot_or_new,
  intake_or_new, case_snapshot, is_empty, versions_of, reject_multiple_versions,
}
use crosscomply_agent.Enterprise.Events.{Event, happen, store_after, store_after_bind}
use crosscomply_agent.Enterprise.Validity.{
  IsValid, change_task, change_task-cases, requeue_expired_tasks-IsValid,
}
use crosscomply_agent.Enterprise.Turns.{queued_tasks-IsFound}

-- The number of active tasks of a case.
abbrev pub active_count : String → EnterpriseStore → ℕ
active_count c s = count_values (is_active_of c) s.tasks

-- Not more tasks of the case are active in `s'` than in `s`.
module _ (c : String) where
  change_task-active :
      (j : String) (bad : ReviewTask → Bool) (f : ReviewTask → ReviewTask) (s : EnterpriseStore)
      → ((v : ReviewTask) → bad v ≡ false → is_active_of c (f v) ≡ true → is_active_of c v ≡ true)
      → active_count c (store_after s (change_task j bad f s)) ≤ active_count c s
  change_task-active j bad f s keep = elim (change_task-cases j bad f s) [
    | inl e ↦ rw e (omega arith)
    | inr (v, g, b, r) ↦ rw r (count_values-put (is_active_of c) j v (f v) s.tasks g (keep v b))
  ]

  claim_head-active :
      (q : List ReviewTask) (w : String) (l now : ℕ) (s : EnterpriseStore)
      → All (λ v. IsFound (λ u. u.id) s.tasks v × (is_queued v.status ≡ true)) q
      → active_count c (claim_head q w l now s).1 ≤ active_count c s
  unfolding claim_head claimed
  claim_head-active [] w l now s a = omega arith
  claim_head-active (v ∷ q) w l now s a =
      count_values-put (is_active_of c) v.id v _ s.tasks a.0.0 (λ h. ground arith)

  requeue-active :
      (now : ℕ) (s : EnterpriseStore)
      → active_count c (requeue_expired_tasks now s).1 ≤ active_count c s
  unfolding requeue_expired_tasks requeue_task
  requeue-active now s =
      count_values-map_values (is_active_of c) (requeue_task now) s.tasks (λ v h. ground arith)

  supersede-active :
      (d : String) (now : ℕ) (s : EnterpriseStore)
      → active_count c (supersede_waiting_tasks d now s).1 ≤ active_count c s
  unfolding supersede_waiting_tasks superseded
  supersede-active d now s =
      count_values-map_values (is_active_of c) (superseded d now) s.tasks (λ v h. ground arith)

  task_or_new-active :
      (o : Option String) (v : ReviewTask) (s : EnterpriseStore)
      → active_count c s ≤ 1
      → active_count c (store_after s (task_or_new o v s)) ≤ 1
  unfolding task_or_new
  task_or_new-active (some i) v s h =
      store_after_bind (λ x. active_count c x ≤ 1) s (item i s.tasks) (λ u. ok (u, s)) h (λ u e. h)
  task_or_new-active none v s h =
      store_after_bind (λ x. active_count c x ≤ 1) s
        (raise_if (any (is_active_of v.case_id) (values s.tasks)) value_error) _ h
        (λ _ e. elim (Bool-cases (v.case_id == c)) [
          | inl same ↦
              let free : any (is_active_of c) (values s.tasks) ≡ false =
                subst (λ d. any (is_active_of d) (values s.tasks) ≡ false)
                  ((eq_iff v.case_id c).0 same) (raise_if-ok _ value_error e) in
              ground (
                arith,
                count_values_of_none (is_active_of c) s.tasks free,
                count_values-put_new (is_active_of c) v.id v s.tasks,
              )
          | inr other ↦ ground (arith, other, count_values-put_new (is_active_of c) v.id v s.tasks)
        ])

  snapshot_or_new-active :
      (o : Option String) (x : MaterialSnapshot) (s : EnterpriseStore)
      → active_count c (store_after s (snapshot_or_new o x s)) ≤ active_count c s
  snapshot_or_new-active (some i) x s =
      store_after_bind (λ y. active_count c y ≤ active_count c s) s (item i s.snapshots)
        (λ u. ok (u, s)) (omega arith) (λ u e. omega arith)
  snapshot_or_new-active none x s = omega arith

  intake_or_new-active :
      (o : Option IntakeSnapshot) (x : IntakeSnapshot) (s : EnterpriseStore)
      → active_count c (intake_or_new o x s).1 ≤ active_count c s
  intake_or_new-active (some i) x s = omega arith
  intake_or_new-active none x s = omega arith

-- The events in which a failed or finished task is started again by hand.
abbrev pub is_retry : Event → Bool
is_retry (Event.retry _) = true
is_retry _ = false

module _ (canonical_hash : HashInput → String) (c : String) (s : EnterpriseStore) (now : ℕ) where
  freeze-active :
      (d : String) (vs : List String) (by id : String)
      → active_count c (store_after s (create_material_snapshot canonical_hash d vs by id now s))
        ≤ active_count c s
  unfolding create_material_snapshot
  freeze-active d vs by id =
      let P = λ (y : EnterpriseStore). active_count c y ≤ active_count c s in
      store_after_bind P s (raise_if (is_empty vs) value_error) _ (omega arith) λ _ _.
        store_after_bind P s (versions_of d vs s) _ (omega arith) λ rows _.
          store_after_bind P s (reject_multiple_versions [] rows) _ (omega arith)
            λ _ _. snapshot_or_new-active c _ _ s

  freeze_intake-active :
      (d m i by : String) (ref : Option String) (id : String)
      → active_count c (store_after s (create_intake_snapshot canonical_hash d m i by ref id now s))
        ≤ active_count c s
  unfolding create_intake_snapshot
  freeze_intake-active d m i by ref id =
      store_after_bind (λ y. active_count c y ≤ active_count c s) s
        (case_snapshot d (get m s.snapshots)) _ (omega arith) λ x _. intake_or_new-active c _ _ s

  enqueue-active :
      (d m i model b id : String)
      → active_count c s ≤ 1
      → active_count c (store_after s (enqueue_review_task canonical_hash d m i model b id now s))
        ≤ 1
  unfolding enqueue_review_task
  enqueue-active d m i model b id h =
      store_after_bind (λ y. active_count c y ≤ 1) s
        (raise_if (is_foreign d m (get i s.intake_snapshots)) value_error) _ h
        λ _ _. task_or_new-active c _ (new_task d m i model b _ id now) s h

  claim-active :
      (w : String) (l : ℕ)
      → IsValid s
      → active_count c (claim_next_task w l now s).1 ≤ active_count c s
  unfolding claim_next_task
  claim-active w l v =
      let s' = (requeue_expired_tasks now s).1 in
      omega (
        arith,
        requeue-active c now s,
        claim_head-active c (queued_tasks s') w l now s'
            (queued_tasks-IsFound s' (requeue_expired_tasks-IsValid s v now)),
      )

module _ (canonical_hash : HashInput → String) where
  -- A case with at most one active task, one that waits, runs or is paused, keeps at most one,
  -- whatever happens to a valid store, unless a task is retried.
  pub happen-active :
      (c : String) (now : ℕ) (e : Event) (s : EnterpriseStore)
      → IsValid s
      → is_retry e ≡ false
      → active_count c s ≤ 1
      → active_count c (happen canonical_hash now e s) ≤ 1
  unfolding happen
  happen-active c now (Event.upload u m i) s v r h = unfold create_material_version in h
  happen-active c now (Event.freeze d vs by id) s v r h =
      omega (arith, freeze-active canonical_hash c s now d vs by id)
  happen-active c now (Event.freeze_intake d m i by ref id) s v r h =
      omega (arith, freeze_intake-active canonical_hash c s now d m i by ref id)
  happen-active c now (Event.enqueue d m i model b id) s v r h =
      enqueue-active canonical_hash c s now d m i model b id h
  happen-active c now Event.requeue s v r h = omega (arith, requeue-active c now s)
  happen-active c now (Event.claim w l) s v r h =
      omega (arith, claim-active canonical_hash c s now w l v)
  happen-active c now (Event.fail j n d m e) s v r h =
      unfold fail_task failed_with in
      omega (
        arith,
        change_task-active c j (λ u. not (is_running u.status) || has_no_attempts u || is_stale e u)
            (failed_with n d m now) s (λ u b a. ground arith),
      )
  happen-active c now (Event.checkpoint j st e) s v r h =
      unfold checkpoint_agent checkpointed in
      omega (
        arith,
        change_task-active c j (λ u. not (is_running u.status) || is_stale e u)
            (checkpointed st now) s (λ u b a. ground arith),
      )
  happen-active c now (Event.pause j st e) s v r h =
      unfold pause_task paused in
      omega (
        arith,
        change_task-active c j (λ u. not (is_running u.status) || has_no_attempts u || is_stale e u)
            (paused st now) s (λ u b a. ground arith),
      )
  happen-active c now (Event.answer j st g) s v r h =
      unfold record_waiting_input recorded in
      omega (
        arith,
        change_task-active c j (λ u. not (is_waiting u.status) || not (is_text (gate_of u) g))
            (recorded st now) s (λ u b a. ground arith),
      )
  happen-active c now (Event.resume j st) s v r h =
      unfold resume_task resumed in
      omega (
        arith,
        change_task-active c j (λ u. not (is_waiting u.status)) (resumed st now) s
            (λ u b a. ground arith),
      )
  happen-active c now (Event.retry j) s v r h = absurd (ground arith)
  happen-active c now (Event.complete j p n e) s v r h =
      unfold complete_task completed in
      omega (
        arith,
        change_task-active c j (λ u. not (is_running u.status) || has_no_attempts u || is_stale e u)
            (completed p n now) s (λ u b a. ground arith),
      )
  happen-active c now (Event.supersede d) s v r h = omega (arith, supersede-active c d now s)
