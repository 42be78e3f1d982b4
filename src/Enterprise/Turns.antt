-- ===== src/Enterprise/Turns.antt =====
-- What one event does to one task: the task as a state machine of its own, and the proof that each
-- method of law_agent/review/enterprise_store.py moves every task of the store by its steps.
pub mod Happen
pub mod Laws
use mathlib.Core.Path.{subst}
use crosscomply_agent.Prelude.{
  item, ℕ, String, Bool, true, false, not, ◌&&◌, ◌||◌, ◌≡◌, refl, ◌∙◌, sym, ap, Option, none, some,
  List, [], ◌∷◌, All, get, put, values, map_values, get-put, get-map_values, IsFound,
  values-IsFound, Result, ok, err, eq_iff, eq_refl, ◌==◌, value_error, raise_if, ◌>>=◌, ◌>>◌, arith,
  Bool-cases, Option-cases, inl, inr, ◌⊎◌, any, select, if◌then◌else◌,
}
use crosscomply_agent.Prelude.Sort.{All-sorted, All-select}
use crosscomply_agent.Workflow.{ReviewPayload}
use crosscomply_agent.Enterprise.Records.{
  AgentState, ReviewTask, EnterpriseStore, HashInput, MaterialSnapshot, IntakeSnapshot,
}
use crosscomply_agent.Enterprise.Tasks.{
  save, enqueue_review_task, requeue_task, requeue_expired_tasks, claimed, claim_head,
  claim_next_task, is_queued, is_running, is_waiting, is_failed, queued_tasks, earlier,
  has_no_attempts, is_stale, task_or_new, new_task, is_active_of, is_foreign,
}
use crosscomply_agent.Enterprise.Outcomes.{
  fail_task, checkpoint_agent, pause_task, record_waiting_input, resume_task, retry_task,
  complete_task, supersede_waiting_tasks, superseded, failed_with, checkpointed, paused, recorded,
  resumed, retried, completed, is_restart, gate_of,
}
use crosscomply_agent.Enterprise.Materials.{
  create_material_version, create_material_snapshot, create_intake_snapshot, snapshot_or_new,
  intake_or_new, case_snapshot, is_empty, versions_of, reject_multiple_versions,
}
use crosscomply_agent.Enterprise.Events.{
  Event, happen, IsFresh, Run, start, next, store_after, store_after_bind,
}
use crosscomply_agent.Enterprise.Validity.{IsValid, change_task, change_task-cases}
use crosscomply_agent.Enterprise.Invariant.{happen-IsValid}

-- One step of a task `t` to `u`, with the guard under which it is made.
pub data Turn (t u : ReviewTask) : Type 0 where
  claims : (w : String) (l now : ℕ) → is_queued t.status ≡ true → u ≡ claimed w l now t → Turn t u
  expires : (now : ℕ) → u ≡ requeue_task now t → Turn t u
  fails :
      (n c m : String) (e : Option ℕ) (now : ℕ)
      → is_running t.status ≡ true
      → is_stale e t ≡ false
      → u ≡ failed_with n c m now t
      → Turn t u
  checkpoints :
      (st : AgentState) (e : Option ℕ) (now : ℕ)
      → is_running t.status ≡ true
      → is_stale e t ≡ false
      → u ≡ checkpointed st now t
      → Turn t u
  pauses :
      (st : AgentState) (e : Option ℕ) (now : ℕ)
      → is_running t.status ≡ true
      → is_stale e t ≡ false
      → u ≡ paused st now t
      → Turn t u
  answers :
      (st : AgentState) (now : ℕ) → is_waiting t.status ≡ true → u ≡ recorded st now t → Turn t u
  resumes :
      (st : AgentState) (now : ℕ) → is_waiting t.status ≡ true → u ≡ resumed st now t → Turn t u
  retries : (now : ℕ) → (is_failed t.status || is_restart t) ≡ true → u ≡ retried now t → Turn t u
  completes :
      (r : ReviewPayload) (n : String) (e : Option ℕ) (now : ℕ)
      → is_running t.status ≡ true
      → is_stale e t ≡ false
      → u ≡ completed r n now t
      → Turn t u
  supersedes : (c : String) (now : ℕ) → u ≡ superseded c now t → Turn t u

-- Any number of steps.
pub data Turns (t : ReviewTask) : ReviewTask → Type 0 where
  rest : {u : ReviewTask} → u ≡ t → Turns t u
  more : {u v : ReviewTask} → Turns t u → Turn u v → Turns t v

pub Turns-trans : {t u v : ReviewTask} → Turns t u → Turns u v → Turns t v
Turns-trans {t} a (rest e) = subst (Turns t) (sym e) a
Turns-trans a (more b c) = more (Turns-trans a b) c

-- The task under `k`, which was `t`, has made steps.
abbrev pub HasTurned : String → ReviewTask → EnterpriseStore → Type 0
HasTurned k t s = (u : ReviewTask) × (get k s.tasks ≡ some u) × Turns t u

module _ (k : String) (t : ReviewTask) where
  pub stands : (s : EnterpriseStore) → get k s.tasks ≡ some t → HasTurned k t s
  stands s h = (t, h, rest refl)

  -- A step of the task under `j` is a step of the task under `k`, or leaves it.
  put-HasTurned :
      (j : String) (v w : ReviewTask) (s : EnterpriseStore)
      → get k s.tasks ≡ some t
      → get j s.tasks ≡ some v
      → Turn v w
      → HasTurned k t (record s { tasks = put j w s.tasks })
  put-HasTurned j v w s h g turn = elim (Bool-cases (j == k)) [
    | inl e ↦
        let same : v ≡ t = cc (sym g ∙ ap (λ i. get i s.tasks) ((eq_iff j k).0 e) ∙ h) in
        (w, get-put j k w s.tasks ∙ rw e refl, more (rest same) turn)
    | inr e ↦ (t, get-put j k w s.tasks ∙ rw e h, rest refl)
  ]

  pub change_task-HasTurned :
      (j : String) (bad : ReviewTask → Bool) (f : ReviewTask → ReviewTask) (s : EnterpriseStore)
      → get k s.tasks ≡ some t
      → ((v : ReviewTask) → bad v ≡ false → Turn v (f v))
      → HasTurned k t (store_after s (change_task j bad f s))
  change_task-HasTurned j bad f s h turn = elim (change_task-cases j bad f s) [
    | inl e ↦ subst (HasTurned k t) (sym e) (stands s h)
    | inr (v, g, b, r) ↦
        subst (HasTurned k t) (sym (ap (store_after s) r))
          (put-HasTurned j v (f v) s h g (turn v b))
  ]

  pub requeue_expired_tasks-HasTurned :
      (now : ℕ) (s : EnterpriseStore)
      → get k s.tasks ≡ some t
      → HasTurned k t (requeue_expired_tasks now s).1
  unfolding requeue_expired_tasks
  requeue_expired_tasks-HasTurned now s h = (
    requeue_task now t,
    get-map_values (requeue_task now) k s.tasks t h,
    more (rest refl) (expires now refl),
  )

  pub supersede_waiting_tasks-HasTurned :
      (c : String) (now : ℕ) (s : EnterpriseStore)
      → get k s.tasks ≡ some t
      → HasTurned k t (supersede_waiting_tasks c now s).1
  unfolding supersede_waiting_tasks
  supersede_waiting_tasks-HasTurned c now s h = (
    superseded c now t,
    get-map_values (superseded c now) k s.tasks t h,
    more (rest refl) (supersedes c now refl),
  )

  pub claim_head-HasTurned :
      (q : List ReviewTask) (w : String) (l now : ℕ) (s : EnterpriseStore)
      → All (λ v. IsFound (λ u. u.id) s.tasks v × (is_queued v.status ≡ true)) q
      → get k s.tasks ≡ some t
      → HasTurned k t (claim_head q w l now s).1
  unfolding claim_head
  claim_head-HasTurned [] w l now s a h = stands s h
  claim_head-HasTurned (v ∷ q) w l now s a h =
      put-HasTurned v.id v (claimed w l now v) s h a.0.0 (claims w l now a.0.1 refl)

  pub task_or_new-HasTurned :
      (o : Option String) (v : ReviewTask) (s : EnterpriseStore)
      → get v.id s.tasks ≡ none
      → get k s.tasks ≡ some t
      → HasTurned k t (store_after s (task_or_new o v s))
  unfolding task_or_new
  task_or_new-HasTurned (some i) v s fresh h =
      store_after_bind (HasTurned k t) s (item i s.tasks) (λ u. ok (u, s)) (stands s h)
        (λ u e. stands s h)
  task_or_new-HasTurned none v s fresh h =
      store_after_bind (HasTurned k t) s
        (raise_if (any (is_active_of v.case_id) (values s.tasks)) value_error) _ (stands s h)
        λ _ _. (t, get-put v.id k v s.tasks ∙ ground (arith, eq_iff v.id k), rest refl)

  pub snapshot_or_new-HasTurned :
      (o : Option String) (x : MaterialSnapshot) (s : EnterpriseStore)
      → get k s.tasks ≡ some t
      → HasTurned k t (store_after s (snapshot_or_new o x s))
  snapshot_or_new-HasTurned (some i) x s h =
      store_after_bind (HasTurned k t) s (item i s.snapshots) (λ u. ok (u, s)) (stands s h)
        (λ u e. stands s h)
  snapshot_or_new-HasTurned none x s h = (t, h, rest refl)

  pub intake_or_new-HasTurned :
      (o : Option IntakeSnapshot) (x : IntakeSnapshot) (s : EnterpriseStore)
      → get k s.tasks ≡ some t
      → HasTurned k t (intake_or_new o x s).1
  intake_or_new-HasTurned (some i) x s h = stands s h
  intake_or_new-HasTurned none x s h = (t, h, rest refl)

pub queued_tasks-IsFound :
    (s : EnterpriseStore)
    → IsValid s
    → All (λ v. IsFound (λ u. u.id) s.tasks v × (is_queued v.status ≡ true)) (queued_tasks s)
queued_tasks-IsFound s v =
    All-sorted earlier (λ t. IsFound (λ u. u.id) s.tasks t × (is_queued t.status ≡ true)) _
      (All-select (IsFound (λ u. u.id) s.tasks) (λ t. is_queued t.status) (values s.tasks)
        (values-IsFound (λ u. u.id) s.tasks v.keyed v.distinct))
