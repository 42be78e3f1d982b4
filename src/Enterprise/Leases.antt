-- ===== src/Enterprise/Leases.antt =====
-- Expired leases: which tasks are taken back from their workers, and that one pass takes all.
use crosscomply_agent.Prelude.{
  ℕ, String, true, false, ◌≡◌, refl, none, some, List, [], ◌∷◌, All, get, Dict, values, map_values,
  get-map_values, length, select, arith, Bool-cases, Option-cases, inl, inr, ◌⊎◌, ◌≤◌,
}
use crosscomply_agent.Enterprise.Records.{TaskStatus, ReviewTask, EnterpriseStore}
use crosscomply_agent.Enterprise.Tasks.{requeue_task, requeue_expired_tasks, is_expired}

requeue_task-not_expired : (now : ℕ) (t : ReviewTask) → is_expired now (requeue_task now t) ≡ false
unfolding requeue_task
requeue_task-not_expired now t = elim (Bool-cases (is_expired now t)) [
  | inl e ↦ rw e refl
  | inr e ↦ rw e e
]

requeue_task_of_not_expired :
    (now : ℕ) (t : ReviewTask) → is_expired now t ≡ false → requeue_task now t ≡ t
unfolding requeue_task
requeue_task_of_not_expired now t e = rw e

requeued_values :
    (now : ℕ) (d : Dict ReviewTask)
    → All (λ t. is_expired now t ≡ false) (values (map_values (requeue_task now) d))
requeued_values now [] = tt
requeued_values now ((k, t) ∷ d) = (requeue_task-not_expired now t, requeued_values now d)

none_selected :
    (now : ℕ) (ts : List ReviewTask)
    → All (λ t. is_expired now t ≡ false) ts
    → length (select (is_expired now) ts) ≡ 0
none_selected now [] h = refl
none_selected now (t ∷ ts) h = rw h.0 (none_selected now ts h.1)

map_values_of_not_expired :
    (now : ℕ) (d : Dict ReviewTask)
    → All (λ t. is_expired now t ≡ false) (values d)
    → map_values (requeue_task now) d ≡ d
map_values_of_not_expired now [] h = refl
map_values_of_not_expired now ((k, t) ∷ d) h =
    rw (requeue_task_of_not_expired now t h.0) (rw (map_values_of_not_expired now d h.1))

-- One pass is enough: at the same time a second pass takes back no task and leaves the store.
pub requeue_expired_tasks_idem :
    (now : ℕ) (s : EnterpriseStore)
    → requeue_expired_tasks now (requeue_expired_tasks now s).1
      ≡ (0, (requeue_expired_tasks now s).1)
unfolding requeue_expired_tasks
requeue_expired_tasks_idem now s =
    let h = requeued_values now s.tasks in
    ground (arith, none_selected now _ h, map_values_of_not_expired now _ h)

-- A task whose lease has ended.
abbrev pub LeaseEnded : ℕ → ReviewTask → Type 0
LeaseEnded now t =
    (lease : ℕ) × (t.lease_expires_at ≡ some lease)
    × (lease ≤ now)
    × (t.status ≡ TaskStatus.running)

is_expired-LeaseEnded : (now : ℕ) (t : ReviewTask) → is_expired now t ≡ true → LeaseEnded now t
is_expired-LeaseEnded now t h = elim (Option-cases t.lease_expires_at) [
  | inl e ↦ absurd (ground arith)
  | inr (lease, e) ↦ (lease, e, ground arith, ground arith)
]

-- A pass decides every task by its lease: a running task whose lease has ended at `now` waits in
-- the queue again without a lease, whatever the number of its attempts, and any other is the same.
pub requeue_expired_tasks_lem :
    (now : ℕ) (s : EnterpriseStore) (k : String) (t : ReviewTask)
    → get k s.tasks ≡ some t
    → (u : ReviewTask) × (get k (requeue_expired_tasks now s).1.tasks ≡ some u)
      × (u.attempt_count ≡ t.attempt_count)
      × ((LeaseEnded now t × (u.status ≡ TaskStatus.queued) × (u.lease_expires_at ≡ none))
          ⊎ ((LeaseEnded now t → ⊥) × (u ≡ t)))
unfolding requeue_expired_tasks requeue_task
requeue_expired_tasks_lem now s k t h = (
  requeue_task now t,
  get-map_values (requeue_task now) k s.tasks t h,
  ground arith,
  elim (Bool-cases (is_expired now t)) [
    | inl e ↦ inl (is_expired-LeaseEnded now t e, rw e refl, rw e refl)
    | inr e ↦ inr (λ (lease, p, q, r). absurd (ground arith), rw e refl)
  ],
)
