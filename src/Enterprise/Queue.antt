-- ===== src/Enterprise/Queue.antt =====
-- Which task a worker is given, and what becomes of expired leases.
use crosscomply_agent.Prelude.{
  ℕ, ◌+◌, ◌≤◌, String, true, false, ◌≡◌, refl, ◌∙◌, ◌≢◌, eq_iff, ◌⊎◌, inl, inr, Option, none, some,
  List, [], ◌∷◌, All, get, values, get-put, get-put_self, IsFound, select, arith, Bool-cases,
  get_last?, get_last?-append,
}
use crosscomply_agent.Prelude.Sort.{sorted, insert, All-insert, All-of_sorted}
use crosscomply_agent.Enterprise.Records.{TaskStatus, TaskAttempt, ReviewTask, EnterpriseStore}
use crosscomply_agent.Enterprise.Validity.{IsValid, requeue_expired_tasks-IsValid}
use crosscomply_agent.Enterprise.Turns.{queued_tasks-IsFound}
use crosscomply_agent.Enterprise.Tasks.{
  requeue_expired_tasks, claimed, claim_head, claim_next_task, is_queued, queued_tasks, earlier,
}

-- A smaller time at the head of a sorted list than anywhere in it.
abbrev IsOldest : ReviewTask → List ReviewTask → Type 0
IsOldest t = All (λ u. t.created_at ≤ u.created_at)

IsOldest-trans :
    (t u : ReviewTask) (l : List ReviewTask)
    → t.created_at ≤ u.created_at
    → IsOldest u l
    → IsOldest t l
IsOldest-trans t u [] e h = tt
IsOldest-trans t u (v ∷ l) e h = (omega (arith, h.0), IsOldest-trans t u l e h.1)

-- The head of the list, if it has one, is the oldest.
abbrev HasOldestHead : List ReviewTask → Type 0
HasOldestHead [] = Unit
HasOldestHead (t ∷ l) = IsOldest t l

HasOldestHead-insert :
    (t : ReviewTask) (l : List ReviewTask) → HasOldestHead l → HasOldestHead (insert earlier t l)
HasOldestHead-insert t [] h = tt
HasOldestHead-insert t (u ∷ l) h = elim (Bool-cases (earlier u t)) [
  | inl e ↦ rw e (All-insert earlier (λ v. u.created_at ≤ v.created_at) t l (ground arith) h)
  | inr e ↦
      let first : t.created_at ≤ u.created_at = ground arith in
      rw e (first, IsOldest-trans t u l first h)
]

HasOldestHead-sorted : (l : List ReviewTask) → HasOldestHead (sorted earlier l)
HasOldestHead-sorted [] = tt
HasOldestHead-sorted (t ∷ l) = HasOldestHead-insert t (sorted earlier l) (HasOldestHead-sorted l)

-- No task waits.
abbrev HasNoQueued : EnterpriseStore → Type 0
HasNoQueued s = All (λ (t : ReviewTask). is_queued t.status ≡ false) (values s.tasks)

-- What a successful claim does to a store `s`: the oldest of the waiting tasks is given to the
-- worker as one more attempt under a lease, is stored as it is returned, and no other task changes.
pub record IsClaim (w : String) (l now : ℕ) (s : EnterpriseStore) (t u : ReviewTask)
    (s' : EnterpriseStore) : Type 0 where
  pub found : get t.id s.tasks ≡ some t
  pub waiting : t.status ≡ TaskStatus.queued
  pub oldest : IsOldest t (select (λ v. is_queued v.status) (values s.tasks))
  pub running : u.status ≡ TaskStatus.running
  pub attempt : u.attempt_count ≡ t.attempt_count + 1
  pub leased : u.lease_expires_at ≡ some (now + l)
  pub worker :
      (a : TaskAttempt) × (get_last? u.attempts ≡ some a)
      × (a.worker_id ≡ w)
      × (a.attempt_number ≡ u.attempt_count)
  pub stored : get t.id s'.tasks ≡ some u
  pub others : (k : String) → k ≢ t.id → get k s'.tasks ≡ get k s.tasks

claim_head-IsClaim :
    (t : ReviewTask) (q : List ReviewTask) (w : String) (l now : ℕ) (s : EnterpriseStore)
    → get t.id s.tasks ≡ some t
    → is_queued t.status ≡ true
    → IsOldest t (select (λ v. is_queued v.status) (values s.tasks))
    → IsClaim w l now s t (claimed w l now t) (claim_head (t ∷ q) w l now s).1
unfolding claim_head claimed
claim_head-IsClaim t q w l now s f h o = record {
  found = f;
  waiting = ground arith;
  oldest = o;
  running = refl;
  attempt = refl;
  leased = refl;
  worker = (_, get_last?-append t.attempts _, refl, refl);
  stored = get-put_self t.id _ s.tasks;
  others = λ k ne. get-put t.id k _ s.tasks ∙ ground (arith, eq_iff t.id k);
}

none_queued :
    (ts : List ReviewTask)
    → All (λ _. ⊥) (select (λ v. is_queued v.status) ts)
    → All (λ v. is_queued v.status ≡ false) ts
none_queued [] h = tt
none_queued (t ∷ ts) h = elim (Bool-cases (is_queued t.status)) [
  | inl e ↦ absurd ((rw e at h).0)
  | inr e ↦ (e, none_queued ts (rw e at h))
]

-- The two ways in which a claim ends: with no task and the store as it is, or with a task.
abbrev pub ClaimEnds :
    String → ℕ → ℕ → EnterpriseStore → Option ReviewTask × EnterpriseStore → Type 0
ClaimEnds w l now s r =
    ((r.0 ≡ none) × (r.1 ≡ s) × HasNoQueued s)
    ⊎ ((t u : ReviewTask) × (r.0 ≡ some u) × IsClaim w l now s t u r.1)

claim_head_ends :
    (q : List ReviewTask) (w : String) (l now : ℕ) (s : EnterpriseStore)
    → All (λ v. IsFound (λ u. u.id) s.tasks v × (is_queued v.status ≡ true)) q
    → HasOldestHead q
    → (All (λ _. ⊥) q → All (λ _. ⊥) (select (λ v. is_queued v.status) (values s.tasks)))
    → ((t : ReviewTask)
        → IsOldest t q
        → IsOldest t (select (λ v. is_queued v.status) (values s.tasks)))
    → ClaimEnds w l now s (claim_head q w l now s)
unfolding claim_head
claim_head_ends [] w l now s a o nobody all = inl (refl, refl, none_queued _ (nobody tt))
claim_head_ends (t ∷ q) w l now s a o nobody all = inr (
  t,
  claimed w l now t,
  refl,
  unfold claim_head in claim_head-IsClaim t q w l now s a.0.0 a.0.1 (all t (omega arith, o)),
)

-- After the expired leases are taken back, a worker that asks for a task gets none only if no task
-- waits, and then the store is unchanged. Otherwise it gets a task that waits, and none that waits
-- is older: the task runs, has one more attempt, which is the worker's and is its last, and a
-- lease of the given length; it is stored so, and no other task is changed.
pub claim_next_task_lem :
    (w : String) (l now : ℕ) (s : EnterpriseStore)
    → IsValid s
    → ClaimEnds w l now (requeue_expired_tasks now s).1 (claim_next_task w l now s)
unfolding claim_next_task
claim_next_task_lem w l now s v =
    let s' = (requeue_expired_tasks now s).1 in
    claim_head_ends (queued_tasks s') w l now s'
      (queued_tasks-IsFound s' (requeue_expired_tasks-IsValid s v now))
      (HasOldestHead-sorted (select (λ v. is_queued v.status) (values s'.tasks)))
      (All-of_sorted earlier (λ _. ⊥) _)
      (λ t. All-of_sorted earlier (λ u. t.created_at ≤ u.created_at) _)
