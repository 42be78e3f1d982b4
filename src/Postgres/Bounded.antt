-- ===== src/Postgres/Bounded.antt =====
-- Every transaction on the queue in PostgreSQL keeps the bound on a task's attempts (law_agent/review/enterprise_store.py).
use mathlib.Core.Path.{subst}
use crosscomply_agent.Prelude.{
  ℕ, suc, ◌+◌, ◌≤◌, String, Bool, true, false, not, ◌&&◌, some, List, [], ◌∷◌, ◌≡◌, refl, inl, inr,
  arith, Bool-cases, Option-cases, ◌==◌, any, select, Dict, get, put, values, All, All-put, All-get,
  Result, ok, raise_if, ◌>>◌, if◌then◌else◌, value_error, unique_violation, Error,
}
use crosscomply_agent.Prelude.Sort.{All-sorted}
use crosscomply_agent.Enterprise.Records.{ReviewTask, IntakeSnapshot, HashInput}
use crosscomply_agent.Enterprise.Tasks.{is_foreign, is_queued, is_failed}
use crosscomply_agent.Enterprise.Outcomes.{is_restart}
use crosscomply_agent.Postgres.Rows.{TaskRow, PgTask, review_task, Tables}
use crosscomply_agent.Postgres.Reports.{
  failed_row, fail_task, checkpointed_row, checkpoint_agent, paused_row, pause_task, recorded_row,
  record_waiting_input, completed_row, complete_task,
}
use crosscomply_agent.Postgres.Queue.{
  max_task_auto_attempts, has_expired, lease_lost_row, requeue_expired_tasks, claimed_row,
  claim_first, candidates, is_before, claim_next_task,
}
use crosscomply_agent.Postgres.Requests.{
  new_row, insert_or_same, enqueue_review_task, resumed_row, resume_task, retried_row,
  has_active_sibling, retry_task, superseded_row, is_stale_question, supersede_waiting_tasks,
  is_other_active,
}
use crosscomply_agent.Postgres.Events.{
  Report, failure, checkpoint, pause, answer, completion, in_postgres, Event, enqueue, requeue,
  claim, report, resume, retry, supersede, tables_after, is_release, releases, happen, run,
}
use crosscomply_agent.Postgres.Cap.{
  IsCapped, AreCapped, AreCapped-suc, settled-IsCapped, kept-IsCapped, released-IsCapped,
  lease_lost_row-IsCapped, claimed_row-IsCapped,
}
use crosscomply_agent.Postgres.Updates.{update_one-All, update_where-All}

requeue-AreCapped :
    (n now : ℕ) (d : Tables) → AreCapped n d → AreCapped n (requeue_expired_tasks now d).1
unfolding requeue_expired_tasks
requeue-AreCapped n now d h =
    update_where-All (IsCapped n) (has_expired now) (lease_lost_row now) d
      (lease_lost_row-IsCapped n now) h

supersede-AreCapped :
    (n now : ℕ) (c : String) (d : Tables)
    → AreCapped n d
    → AreCapped n (supersede_waiting_tasks c now d).1
unfolding supersede_waiting_tasks
supersede-AreCapped n now c d h =
    update_where-All (IsCapped n) (is_stale_question c) (superseded_row now) d
      (λ t c. unfold superseded_row in settled-IsCapped n t _ refl refl c) h

claim_first-AreCapped :
    (n : ℕ) (ts : List PgTask) (w : String) (l now : ℕ) (d : Tables)
    → All (λ t. IsCapped n t × (is_queued t.row.status ≡ true)) ts
    → AreCapped n d
    → AreCapped n (claim_first ts w l now d).1
unfolding claim_first
claim_first-AreCapped n [] w l now d q h = h
claim_first-AreCapped n (t ∷ ts) w l now d q h =
    All-put (IsCapped n) t.row.id (claimed_row w l now t) d
      (claimed_row-IsCapped n w l now t q.0.1 q.0.0) h

report-AreCapped :
    (n now : ℕ) (r : Report) (k : String) (d : Tables)
    → AreCapped n d
    → AreCapped n (tables_after d (in_postgres r k now d))
unfolding fail_task checkpoint_agent pause_task record_waiting_input complete_task
report-AreCapped n now (failure node c m e) k d h =
    update_one-All (IsCapped n) (IsCapped n) k _ (failed_row node c m now) d
      (λ t p c. unfold failed_row in settled-IsCapped n t _ refl refl c) h h
report-AreCapped n now (checkpoint st e) k d h =
    update_one-All (IsCapped n) (IsCapped n) k _ (checkpointed_row st now) d
      (λ t p c. unfold checkpointed_row in kept-IsCapped n t _ refl refl c) h h
report-AreCapped n now (pause st e) k d h =
    update_one-All (IsCapped n) (IsCapped n) k _ (paused_row st now) d
      (λ t p c. unfold paused_row in settled-IsCapped n t _ refl refl c) h h
report-AreCapped n now (answer st g) k d h =
    update_one-All (IsCapped n) (IsCapped n) k _ (recorded_row st now) d
      (λ t p c. unfold recorded_row in kept-IsCapped n t _ refl refl c) h h
report-AreCapped n now (completion r node e) k d h =
    update_one-All (IsCapped n) (IsCapped n) k _ (completed_row r node now) d
      (λ t p c. unfold completed_row in settled-IsCapped n t _ refl refl c) h h

insert_or_same-AreCapped :
    (n : ℕ) (new : PgTask) (d : Tables)
    → IsCapped n new
    → AreCapped n d
    → AreCapped n (insert_or_same new d).1
insert_or_same-AreCapped n new d c h =
    of_found (select (λ t. t.row.idempotency_key == new.row.idempotency_key) (values d)) refl
  where
    of_found :
        (ts : List PgTask)
        → select (λ t. t.row.idempotency_key == new.row.idempotency_key) (values d) ≡ ts
        → AreCapped n (insert_or_same new d).1
    of_found [] e = rw (e, insert_or_same) (All-put (IsCapped n) new.row.id new d c h)
    of_found (t ∷ ts) e = rw (e, insert_or_same) h

-- The outcome of a transaction on `d` leaves capped tables.
record LeavesCapped (n : ℕ) (d : Tables) (m : Result (ReviewTask × Tables)) : Type 0 where
  capped : AreCapped n (tables_after d m)

raise_if-LeavesCapped :
    (n : ℕ) (b : Bool) (x : Error) (d : Tables) (m : Result (ReviewTask × Tables))
    → AreCapped n d
    → LeavesCapped n d m
    → LeavesCapped n d (raise_if b x >> m)
raise_if-LeavesCapped n true x d m h g = record { capped = h }
raise_if-LeavesCapped n false x d m h g = record { capped = g.capped }

retry-LeavesCapped :
    (n now : ℕ) (k : String) (d : Tables)
    → AreCapped n d
    → LeavesCapped (suc n) d (retry_task k now d)
unfolding retry_task
retry-LeavesCapped n now k d h = elim (Option-cases (get k d)) [
  | inl e ↦ rw (e, retry_task) (record { capped = AreCapped-suc n d h })
  | inr (t, e) ↦
      let stored : IsCapped (suc n) (retried_row now t) =
        unfold retried_row in
        released-IsCapped n t (retried_row now t) refl (All-get (IsCapped n) k d t h e) in
      let kept : LeavesCapped (suc n) d
          (ok (review_task (retried_row now t), put k (retried_row now t) d)) =
        record {
          capped = All-put (IsCapped (suc n)) k (retried_row now t) d stored (AreCapped-suc n d h);
        } in
      rw (e, retry_task)
        (raise_if-LeavesCapped (suc n)
          (not (is_failed t.row.status) && not (is_restart (review_task t))) value_error d _
          (AreCapped-suc n d h)
          (raise_if-LeavesCapped (suc n) (has_active_sibling t d) unique_violation d
            (ok (review_task (retried_row now t), put k (retried_row now t) d))
            (AreCapped-suc n d h) kept))
]

-- Any transaction keeps the bound that its releases raise.
module _ (precedes : String → String → Bool) (canonical_hash : HashInput → String)
    (has_case : String → Bool) (intake_snapshots : Dict IntakeSnapshot) where
  enqueue-LeavesCapped :
      (n now : ℕ) (c m i model b id : String) (d : Tables)
      → AreCapped n d
      → LeavesCapped n d
          (enqueue_review_task canonical_hash has_case intake_snapshots c m i model b id now d)
  unfolding enqueue_review_task
  enqueue-LeavesCapped n now c m i model b id d h =
      let key = canonical_hash (HashInput.task c m i model b) in
      let new = new_row c m i model b key id now in
      let fresh : IsCapped n new = record { within = omega arith; spare = λ q. omega arith } in
      let stored : LeavesCapped n d (ok (insert_or_same new d)) = record {
        capped = insert_or_same-AreCapped n new d fresh h;
      } in
      raise_if-LeavesCapped n (not (has_case c)) value_error d _ h (
        raise_if-LeavesCapped n (is_foreign c m (get i intake_snapshots)) value_error d _ h (
          raise_if-LeavesCapped n (any (is_other_active c key) (values d)) value_error d
            (ok (insert_or_same new d)) h stored))

  claim-AreCapped :
      (n now : ℕ) (is_locked : TaskRow → Bool) (w : String) (l : ℕ) (d : Tables)
      → AreCapped n d
      → AreCapped n (claim_next_task precedes is_locked w l now d).1
  unfolding claim_next_task candidates
  claim-AreCapped n now is_locked w l d h =
      let d' = (requeue_expired_tasks now d).1 in
      let h' = requeue-AreCapped n now d h in
      claim_first-AreCapped n (candidates precedes is_locked d') w l now d'
        (All-sorted (is_before precedes) _ _ (queued_all (values d') h')) h'
    where
      queued_all :
          (ts : List PgTask)
          → All (IsCapped n) ts
          → All
              (λ t. IsCapped n t × (is_queued t.row.status ≡ true))
              (select (λ t. is_queued t.row.status && not (is_locked t.row)) ts)
      queued_all [] c = tt
      queued_all (t ∷ ts) c = elim (Bool-cases (is_queued t.row.status && not (is_locked t.row))) [
        | inl e ↦ rw e ((c.0, ground arith), queued_all ts c.1)
        | inr e ↦ rw e (queued_all ts c.1)
      ]

  happen-AreCapped :
      (n now : ℕ) (e : Event) (d : Tables)
      → AreCapped n d
      → AreCapped
          (if is_release e then suc n else n)
          (happen precedes canonical_hash has_case intake_snapshots now e d)
  unfolding happen
  happen-AreCapped n now (enqueue c m i model b id) d h =
      (enqueue-LeavesCapped n now c m i model b id d h).capped
  happen-AreCapped n now requeue d h = requeue-AreCapped n now d h
  happen-AreCapped n now (claim is_locked w l) d h = claim-AreCapped n now is_locked w l d h
  happen-AreCapped n now (report r k) d h = report-AreCapped n now r k d h
  happen-AreCapped n now (resume k st) d h =
      unfold resume_task in
      update_one-All (IsCapped n) (IsCapped (suc n)) k _ (resumed_row st now) d
        (λ t p c. unfold resumed_row in released-IsCapped n t _ refl c) h (AreCapped-suc n d h)
  happen-AreCapped n now (retry k) d h = (retry-LeavesCapped n now k d h).capped
  happen-AreCapped n now (supersede c) d h = supersede-AreCapped n now c d h

  -- Over a run from any tables the bound grows by one with each release.
  run-AreCapped :
      (n : ℕ) (es : List (ℕ × Event)) (d : Tables)
      → AreCapped n d
      → AreCapped (releases es + n) (run precedes canonical_hash has_case intake_snapshots es d)
  run-AreCapped n [] d h = subst (λ i. AreCapped i d) (omega arith) h
  run-AreCapped n ((now, e) ∷ es) d h =
      let m = if is_release e then suc n else n in
      let count : releases es + m ≡ releases ((now, e) ∷ es) + n = ground arith in
      subst
        (λ i. AreCapped i (run precedes canonical_hash has_case intake_snapshots ((now, e) ∷ es) d))
        count
        (run-AreCapped m es (happen precedes canonical_hash has_case intake_snapshots now e d)
          (happen-AreCapped n now e d h))

  -- However the transactions follow one another from empty tables, a task is started at most five
  -- times, and once more for each time that a task was answered or retried: it is not started again
  -- and again by itself when its workers stop.
  pub attempts-bounded :
      (es : List (ℕ × Event)) (k : String) (t : PgTask)
      → get k (run precedes canonical_hash has_case intake_snapshots es []) ≡ some t
      → t.row.attempt_count ≤ max_task_auto_attempts + releases es
  attempts-bounded es k t e =
      let c = All-get (IsCapped (releases es + 0)) k _ t (run-AreCapped 0 es [] tt) e in
      let w = c.within in omega (arith, w)
