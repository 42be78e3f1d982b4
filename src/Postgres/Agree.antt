-- ===== src/Postgres/Agree.antt =====
-- PostgreSQL takes a worker's reports as the in-memory store does
-- (law_agent/review/enterprise_store.py).
use crosscomply_agent.Prelude.{
  ℕ, suc, ◌+◌, ◌≡◌, refl, sym, ap, ◌∙◌, inl, inr, String, Bool, Bool-cases, Option-cases, true,
  false, not, ◌||◌, Option, none, some, List, [], ◌∷◌, arith, length, get_last?, update_last,
  nat_eq, get, put, All-get, Result, ok, err, option_map,
}
use crosscomply_agent.Workflow.{ReviewPayload, has_items}
use crosscomply_agent.Enterprise.Records.{AgentState, TaskAttempt, ReviewTask, EnterpriseStore}
use crosscomply_agent.Enterprise.Tasks.{save, is_running, is_open, is_stale, has_no_attempts}
use crosscomply_agent.Enterprise.Outcomes.{failed_with, checkpointed, paused, recorded, completed}
use crosscomply_agent.Enterprise.Attempts.{IsNumbered}
use crosscomply_agent.Enterprise.Soundness.{IsSound, running_last}
use crosscomply_agent.Enterprise.Validity.{IsValid, change_task}
use crosscomply_agent.Postgres.Rows.{
  TaskRow, PgTask, review_task, Tables, view, get-view, view-put, with_tasks,
}
use crosscomply_agent.Postgres.Reports.{
  update_one, is_running_as, update_attempt, failed_row, checkpointed_row, paused_row, recorded_row,
  completed_row,
}

-- The outcome of a transaction, with the store that its tables stand for.
abbrev pub as_store :
    EnterpriseStore → Result (ReviewTask × Tables) → Result (ReviewTask × EnterpriseStore)
as_store s (ok (t, d)) = ok (t, with_tasks s d)
as_store s (err e) = err e

module _ (k : String) (test : TaskRow → Bool) (f : PgTask → PgTask) (bad : ReviewTask → Bool)
    (g : ReviewTask → ReviewTask) (s : EnterpriseStore) (d : Tables) where
  -- An UPDATE does what a method of the in-memory store does, if its test and its change are those
  -- of the method on the task that the row shows.
  pub update_one-change_task :
      ((t : PgTask) → get k d ≡ some t → bad (review_task t) ≡ not (test t.row))
      → ((t : PgTask)
          → get k d ≡ some t
          → test t.row ≡ true
          → review_task (f t) ≡ g (review_task t))
      → change_task k bad g (with_tasks s d) ≡ as_store s (update_one k test f d)
  update_one-change_task guards changes = elim (Option-cases (get k d)) [
    | inl e ↦ ground (arith, e, get-view k d)
    | inr (t, e) ↦ elim (Bool-cases (test t.row)) [
      | inl h ↦
          let found : get k (view d) ≡ some (review_task t) =
            get-view k d ∙ ap (option_map review_task) e in
          let passes : bad (review_task t) ≡ false = guards t e ∙ ap not h in
          let changed : change_task k bad g (with_tasks s d)
              ≡ ok (save k (g (review_task t)) (with_tasks s d)) =
            ground (arith, found, passes) in
          let updated : as_store s (update_one k test f d)
              ≡ ok (review_task (f t), with_tasks s (put k (f t) d)) =
            ground (arith, e, h) in
          changed
          ∙ ap (λ u. ok (u, record s { tasks = put k u (view d) })) (sym (changes t e h))
          ∙ ap (λ v. ok (review_task (f t), record s { tasks = v })) (sym (view-put k (f t) d))
          ∙ sym updated
      | inr h ↦ ground (arith, e, h, get-view k d, guards t e)
    ]
  ]

-- The attempt whose number is the count of attempts is the last one.
update_attempt-last :
    (n : ℕ) (f : TaskAttempt → TaskAttempt) (log : List TaskAttempt) (a : TaskAttempt) (m : ℕ)
    → IsNumbered m log
    → suc n ≡ m + length log
    → get_last? log ≡ some a
    → is_open a.status ≡ true
    → update_attempt n f log ≡ update_last f log
update_attempt-last n f [] a m h e l o = cc
update_attempt-last n f (b ∷ []) a m h e l o =
    let same : b ≡ a = cc in
    let number : b.attempt_number ≡ n = omega (arith, h.0, e) in
    let open_b : is_open b.status ≡ true = ap (λ x. is_open x.status) same ∙ o in
    ground (arith, number, open_b)
update_attempt-last n f (b ∷ c ∷ log) a m h e l o =
    let other : nat_eq b.attempt_number n ≡ false = ground (arith, h.0, e) in
    rw other
      (ap (λ xs. b ∷ xs) (update_attempt-last n f (c ∷ log) a (suc m) h.1 (omega (arith, e)) l o))

module _ (s : EnterpriseStore) (d : Tables) (v : IsValid (with_tasks s d)) where
  row-IsSound : (k : String) (t : PgTask) → get k d ≡ some t → IsSound (review_task t)
  row-IsSound k t e =
      All-get IsSound k (view d) (review_task t) v.sound
        (get-view k d ∙ ap (option_map review_task) e)

  running-last :
      (k : String) (t : PgTask)
      → get k d ≡ some t
      → is_running t.row.status ≡ true
      → (a : TaskAttempt) × (get_last? t.attempts ≡ some a) × (is_open a.status ≡ true)
  unfolding review_task
  running-last k t e r =
      let sound = row-IsSound k t e in
      let (a, last, open_a) =
        running_last t.row.status t.row.lease_expires_at (get_last? t.attempts) sound.agrees r in
      (a, last, ap is_open open_a)

  running-update :
      (k : String) (t : PgTask) (f : TaskAttempt → TaskAttempt)
      → get k d ≡ some t
      → is_running t.row.status ≡ true
      → update_attempt t.row.attempt_count f t.attempts ≡ update_last f t.attempts
  unfolding review_task
  running-update k t f e r =
      let sound = row-IsSound k t e in
      let (a, last, o) = running-last k t e r in
      update_attempt-last t.row.attempt_count f t.attempts a 1 sound.numbered
        (omega (arith, sound.counted)) last o

  last-some :
      (log : List TaskAttempt) (a : TaskAttempt) → get_last? log ≡ some a → has_items log ≡ true
  last-some [] a h = cc
  last-some (b ∷ log) a h = refl

  no_attempts_of :
      (u : ReviewTask) (log : List TaskAttempt)
      → u.attempts ≡ log
      → has_items log ≡ true
      → has_no_attempts u ≡ false
  no_attempts_of u [] e h = cc
  no_attempts_of u (a ∷ log) e h = rw e refl

  guard_of_running :
      (t : PgTask) (e : Option ℕ)
      → is_running t.row.status ≡ true
      → has_items t.attempts ≡ true
      → (not (is_running (review_task t).status)
          || has_no_attempts (review_task t)
          || is_stale e (review_task t))
        ≡ not (is_running_as e t.row)
  unfolding review_task
  guard_of_running t none r h = rw (r, no_attempts_of (review_task t) t.attempts refl h) refl
  guard_of_running t (some n) r h = rw (r, no_attempts_of (review_task t) t.attempts refl h) refl

  -- The guard of a report that closes an attempt, and of one that does not.
  pub report-guard :
      (k : String) (t : PgTask) (e : Option ℕ)
      → get k d ≡ some t
      → (not (is_running (review_task t).status)
          || has_no_attempts (review_task t)
          || is_stale e (review_task t))
        ≡ not (is_running_as e t.row)
  unfolding review_task
  report-guard k t e found = elim (Bool-cases (is_running t.row.status)) [
    | inl r ↦
        let (a, last, o) = running-last k t found r in
        guard_of_running t e r (last-some t.attempts a last)
    | inr r ↦ rw r refl
  ]

  pub checkpoint-guard :
      (t : PgTask) (e : Option ℕ)
      → (not (is_running (review_task t).status) || is_stale e (review_task t))
        ≡ not (is_running_as e t.row)
  unfolding review_task
  checkpoint-guard t none = ground arith
  checkpoint-guard t (some n) = ground arith

  module _ (now : ℕ) where
    pub failed-agrees :
        (k node c m : String) (t : PgTask)
        → get k d ≡ some t
        → is_running t.row.status ≡ true
        → review_task (failed_row node c m now t) ≡ failed_with node c m now (review_task t)
    unfolding review_task failed_row failed_with
    failed-agrees k node c m t e r =
        ap (λ log. record (failed_with node c m now (review_task t)) { attempts = log })
          (running-update k t _ e r)

    pub paused-agrees :
        (k : String) (st : AgentState) (t : PgTask)
        → get k d ≡ some t
        → is_running t.row.status ≡ true
        → review_task (paused_row st now t) ≡ paused st now (review_task t)
    unfolding review_task paused_row paused
    paused-agrees k st t e r =
        ap (λ log. record (paused st now (review_task t)) { attempts = log })
          (running-update k t _ e r)

    pub checkpointed-agrees :
        (st : AgentState) (t : PgTask)
        → review_task (checkpointed_row st now t) ≡ checkpointed st now (review_task t)
    unfolding review_task checkpointed_row checkpointed
    checkpointed-agrees st t = refl

    pub recorded-agrees :
        (st : AgentState) (t : PgTask)
        → review_task (recorded_row st now t) ≡ recorded st now (review_task t)
    unfolding review_task recorded_row recorded
    recorded-agrees st t = refl

    pub completed-agrees :
        (k : String) (r : ReviewPayload) (node : String) (t : PgTask)
        → get k d ≡ some t
        → is_running t.row.status ≡ true
        → t.row.error_category ≡ none
        → t.row.error_message ≡ none
        → review_task (completed_row r node now t) ≡ completed r node now (review_task t)
    unfolding review_task completed_row completed
    completed-agrees k r node t e runs c m =
        ap (λ log. record (review_task (completed_row r node now t)) { attempts = log })
          (running-update k t _ e runs)
        ∙ ap
            (λ x. record (completed r node now (review_task t)) {
              error_category = x;
              error_message = none;
            })
            (sym c)
        ∙ ap (λ x. record (completed r node now (review_task t)) { error_message = x }) (sym m)
