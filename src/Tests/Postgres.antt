-- ===== src/Tests/Postgres.antt =====
-- The queue in PostgreSQL on concrete inputs (law_agent/review/enterprise_store.py).
use crosscomply_agent.Prelude.{
  ℕ, ◌+◌, ◌≤◌, String, Bool, Option, none, some, List, [], ◌∷◌, ◌++◌, ◌≡◌, refl, ◌==◌, Dict, get,
  err, value_error,
}
use crosscomply_agent.Enterprise.Records.{TaskStatus, IntakeSnapshot}
use crosscomply_agent.Enterprise.Validity.{IsValid}
use crosscomply_agent.Enterprise.Invariant.{Run-IsValid}
use crosscomply_agent.Postgres.Rows.{PgTask, review_task, Tables, with_tasks}
use crosscomply_agent.Postgres.Reports.{failed_row, fail_task, completed_row, complete_task}
use crosscomply_agent.Postgres.Queue as Q
use crosscomply_agent.Postgres.Requests as R
use crosscomply_agent.Postgres.Events.{completion, Event, enqueue, claim, retry, happen, run}
use crosscomply_agent.Postgres.Claims.{by_characters, unlocked}
use crosscomply_agent.Postgres.Bounded.{attempts-bounded}
use crosscomply_agent.Postgres.Runs.{
  Step, claims, reports, in_memory_run, in_postgres_run, runs-Agree,
}
use crosscomply_agent.Tests.Worker.{waiting_run}
use crosscomply_agent.Tests.Enterprise.{store, digest, waiting, payload}

unfoldable tables : Unit {0}
unfolding happen Q.lease_lost_row Q.requeue_expired_tasks Q.claimed_row Q.claim_first Q.candidates
    Q.claim_next_task R.enqueue_review_task R.resumed_row R.resume_task R.retried_row R.retry_task
    R.superseded_row R.supersede_waiting_tasks failed_row fail_task completed_row complete_task
    review_task
tables = tt

abbrev cases : String → Bool
cases c = c == "case"

abbrev facts : Dict IntakeSnapshot
facts = waiting.intake_snapshots

abbrev after : List (ℕ × Event) → Tables
after es = run by_characters digest cases facts es []

abbrev enqueued : Event
enqueued = enqueue "case" "snap" "intake" "model" "{}" "t1"

abbrev take : Event
take = claim unlocked "w" 1

-- Five workers claim the task and stop, the last lease ends, and a person retries it.
abbrev lost : List (ℕ × Event)
lost =
    (1, enqueued) ∷ (10, take) ∷ (20, take) ∷ (30, take) ∷ (40, take) ∷ (50, take) ∷ (60, take) ∷ []

abbrev row_of : Tables → Option (TaskStatus × ℕ)
row_of [] = none
row_of ((k, t) ∷ d) = some (t.row.status, t.row.attempt_count)

stops_after_five : row_of (after lost) ≡ some (TaskStatus.failed, 5)
unfolding tables store
stops_after_five = refl

-- A person may have it started once more.
retried_once :
    row_of (after (lost ++ (70, retry "t1") ∷ (71, take) ∷ [])) ≡ some (TaskStatus.running, 6)
unfolding tables store
retried_once = refl

unknown_task_is_refused : R.retry_task "t9" 70 (after lost) ≡ err value_error
unfolding tables store
unknown_task_is_refused = refl

abbrev pg_task : String → Tables → PgTask
pg_task k d = elim (get k d) [ some t ↦ t | none ↦ R.new_row "" "" "" "" "" "" "" 0 ]

attempts-bounded_example :
    (pg_task "t1" (after (lost ++ (70, retry "t1") ∷ (71, take) ∷ []))).row.attempt_count ≤ 5 + 1
unfolding tables store
attempts-bounded_example =
    attempts-bounded by_characters digest cases facts (lost ++ (70, retry "t1") ∷ (71, take) ∷ [])
      "t1" (pg_task "t1" (after (lost ++ (70, retry "t1") ∷ (71, take) ∷ []))) refl

-- The task waits in both stores.
abbrev both_waiting : IsValid (with_tasks waiting (after ((4, enqueued) ∷ [])))
unfolding tables store
both_waiting = Run-IsValid digest waiting_run

abbrev steps : List (ℕ × Step)
steps = (5, claims "w1" 10) ∷ (6, reports (completion payload "done" (some 1)) "t1") ∷ []

runs-Agree_example :
    in_memory_run digest cases facts steps (with_tasks waiting (after ((4, enqueued) ∷ [])))
    ≡ with_tasks waiting (in_postgres_run digest cases facts steps (after ((4, enqueued) ∷ [])))
unfolding tables store
runs-Agree_example =
    runs-Agree digest cases facts steps waiting (after ((4, enqueued) ∷ [])) both_waiting
      ((λ h. (refl, refl)), tt) ((tt, tt), (tt, tt))

-- Both runs do complete the task.
completed_in_postgres :
    row_of (in_postgres_run digest cases facts steps (after ((4, enqueued) ∷ [])))
    ≡ some (TaskStatus.succeeded, 1)
unfolding tables store
completed_in_postgres = refl
