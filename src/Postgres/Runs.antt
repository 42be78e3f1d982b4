-- ===== src/Postgres/Runs.antt =====
-- PostgreSQL and the in-memory store stay alike while tasks are claimed, reported and answered
-- (law_agent/review/enterprise_store.py).
use mathlib.Core.Path.{subst}
use crosscomply_agent.Prelude.{
  ℕ, String, Bool, ◌&&◌, false, List, [], ◌∷◌, ◌≡◌, refl, sym, ap, ◌∙◌, Dict, values, All, All-put,
  All-get, Result, ok, err, not,
}
use crosscomply_agent.Workflow.{is_text}
use crosscomply_agent.Enterprise.Records.{
  AgentState, ReviewTask, EnterpriseStore, IntakeSnapshot, HashInput,
}
use crosscomply_agent.Enterprise.Tasks.{is_running, is_waiting}
use crosscomply_agent.Enterprise.Outcomes as O
use crosscomply_agent.Enterprise.Events as E
use crosscomply_agent.Enterprise.Events.{store_after}
use crosscomply_agent.Enterprise.Validity.{IsValid}
use crosscomply_agent.Enterprise.Invariant.{happen-IsValid}
use crosscomply_agent.Postgres.Rows.{PgTask, review_task, Tables, with_tasks}
use crosscomply_agent.Postgres.Reports.{
  is_running_as, gate_of_row, failed_row, fail_task, checkpointed_row, checkpoint_agent, paused_row,
  pause_task, recorded_row, record_waiting_input, completed_row, complete_task,
}
use crosscomply_agent.Postgres.Queue.{
  claimed_row, claim_first, claim_next_task, requeue_expired_tasks,
}
use crosscomply_agent.Postgres.Requests.{resumed_row, resume_task}
use crosscomply_agent.Postgres.Events.{
  Report, failure, checkpoint, pause, answer, completion, in_postgres, Event, claim, report, resume,
  tables_after, happen,
}
use crosscomply_agent.Postgres.Updates.{update_one-All}
use crosscomply_agent.Postgres.Agree.{as_store, update_one-change_task}
use crosscomply_agent.Postgres.Refines.{in_memory, HasNoError, reports-Agree}
use crosscomply_agent.Postgres.Claims.{
  AreOnTime, by_characters, unlocked, requeue-same, claim_next_task-Agrees,
}

-- What a worker does to the queue, and a person who answers.
pub data Step : Type 0 where
  claims : (worker_id : String) (lease_seconds : ℕ) → Step
  reports : Report → (task_id : String) → Step
  resumes : (task_id : String) → AgentState → Step

abbrev pub event_of_report : Report → String → E.Event
event_of_report (failure node c m e) k = E.Event.fail k node c m e
event_of_report (checkpoint st e) k = E.Event.checkpoint k st e
event_of_report (pause st e) k = E.Event.pause k st e
event_of_report (answer st g) k = E.Event.answer k st g
event_of_report (completion r node e) k = E.Event.complete k r node e

abbrev pub event_of : Step → E.Event
event_of (claims w l) = E.Event.claim w l
event_of (reports r k) = event_of_report r k
event_of (resumes k st) = E.Event.resume k st

abbrev pub transaction_of : Step → Event
transaction_of (claims w l) = claim unlocked w l
transaction_of (reports r k) = report r k
transaction_of (resumes k st) = resume k st

-- A claim finds no lease that has ended.
abbrev pub IsTimely : ℕ → Step → Tables → Type 0
IsTimely now (claims w l) d = AreOnTime now d
IsTimely now (reports r k) d = Unit
IsTimely now (resumes k st) d = Unit

abbrev pub IsClean : PgTask → Type 0
IsClean t = HasNoError t.row

-- Where a task does not run, nothing is asked of its error.
idle-IsClean : (t : PgTask) → is_running t.row.status ≡ false → IsClean t
idle-IsClean t e h = cc

report-IsClean :
    (r : Report) (k : String) (now : ℕ) (d : Tables)
    → All IsClean (values d)
    → All IsClean (values (tables_after d (in_postgres r k now d)))
unfolding fail_task checkpoint_agent pause_task record_waiting_input complete_task
report-IsClean (failure node c m e) k now d h =
    update_one-All IsClean IsClean k (is_running_as e) (failed_row node c m now) d
      (λ t p q. unfold failed_row in idle-IsClean (failed_row node c m now t) refl) h h
report-IsClean (checkpoint st e) k now d h =
    update_one-All IsClean IsClean k (is_running_as e) (checkpointed_row st now) d
      (λ t p q. unfold checkpointed_row in q) h h
report-IsClean (pause st e) k now d h =
    update_one-All IsClean IsClean k (is_running_as e) (paused_row st now) d
      (λ t p q. unfold paused_row in idle-IsClean (paused_row st now t) refl) h h
report-IsClean (answer st g) k now d h =
    update_one-All IsClean IsClean k (λ r. is_waiting r.status && is_text (gate_of_row r) g)
      (recorded_row st now) d (λ t p q. unfold recorded_row in q) h h
report-IsClean (completion r node e) k now d h =
    update_one-All IsClean IsClean k (is_running_as e) (completed_row r node now) d
      (λ t p q. unfold completed_row in idle-IsClean (completed_row r node now t) refl) h h

claim_first-IsClean :
    (ts : List PgTask) (w : String) (l now : ℕ) (d : Tables)
    → All IsClean (values d)
    → All IsClean (values (claim_first ts w l now d).1)
unfolding claim_first claimed_row
claim_first-IsClean [] w l now d h = h
claim_first-IsClean (t ∷ ts) w l now d h =
    All-put IsClean t.row.id (claimed_row w l now t) d (λ r. (refl, refl)) h

-- What is left of a store after an outcome that both have.
store_after-as_store :
    (s : EnterpriseStore) (d : Tables) (m : Result (ReviewTask × Tables))
    → store_after (with_tasks s d) (as_store s m) ≡ with_tasks s (tables_after d m)
store_after-as_store s d (ok (t, d')) = refl
store_after-as_store s d (err e) = refl

resume_task-Agrees :
    (k : String) (st : AgentState) (now : ℕ) (s : EnterpriseStore) (d : Tables)
    → O.resume_task k st now (with_tasks s d) ≡ as_store s (resume_task k st now d)
unfolding O.resume_task resume_task
resume_task-Agrees k st now s d =
    update_one-change_task k (λ r. is_waiting r.status) (resumed_row st now)
      (λ t. not (is_waiting t.status)) (O.resumed st now) s d
      (λ t found. unfold review_task in refl)
      (λ t found h. unfold review_task resumed_row O.resumed in refl)

module _ (canonical_hash : HashInput → String) (has_case : String → Bool)
    (intake_snapshots : Dict IntakeSnapshot) where
  abbrev pub in_memory_run : List (ℕ × Step) → EnterpriseStore → EnterpriseStore
  in_memory_run [] s = s
  in_memory_run ((now, x) ∷ xs) s = in_memory_run xs (E.happen canonical_hash now (event_of x) s)

  abbrev pub commit : ℕ → Step → Tables → Tables
  commit now x =
      happen by_characters canonical_hash has_case intake_snapshots now (transaction_of x)

  abbrev pub in_postgres_run : List (ℕ × Step) → Tables → Tables
  in_postgres_run [] d = d
  in_postgres_run ((now, x) ∷ xs) d = in_postgres_run xs (commit now x d)

  abbrev pub AreTimely : List (ℕ × Step) → Tables → Type 0
  AreTimely [] d = Unit
  AreTimely ((now, x) ∷ xs) d = IsTimely now x d × AreTimely xs (commit now x d)

  happen-report :
      (r : Report) (k : String) (now : ℕ) (s : EnterpriseStore)
      → E.happen canonical_hash now (event_of_report r k) s ≡ store_after s (in_memory r k now s)
  unfolding E.happen
  happen-report (failure node c m e) k now s = refl
  happen-report (checkpoint st e) k now s = refl
  happen-report (pause st e) k now s = refl
  happen-report (answer st g) k now s = refl
  happen-report (completion r node e) k now s = refl

  commit-IsClean :
      (now : ℕ) (x : Step) (d : Tables)
      → IsTimely now x d
      → All IsClean (values d)
      → All IsClean (values (commit now x d))
  unfolding happen claim_next_task requeue_expired_tasks
  commit-IsClean now (claims w l) d timely h =
      let cleaned = subst (λ e. All IsClean (values e)) (sym (requeue-same now d timely)) h in
      claim_first-IsClean _ w l now _ cleaned
  commit-IsClean now (reports r k) d timely h = report-IsClean r k now d h
  commit-IsClean now (resumes k st) d timely h =
      unfold resume_task in
      update_one-All IsClean IsClean k (λ r. is_waiting r.status) (resumed_row st now) d
        (λ t p q. unfold resumed_row in idle-IsClean (resumed_row st now t) refl) h h

  step-Agrees :
      (now : ℕ) (x : Step) (s : EnterpriseStore) (d : Tables)
      → IsValid (with_tasks s d)
      → All IsClean (values d)
      → IsTimely now x d
      → E.happen canonical_hash now (event_of x) (with_tasks s d) ≡ with_tasks s (commit now x d)
  unfolding happen E.happen
  step-Agrees now (claims w l) s d v h timely =
      ap (λ r. r.1) (claim_next_task-Agrees w l now s d timely)
  step-Agrees now (reports r k) s d v h timely =
      happen-report r k now (with_tasks s d)
      ∙ ap (store_after (with_tasks s d))
          (reports-Agree r k now s d v (λ t found. All-get IsClean k d t h found))
      ∙ store_after-as_store s d (in_postgres r k now d)
  step-Agrees now (resumes k st) s d v h timely =
      ap (store_after (with_tasks s d)) (resume_task-Agrees k st now s d)
      ∙ store_after-as_store s d (resume_task k st now d)

  -- Claims, reports and answers at any times and in any order make of both stores what shows the
  -- same tasks, if they did so before, the tasks make a valid store, a running task carries no error,
  -- no claim finds a lease that has ended, no row is locked at a claim, and identifiers are compared
  -- by their characters.
  pub runs-Agree :
      (xs : List (ℕ × Step)) (s : EnterpriseStore) (d : Tables)
      → IsValid (with_tasks s d)
      → All IsClean (values d)
      → AreTimely xs d
      → in_memory_run xs (with_tasks s d) ≡ with_tasks s (in_postgres_run xs d)
  runs-Agree [] s d v h timely = refl
  runs-Agree ((now, x) ∷ xs) s d v h timely =
      let same = step-Agrees now x s d v h timely.0 in
      ap (in_memory_run xs) same
      ∙ runs-Agree xs s (commit now x d)
          (subst IsValid same (happen-IsValid canonical_hash now (event_of x) (with_tasks s d) v))
          (commit-IsClean now x d timely.0 h) timely.1
