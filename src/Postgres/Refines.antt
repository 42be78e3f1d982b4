-- ===== src/Postgres/Refines.antt =====
-- A worker's reports to PostgreSQL are those to the in-memory store
-- (law_agent/review/enterprise_store.py).
use crosscomply_agent.Prelude.{
  ℕ, String, Option, none, some, ◌≡◌, refl, get, Result, not, true, ◌||◌, ◌&&◌, arith, Bool-cases,
  inl, inr,
}
use crosscomply_agent.Workflow.{is_text}
use crosscomply_agent.Enterprise.Records.{ReviewTask, EnterpriseStore}
use crosscomply_agent.Enterprise.Tasks.{is_running, is_waiting}
use crosscomply_agent.Enterprise.Outcomes as E
use crosscomply_agent.Enterprise.Validity.{IsValid}
use crosscomply_agent.Postgres.Rows.{TaskRow, PgTask, review_task, Tables, with_tasks}
use crosscomply_agent.Postgres.Reports.{
  is_running_as, failed_row, fail_task, checkpointed_row, checkpoint_agent, paused_row, pause_task,
  gate_of_row, recorded_row, record_waiting_input, completed_row, complete_task,
}
use crosscomply_agent.Postgres.Events.{
  Report, failure, checkpoint, pause, answer, completion, in_postgres,
}
use crosscomply_agent.Postgres.Agree.{
  as_store, update_one-change_task, report-guard, checkpoint-guard, failed-agrees, paused-agrees,
  checkpointed-agrees, recorded-agrees, completed-agrees,
}

abbrev pub in_memory : Report → String → ℕ → EnterpriseStore → Result (ReviewTask × EnterpriseStore)
in_memory (failure node c m e) k now = E.fail_task k node c m e now
in_memory (checkpoint st e) k now = E.checkpoint_agent k st e now
in_memory (pause st e) k now = E.pause_task k st e now
in_memory (answer st g) k now = E.record_waiting_input k st g now
in_memory (completion r node e) k now = E.complete_task k r node e now

-- A running task carries no error: a claim clears the one of the attempt before.
abbrev pub HasNoError : TaskRow → Type 0
HasNoError r = is_running r.status ≡ true → (r.error_category ≡ none) × (r.error_message ≡ none)

running_as-running :
    (e : Option ℕ) (r : TaskRow) → is_running_as e r ≡ true → is_running r.status ≡ true
running_as-running none r h = ground arith
running_as-running (some n) r h = ground arith

waiting-guard :
    (t : PgTask) (g : String)
    → (not (is_waiting (review_task t).status) || not (is_text (E.gate_of (review_task t)) g))
      ≡ not (is_waiting t.row.status && is_text (gate_of_row t.row) g)
unfolding review_task
waiting-guard t g = elim (Bool-cases (is_waiting t.row.status)) [
  | inl h ↦ rw h refl
  | inr h ↦ rw h refl
]

-- A report has the same outcome in both stores: the same exception, or the same task, and stores
-- that show the same tasks after it; if the tasks that the tables show make a valid store and a
-- running task carries no error.
pub reports-Agree :
    (r : Report) (k : String) (now : ℕ) (s : EnterpriseStore) (d : Tables)
    → IsValid (with_tasks s d)
    → ((t : PgTask) → get k d ≡ some t → HasNoError t.row)
    → in_memory r k now (with_tasks s d) ≡ as_store s (in_postgres r k now d)
unfolding fail_task checkpoint_agent pause_task record_waiting_input complete_task E.fail_task
    E.checkpoint_agent E.pause_task E.record_waiting_input E.complete_task
reports-Agree (failure node c m e) k now s d v clean =
    update_one-change_task k (is_running_as e) (failed_row node c m now) _
      (E.failed_with node c m now) s d (λ t found. report-guard s d v k t e found)
      (λ t found h. failed-agrees s d v now k node c m t found (running_as-running e t.row h))
reports-Agree (checkpoint st e) k now s d v clean =
    update_one-change_task k (is_running_as e) (checkpointed_row st now) _ (E.checkpointed st now) s
      d (λ t found. checkpoint-guard s d v t e) (λ t found h. checkpointed-agrees s d v now st t)
reports-Agree (pause st e) k now s d v clean =
    update_one-change_task k (is_running_as e) (paused_row st now) _ (E.paused st now) s d
      (λ t found. report-guard s d v k t e found)
      (λ t found h. paused-agrees s d v now k st t found (running_as-running e t.row h))
reports-Agree (answer st g) k now s d v clean =
    update_one-change_task k (λ r. is_waiting r.status && is_text (gate_of_row r) g)
      (recorded_row st now) _ (E.recorded st now) s d (λ t found. waiting-guard t g)
      (λ t found h. recorded-agrees s d v now st t)
reports-Agree (completion r node e) k now s d v clean =
    update_one-change_task k (is_running_as e) (completed_row r node now) _ (E.completed r node now)
      s d (λ t found. report-guard s d v k t e found)
      (λ t found h.
        let runs = running_as-running e t.row h in
        let (c, m) = clean t found runs in completed-agrees s d v now k r node t found runs c m)
