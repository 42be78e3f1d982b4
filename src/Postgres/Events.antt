-- ===== src/Postgres/Events.antt =====
-- The transactions on the queue in PostgreSQL, and what they make of the tables when they follow one
-- another (law_agent/review/enterprise_store.py).
use crosscomply_agent.Prelude.{
  ℕ, suc, String, Bool, true, false, Option, List, [], ◌∷◌, Dict, Result, ok, err, if◌then◌else◌,
}
use crosscomply_agent.Workflow.{ReviewPayload}
use crosscomply_agent.Enterprise.Records.{AgentState, ReviewTask, IntakeSnapshot, HashInput}
use crosscomply_agent.Postgres.Rows.{TaskRow, Tables}
use crosscomply_agent.Postgres.Reports.{
  fail_task, checkpoint_agent, pause_task, record_waiting_input, complete_task,
}
use crosscomply_agent.Postgres.Queue.{requeue_expired_tasks, claim_next_task}
use crosscomply_agent.Postgres.Requests.{
  enqueue_review_task, resume_task, retry_task, supersede_waiting_tasks,
}

-- What a worker, or a person who answers, reports of a task.
pub data Report : Type 0 where
  failure : (failed_node error_category error_message : String) → Option ℕ → Report
  checkpoint : AgentState → Option ℕ → Report
  pause : AgentState → Option ℕ → Report
  answer : AgentState → (gate_id : String) → Report
  completion : ReviewPayload → (final_node : String) → Option ℕ → Report

abbrev pub in_postgres : Report → String → ℕ → Tables → Result (ReviewTask × Tables)
in_postgres (failure node c m e) k now = fail_task k node c m e now
in_postgres (checkpoint st e) k now = checkpoint_agent k st e now
in_postgres (pause st e) k now = pause_task k st e now
in_postgres (answer st g) k now = record_waiting_input k st g now
in_postgres (completion r node e) k now = complete_task k r node e now

-- A transaction on the queue.
pub data Event : Type 0 where
  enqueue :
      (case_id material_snapshot_id intake_snapshot_id model_id boundary new_id : String) → Event
  requeue : Event
  claim : (is_locked : TaskRow → Bool) (worker_id : String) (lease_seconds : ℕ) → Event
  report : Report → (task_id : String) → Event
  resume : (task_id : String) → AgentState → Event
  retry : (task_id : String) → Event
  supersede : (case_id : String) → Event

-- A transaction that raises is rolled back.
abbrev pub tables_after : Tables → Result (ReviewTask × Tables) → Tables
tables_after d (ok (t, d')) = d'
tables_after d (err e) = d

-- A person lets a task run once more.
abbrev pub is_release : Event → Bool
is_release (resume k st) = true
is_release (retry k) = true
is_release _ = false

-- How many of the transactions answer or retry a task.
abbrev pub releases : List (ℕ × Event) → ℕ
releases [] = 0
releases ((now, e) ∷ es) = let n = releases es in if is_release e then suc n else n

module _ (precedes : String → String → Bool) (canonical_hash : HashInput → String)
    (has_case : String → Bool) (intake_snapshots : Dict IntakeSnapshot) where
  unfoldable pub happen : ℕ → Event → Tables → Tables
  happen now (enqueue c m i model b id) d =
      tables_after d
        (enqueue_review_task canonical_hash has_case intake_snapshots c m i model b id now d)
  happen now requeue d = (requeue_expired_tasks now d).1
  happen now (claim is_locked w l) d = (claim_next_task precedes is_locked w l now d).1
  happen now (report r k) d = tables_after d (in_postgres r k now d)
  happen now (resume k st) d = tables_after d (resume_task k st now d)
  happen now (retry k) d = tables_after d (retry_task k now d)
  happen now (supersede c) d = (supersede_waiting_tasks c now d).1

  -- One transaction after the other, each at its time.
  abbrev pub run : List (ℕ × Event) → Tables → Tables
  run [] d = d
  run ((now, e) ∷ es) d = run es (happen now e d)
