-- ===== src/Postgres/Requests.antt =====
-- The requests that reach the queue in PostgreSQL from a case (law_agent/review/enterprise_store.py):
-- a task is enqueued, answered, retried and closed.
use text.Mathlib.Text.{is_lt}
use Prim.Native.String.{compare}
use crosscomply_agent.Prelude.{
  ℕ, String, Bool, not, ◌&&◌, none, some, List, [], ◌∷◌, map, ◌==◌, ◌!=◌, any, select, Dict, get,
  put, values, Result, ok, err, value_error, unique_violation, raise_if, ◌>>◌, if◌then◌else◌,
}
use crosscomply_agent.Prelude.Sort.{sorted}
use crosscomply_agent.Enterprise.Records.{
  TaskStatus, AttemptStatus, AgentState, ReviewTask, IntakeSnapshot, HashInput,
}
use crosscomply_agent.Enterprise.Tasks.{is_waiting, is_failed, is_active, is_paused, is_foreign}
use crosscomply_agent.Enterprise.Outcomes.{is_restart, close_attempt}
use crosscomply_agent.Postgres.Rows.{TaskRow, PgTask, review_task, Tables}
use crosscomply_agent.Postgres.Reports.{update_one}
use crosscomply_agent.Postgres.Queue.{update_where}

abbrev pub new_row :
    (case_id material_snapshot_id intake_snapshot_id model_id data_boundary_summary key
      new_id : String)
    (now : ℕ)
    → PgTask
new_row case_id material_snapshot_id intake_snapshot_id model_id data_boundary_summary key new_id
      now =
    record {
      row = record {
        id = new_id;
        case_id = case_id;
        material_snapshot_id = material_snapshot_id;
        intake_snapshot_id = intake_snapshot_id;
        idempotency_key = key;
        model_id = model_id;
        data_boundary_summary_json = data_boundary_summary;
        status = TaskStatus.queued;
        current_node = none;
        error_category = none;
        error_message = none;
        attempt_count = 0;
        result_json = none;
        agent_state_json = none;
        lease_expires_at = none;
        created_at = now;
        updated_at = now;
      };
      attempts = [];
      steps = [];
    }

-- `INSERT … ON CONFLICT (idempotency_key) DO UPDATE … RETURNING *`
abbrev pub insert_or_same : PgTask → Tables → ReviewTask × Tables
insert_or_same new d =
    elim (select (λ t. t.row.idempotency_key == new.row.idempotency_key) (values d)) [
      | [] ↦ (review_task new, put new.row.id new d)
      | t ∷ _ ↦ (review_task t, d)
    ]

-- An active task of the case whose inputs are others.
abbrev pub is_other_active : (case_id key : String) → PgTask → Bool
is_other_active case_id key t =
    t.row.case_id == case_id && is_active t.row.status && t.row.idempotency_key != key

-- `has_case` and `intake_snapshots` are two other tables.
module _ (canonical_hash : HashInput → String) (has_case : String → Bool)
    (intake_snapshots : Dict IntakeSnapshot) where
  unfoldable pub enqueue_review_task :
      (case_id material_snapshot_id intake_snapshot_id model_id data_boundary_summary
        new_id : String)
      (now : ℕ)
      → Tables
      → Result (ReviewTask × Tables)
  enqueue_review_task case_id material_snapshot_id intake_snapshot_id model_id data_boundary_summary
        new_id now d =
      do
        let key = canonical_hash (
            HashInput.task case_id material_snapshot_id intake_snapshot_id model_id
              data_boundary_summary)
        raise_if (not (has_case case_id)) value_error
        raise_if (is_foreign case_id material_snapshot_id (get intake_snapshot_id intake_snapshots))
            value_error
        raise_if (any (is_other_active case_id key) (values d)) value_error
        ok (
            insert_or_same
              (new_row case_id material_snapshot_id intake_snapshot_id model_id
                data_boundary_summary key new_id now)
              d)

unfoldable pub resumed_row : AgentState → ℕ → PgTask → PgTask
resumed_row state now t = record t {
  row = record t.row {
    status = TaskStatus.queued;
    agent_state_json = some state;
    current_node = some "human_input";
    updated_at = now;
  };
}

unfoldable pub resume_task :
    (task_id : String) (state : AgentState) (now : ℕ) → Tables → Result (ReviewTask × Tables)
resume_task task_id state now =
    update_one task_id (λ r. is_waiting r.status) (resumed_row state now)

unfoldable pub retried_row : ℕ → PgTask → PgTask
retried_row now t = record t {
  row = record t.row {
    status = TaskStatus.queued;
    lease_expires_at = none;
    agent_state_json = none;
    current_node = none;
    updated_at = now;
  };
}

-- Another task of the case stands in the index `review_tasks_one_active_per_case_uq`.
abbrev pub has_active_sibling : PgTask → Tables → Bool
has_active_sibling t d =
    any (λ u. u.row.id != t.row.id && u.row.case_id == t.row.case_id && is_active u.row.status)
      (values d)

-- An unknown task is refused as one that cannot be retried is.
unfoldable pub retry_task : (task_id : String) (now : ℕ) → Tables → Result (ReviewTask × Tables)
retry_task task_id now d = elim (get task_id d) [
  | none ↦ err value_error
  | some t ↦ do
    raise_if (not (is_failed t.row.status) && not (is_restart (review_task t))) value_error
    raise_if (has_active_sibling t d) unique_violation
    ok (review_task (retried_row now t), put task_id (retried_row now t) d)
]

abbrev pub is_stale_question : String → TaskRow → Bool
is_stale_question case_id r = r.case_id == case_id && is_waiting r.status

unfoldable pub superseded_row : ℕ → PgTask → PgTask
superseded_row now t = record t {
  row = record t.row {
    status = TaskStatus.superseded;
    lease_expires_at = none;
    current_node = some "superseded";
    updated_at = now;
  };
  attempts =
      map (λ a. if is_paused a.status then close_attempt AttemptStatus.superseded now a else a)
        t.attempts;
}

-- The identifiers of the tasks that were closed, sorted.
unfoldable pub supersede_waiting_tasks : String → ℕ → Tables → List String × Tables
supersede_waiting_tasks case_id now d = (
  sorted (λ i j. is_lt (compare i j))
      (map (λ t. t.row.id) (select (λ t. is_stale_question case_id t.row) (values d))),
  update_where (is_stale_question case_id) (superseded_row now) d,
)
