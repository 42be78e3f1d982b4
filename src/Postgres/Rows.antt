-- ===== src/Postgres/Rows.antt =====
-- The rows of a review task in PostgreSQL (law_agent/review/enterprise_store.py).
use crosscomply_agent.Prelude.{
  ℕ, ◌≡◌, refl, String, Option, none, some, List, [], ◌∷◌, arith, option_map, Dict, get, put,
}
use crosscomply_agent.Workflow.{ReviewPayload}
use crosscomply_agent.Enterprise.Records.{
  TaskStatus, AgentStep, AgentState, TaskAttempt, ReviewTask, EnterpriseStore,
}

-- A row of `review_tasks`.
pub record TaskRow : Type 0 where
  pub id : String
  pub case_id : String
  pub material_snapshot_id : String
  pub intake_snapshot_id : String
  pub idempotency_key : String
  pub model_id : String
  pub data_boundary_summary_json : String
  pub status : TaskStatus
  pub current_node : Option String
  pub error_category : Option String
  pub error_message : Option String
  pub attempt_count : ℕ
  pub result_json : Option ReviewPayload
  pub agent_state_json : Option AgentState
  pub lease_expires_at : Option ℕ
  pub created_at : ℕ
  pub updated_at : ℕ

-- A task's row, its attempts in the order of `attempt_number`, and the steps that were logged.
pub record PgTask : Type 0 where
  pub row : TaskRow
  pub attempts : List TaskAttempt
  pub steps : List AgentStep

-- `(row.get("agent_state_json") or {}).get("steps", [])`
abbrev pub steps_of : Option AgentState → List AgentStep
steps_of none = []
steps_of (some state) = state.steps

-- `_review_task` over what `_load_attempts` returns.
unfoldable pub review_task : PgTask → ReviewTask
review_task t = record {
  id = t.row.id;
  case_id = t.row.case_id;
  material_snapshot_id = t.row.material_snapshot_id;
  intake_snapshot_id = t.row.intake_snapshot_id;
  idempotency_key = t.row.idempotency_key;
  model_id = t.row.model_id;
  data_boundary_summary = t.row.data_boundary_summary_json;
  status = t.row.status;
  current_node = t.row.current_node;
  error_category = t.row.error_category;
  error_message = t.row.error_message;
  attempt_count = t.row.attempt_count;
  result = t.row.result_json;
  agent_state = t.row.agent_state_json;
  steps = steps_of t.row.agent_state_json;
  attempts = t.attempts;
  lease_expires_at = t.row.lease_expires_at;
  created_at = t.row.created_at;
  updated_at = t.row.updated_at;
}

-- The tasks by their primary key.
abbrev pub Tables : Type 0
Tables = Dict PgTask

-- What the tables show of the tasks.
abbrev pub view : Tables → Dict ReviewTask
view [] = []
view ((k, t) ∷ d) = (k, review_task t) ∷ view d

pub get-view : (k : String) (d : Tables) → get k (view d) ≡ option_map review_task (get k d)
get-view k [] = refl
get-view k ((j, t) ∷ d) = ground (arith, get-view k d)

pub view-put :
    (k : String) (t : PgTask) (d : Tables) → view (put k t d) ≡ put k (review_task t) (view d)
view-put k t [] = refl
view-put k t ((j, u) ∷ d) = ground (arith, view-put k t d)

-- The store of the other component, with the tables' tasks in place of its own.
abbrev pub with_tasks : EnterpriseStore → Tables → EnterpriseStore
with_tasks s d = record s { tasks = view d }
