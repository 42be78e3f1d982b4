-- ===== src/Enterprise/Records.antt =====
-- The records of law_agent/review/enterprise_store.py, and the state of the in-memory store.
--
-- A time is a number: the code compares the ISO texts of one clock in UTC, which are in the order
-- of their times. JSON that is only stored, copied and hashed is its text. What the store reads of
-- an agent's state and of a result is written out; the rest of an agent's state is `content`.
use crosscomply_agent.Prelude.{ℕ, String, Option, List, [], Dict, PairDict}
use crosscomply_agent.Workflow.{ReviewPayload}

pub data ParseStatus : Type 0 where
  pending parsing ready failed : ParseStatus

pub data TaskStatus : Type 0 where
  queued running waiting_input succeeded failed superseded : TaskStatus

pub data AttemptStatus : Type 0 where
  running waiting_input succeeded failed superseded : AttemptStatus

pub record MaterialVersion : Type 0 where
  pub id : String
  pub material_id : String
  pub case_id : String
  pub logical_name : String
  pub version_number : ℕ
  pub filename : String
  pub content_type : String
  pub object_key : String
  pub sha256 : String
  pub byte_size : ℕ
  pub uploaded_by : String
  pub parse_status : ParseStatus
  pub parser : Option String
  pub parser_version : Option String
  pub parsed_text : Option String
  pub created_at : ℕ

pub record MaterialSnapshot : Type 0 where
  pub id : String
  pub case_id : String
  pub fingerprint : String
  pub version_ids : List String
  pub created_by : String
  pub created_at : ℕ

pub record IntakeSnapshot : Type 0 where
  pub id : String
  pub case_id : String
  pub material_snapshot_id : String
  pub fingerprint : String
  pub intake : String
  pub created_by : String
  pub created_at : ℕ

pub record AgentStep : Type 0 where
  pub number : ℕ
  pub action : String
  pub summary : String
  pub observation : String

pub record AgentState : Type 0 where
  pub gate_id : Option String
  pub steps : List AgentStep
  pub content : String

pub record TaskAttempt : Type 0 where
  pub attempt_number : ℕ
  pub worker_id : String
  pub status : AttemptStatus
  pub failed_node : Option String
  pub error_category : Option String
  pub error_message : Option String
  pub started_at : ℕ
  pub finished_at : Option ℕ

pub record ReviewTask : Type 0 where
  pub id : String
  pub case_id : String
  pub material_snapshot_id : String
  pub intake_snapshot_id : String
  pub idempotency_key : String
  pub model_id : String
  pub data_boundary_summary : String
  pub status : TaskStatus
  pub current_node : Option String
  pub error_category : Option String
  pub error_message : Option String
  pub attempt_count : ℕ
  pub result : Option ReviewPayload
  pub agent_state : Option AgentState
  pub steps : List AgentStep
  pub attempts : List TaskAttempt
  pub lease_expires_at : Option ℕ
  pub created_at : ℕ
  pub updated_at : ℕ

-- The attributes of `InMemoryEnterpriseStore` but its lock: an operation is one atomic step.
pub record EnterpriseStore : Type 0 where
  pub material_versions : Dict MaterialVersion
  pub material_ids : PairDict String
  pub snapshots : Dict MaterialSnapshot
  pub snapshot_by_fingerprint : PairDict String
  pub intake_snapshots : Dict IntakeSnapshot
  pub tasks : Dict ReviewTask
  pub task_by_key : Dict String

-- `InMemoryEnterpriseStore()`
abbrev pub empty_store : EnterpriseStore
empty_store = record {
  material_versions = [];
  material_ids = [];
  snapshots = [];
  snapshot_by_fingerprint = [];
  intake_snapshots = [];
  tasks = [];
  task_by_key = [];
}

-- What the store hashes: `_canonical_hash` is SHA-256 over the canonical text of one of these.
pub data HashInput : Type 0 where
  versions : List (String × String) → HashInput
  intake : (material intake : String) (confirmation_ref : Option String) → HashInput
  task :
      (case_id material_snapshot_id intake_snapshot_id model_id data_boundary_summary : String)
      → HashInput
