-- ===== src/Governance/Records.antt =====
-- The records of law_agent/review/governance_store.py and the attributes of its store.
use crosscomply_agent.Prelude.{ℕ, String, Bool, Option, [], Dict}

pub data ApprovalStatus : Type 0 where
  pending approved conditionally_approved rejected withdrawn : ApprovalStatus

pub data TerminalApprovalStatus : Type 0 where
  approved conditionally_approved rejected withdrawn : TerminalApprovalStatus

pub data ApprovalDeliveryStatus : Type 0 where
  queued running failed succeeded : ApprovalDeliveryStatus

-- A payload is the JSON value that `_json_copy` keeps, as a text.
pub record ApprovalRecord : Type 0 where
  pub id : String
  pub case_id : String
  pub task_id : String
  pub provider : String
  pub instance_id : String
  pub status : ApprovalStatus
  pub approver_name : Option String
  pub decided_at : Option String
  pub payload : String
  pub created_at : ℕ
  pub updated_at : ℕ

pub record ApprovalEvent : Type 0 where
  pub id : String
  pub approval_id : String
  pub provider_event_id : String
  pub event_type : String
  pub signature_valid : Bool
  pub payload_sha256 : String
  pub payload : String
  pub created_at : ℕ

pub record ApprovalEventReceipt : Type 0 where
  pub event : ApprovalEvent
  pub approval : ApprovalRecord
  pub duplicate : Bool

pub record ReportRecord : Type 0 where
  pub id : String
  pub case_id : String
  pub approval_id : String
  pub object_key : String
  pub sha256 : String
  pub metadata : String
  pub created_at : ℕ

pub record ApprovalDelivery : Type 0 where
  pub id : String
  pub case_id : String
  pub task_id : String
  pub idempotency_key : String
  pub status : ApprovalDeliveryStatus
  pub attempt_count : ℕ
  pub instance_id : Option String
  pub error_message : Option String
  pub lease_expires_at : Option ℕ
  pub created_at : ℕ
  pub updated_at : ℕ

-- The attributes of `InMemoryGovernanceStore` but its lock and its clock.
pub record GovernanceStore : Type 0 where
  pub approvals : Dict ApprovalRecord
  pub approval_by_instance : Dict String
  pub events : Dict ApprovalEvent
  pub event_by_provider_id : Dict String
  pub reports : Dict ReportRecord
  pub report_by_object_key : Dict String
  pub approval_deliveries : Dict ApprovalDelivery
  pub delivery_by_key : Dict String

-- `InMemoryGovernanceStore()`
abbrev pub empty_governance : GovernanceStore
empty_governance = record {
  approvals = [];
  approval_by_instance = [];
  events = [];
  event_by_provider_id = [];
  reports = [];
  report_by_object_key = [];
  approval_deliveries = [];
  delivery_by_key = [];
}
