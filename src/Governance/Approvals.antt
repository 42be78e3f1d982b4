-- ===== src/Governance/Approvals.antt =====
-- Approvals and the events that decide them, in law_agent/review/governance_store.py.
use crosscomply_agent.Prelude.{
  ℕ, String, Bool, true, false, not, ◌&&◌, ◌||◌, Option, none, some, ◌==◌, ◌!=◌, nat_eq, get, put,
  item, values, select, get_last?, Result, ok, value_error, raise_if, ◌>>=◌, ◌>>◌, if◌then◌else◌,
}
use crosscomply_agent.Governance.Records.{
  ApprovalStatus, TerminalApprovalStatus, ApprovalRecord, ApprovalEvent, ApprovalEventReceipt,
  GovernanceStore,
}

-- The text of a terminal status is the text of a status.
abbrev pub status_of : TerminalApprovalStatus → ApprovalStatus
status_of TerminalApprovalStatus.approved = ApprovalStatus.approved
status_of TerminalApprovalStatus.conditionally_approved = ApprovalStatus.conditionally_approved
status_of TerminalApprovalStatus.rejected = ApprovalStatus.rejected
status_of TerminalApprovalStatus.withdrawn = ApprovalStatus.withdrawn

abbrev pub approval_status_index : ApprovalStatus → ℕ
approval_status_index ApprovalStatus.pending = 0
approval_status_index ApprovalStatus.approved = 1
approval_status_index ApprovalStatus.conditionally_approved = 2
approval_status_index ApprovalStatus.rejected = 3
approval_status_index ApprovalStatus.withdrawn = 4

-- `==` on two statuses.
abbrev pub approval_status_eq : ApprovalStatus → ApprovalStatus → Bool
approval_status_eq s t = nat_eq (approval_status_index s) (approval_status_index t)

-- `current in _TERMINAL_STATUSES`
abbrev pub is_terminal : ApprovalStatus → Bool
is_terminal ApprovalStatus.pending = false
is_terminal _ = true

abbrev pub is_pending : ApprovalStatus → Bool
is_pending s = approval_status_eq s ApprovalStatus.pending

unfoldable pub validate_transition : ApprovalStatus → TerminalApprovalStatus → Result (Unit {0})
validate_transition current target = do
  raise_if (is_terminal current && not (approval_status_eq current (status_of target))) value_error
  raise_if (not (is_pending current) && not (approval_status_eq current (status_of target)))
      value_error

-- What is stored of an approval already differs from what is asked for.
abbrev pub is_other_approval : (case_id task_id provider payload : String) → ApprovalRecord → Bool
is_other_approval case_id task_id provider payload r =
    r.case_id != case_id || r.task_id != task_id || r.provider != provider || r.payload != payload

-- The approval that stands for the instance already, or the new one.
unfoldable pub approval_or_new :
    Option String → ApprovalRecord → GovernanceStore → Result (ApprovalRecord × GovernanceStore)
approval_or_new (some existing_id) new s = do
  existing ← item existing_id s.approvals
  raise_if (is_other_approval new.case_id new.task_id new.provider new.payload existing) value_error
  ok (existing, s)
approval_or_new none new s = ok (
  new,
  record s {
    approvals = put new.id new s.approvals;
    approval_by_instance = put new.instance_id new.id s.approval_by_instance;
  },
)

-- `payload` is the JSON text of `payload or {}`.
unfoldable pub create_approval_record :
    (case_id task_id instance_id payload provider new_id : String) (now : ℕ)
    → GovernanceStore
    → Result (ApprovalRecord × GovernanceStore)
create_approval_record case_id task_id instance_id payload provider new_id now s =
    approval_or_new (get instance_id s.approval_by_instance)
      (record {
        id = new_id;
        case_id = case_id;
        task_id = task_id;
        provider = provider;
        instance_id = instance_id;
        status = ApprovalStatus.pending;
        approver_name = none;
        decided_at = none;
        payload = payload;
        created_at = now;
        updated_at = now;
      })
      s

unfoldable pub get_approval : String → GovernanceStore → Option ApprovalRecord
get_approval approval_id s = get approval_id s.approvals

-- `self.approvals.get(approval_id) if approval_id else None`
unfoldable pub get_approval_by_instance : String → GovernanceStore → Option ApprovalRecord
get_approval_by_instance instance_id s = elim (get instance_id s.approval_by_instance) [
  | none ↦ none
  | some approval_id ↦ if approval_id == "" then none else get approval_id s.approvals
]

unfoldable pub get_latest_approval : String → GovernanceStore → Option ApprovalRecord
get_latest_approval case_id s = get_last? (select (λ r. r.case_id == case_id) (values s.approvals))

-- What a caller reports of one event of the approval platform.
pub record EventReport : Type 0 where
  pub approval_id : String
  pub provider_event_id : String
  pub event_type : String
  pub signature_valid : Bool
  pub payload : String
  pub target_status : Option TerminalApprovalStatus
  pub approver_name : Option String
  pub decided_at : Option String

abbrev pub bool_eq : Bool → Bool → Bool
bool_eq true b = b
bool_eq false b = not b

-- The test of `_check_duplicate_event`.
abbrev pub is_other_event : EventReport → (payload_sha256 : String) → ApprovalEvent → Bool
is_other_event report payload_sha256 event =
    event.approval_id != report.approval_id
    || event.event_type != report.event_type
    || not (bool_eq event.signature_valid report.signature_valid)
    || event.payload_sha256 != payload_sha256

-- The status that a report sets: only one that is signed and names a status sets any.
abbrev pub target_of : EventReport → Option TerminalApprovalStatus
target_of report = if report.signature_valid then report.target_status else none

abbrev pub check_target : Option TerminalApprovalStatus → ApprovalStatus → Result (Unit {0})
check_target none current = ok tt
check_target (some target) current = validate_transition current target

-- The approval as the event leaves it.
unfoldable pub decided :
    EventReport → ℕ → Option TerminalApprovalStatus → ApprovalRecord → ApprovalRecord
decided report now none approval = approval
decided report now (some target) approval =
    if approval_status_eq approval.status (status_of target) then approval else record approval {
      status = status_of target;
      approver_name = report.approver_name;
      decided_at = report.decided_at;
      updated_at = now;
    }

-- The approval is written back only where it is a new object.
abbrev pub is_redecided : Option TerminalApprovalStatus → ApprovalRecord → Bool
is_redecided none approval = false
is_redecided (some target) approval = not (approval_status_eq approval.status (status_of target))

-- An event that came before: it is compared, and nothing changes.
unfoldable pub repeat_event :
    EventReport
    → (payload_sha256 existing_event_id : String) → GovernanceStore
    → Result (ApprovalEventReceipt × GovernanceStore)
repeat_event report payload_sha256 existing_event_id s = do
  event ← item existing_event_id s.events
  raise_if (is_other_event report payload_sha256 event) value_error
  approval ← item event.approval_id s.approvals
  ok (record { event = event; approval = approval; duplicate = true }, s)

-- An event that is new: it is checked, put on record, and decides the approval.
unfoldable pub first_event :
    EventReport
    → (payload_sha256 new_id : String) (now : ℕ) → GovernanceStore
    → Result (ApprovalEventReceipt × GovernanceStore)
first_event report payload_sha256 new_id now s = do
  approval ← item report.approval_id s.approvals
  check_target (target_of report) approval.status
  let event : ApprovalEvent = record {
    id = new_id;
    approval_id = report.approval_id;
    provider_event_id = report.provider_event_id;
    event_type = report.event_type;
    signature_valid = report.signature_valid;
    payload_sha256 = payload_sha256;
    payload = report.payload;
    created_at = now;
  }
  let after = decided report now (target_of report) approval
  ok (
    record { event = event; approval = after; duplicate = false },
    record s {
      events = put new_id event s.events;
      event_by_provider_id = put report.provider_event_id new_id s.event_by_provider_id;
      approvals =
          if is_redecided (target_of report) approval
          then put after.id after s.approvals
          else s.approvals;
    },
  )

-- By what `event_by_provider_id` has under the platform's identifier.
unfoldable pub repeat_or_first :
    Option String
    → EventReport
    → (payload_sha256 new_id : String) (now : ℕ) → GovernanceStore
    → Result (ApprovalEventReceipt × GovernanceStore)
repeat_or_first (some existing_event_id) report sha new_id now s =
    repeat_event report sha existing_event_id s
repeat_or_first none report sha new_id now s = first_event report sha new_id now s

module _ (payload_hash : String → String) where
  unfoldable pub record_approval_event :
      EventReport
      → (new_id : String) (now : ℕ) → GovernanceStore
      → Result (ApprovalEventReceipt × GovernanceStore)
  record_approval_event report new_id now s =
      repeat_or_first (get report.provider_event_id s.event_by_provider_id) report
        (payload_hash report.payload) new_id now s
