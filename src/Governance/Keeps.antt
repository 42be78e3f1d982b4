-- ===== src/Governance/Keeps.antt =====
-- What the methods of law_agent/review/governance_store.py leave alone: approvals are changed by
-- the methods on approvals only, deliveries by those on deliveries, reports by the one on reports.
use crosscomply_agent.Prelude.{ℕ, String, some, ◌≡◌, arith}
use crosscomply_agent.Governance.Records.{
  ApprovalDeliveryStatus, ReportRecord, ApprovalRecord, GovernanceStore,
}
use crosscomply_agent.Governance.Approvals.{
  EventReport, create_approval_record, approval_or_new, record_approval_event, repeat_event,
  first_event, repeat_or_first,
}
use crosscomply_agent.Governance.Deliveries.{
  enqueue_approval_delivery, delivery_or_new, begin_approval_attempt, fail_approval_delivery,
  succeed_approval_delivery, retry_approval_delivery, requeue_expired_approval_deliveries,
}
use crosscomply_agent.Governance.Reports.{create_report_record, report_or_new, validate_digest}
use crosscomply_agent.Governance.Events.{governance_after}

-- Nothing but the deliveries is changed.
abbrev pub KeepsAudit : GovernanceStore → GovernanceStore → Type 0
KeepsAudit s t =
    (t.approvals ≡ s.approvals)
    × (t.events ≡ s.events)
    × (t.event_by_provider_id ≡ s.event_by_provider_id)
    × (t.reports ≡ s.reports)

abbrev pub KeepsDeliveries : GovernanceStore → GovernanceStore → Type 0
KeepsDeliveries s t = t.approval_deliveries ≡ s.approval_deliveries

module _ (now : ℕ) (s : GovernanceStore) where
  pub enqueue-KeepsAudit :
      (c t key id : String)
      → KeepsAudit s (governance_after s (enqueue_approval_delivery c t key id now s))
  unfolding enqueue_approval_delivery delivery_or_new
  enqueue-KeepsAudit c t key id = ground arith

  pub begin-KeepsAudit :
      (k : String) (l : ℕ) → KeepsAudit s (governance_after s (begin_approval_attempt k l now s))
  unfolding begin_approval_attempt
  begin-KeepsAudit k l = ground arith

  pub fail-KeepsAudit :
      (k m : String) → KeepsAudit s (governance_after s (fail_approval_delivery k m now s))
  unfolding fail_approval_delivery
  fail-KeepsAudit k m = ground arith

  pub succeed-KeepsAudit :
      (k i : String) → KeepsAudit s (governance_after s (succeed_approval_delivery k i now s))
  unfolding succeed_approval_delivery
  succeed-KeepsAudit k i = ground arith

  pub retry-KeepsAudit :
      (k : String) → KeepsAudit s (governance_after s (retry_approval_delivery k now s))
  unfolding retry_approval_delivery
  retry-KeepsAudit k = ground arith

  pub requeue-KeepsAudit :
      (t : ApprovalDeliveryStatus)
      → KeepsAudit s (governance_after s (requeue_expired_approval_deliveries now t s))
  unfolding requeue_expired_approval_deliveries
  requeue-KeepsAudit t = ground arith

  pub approve-KeepsDeliveries :
      (c t i p pr id : String)
      → KeepsDeliveries s (governance_after s (create_approval_record c t i p pr id now s))
  unfolding create_approval_record approval_or_new
  approve-KeepsDeliveries c t i p pr id = ground arith

  pub report-KeepsDeliveries :
      (c a o d m id : String)
      → KeepsDeliveries s (governance_after s (create_report_record c a o d m id now s))
  unfolding create_report_record report_or_new validate_digest
  report-KeepsDeliveries c a o d m id = ground arith

  pub report-approvals :
      (c a o d m id : String)
      → (governance_after s (create_report_record c a o d m id now s)).approvals ≡ s.approvals
  unfolding create_report_record report_or_new validate_digest
  report-approvals c a o d m id = ground arith

  pub hear-KeepsDeliveries :
      (payload_hash : String → String) (r : EventReport) (id : String)
      → KeepsDeliveries s (governance_after s (record_approval_event payload_hash r id now s))
  unfolding record_approval_event repeat_or_first repeat_event first_event
  hear-KeepsDeliveries payload_hash r id = ground arith

  -- What is found, or refused, changes nothing.
  pub approval_or_new-found :
      (i : String) (new : ApprovalRecord) → governance_after s (approval_or_new (some i) new s) ≡ s
  unfolding approval_or_new
  approval_or_new-found i new = ground arith

  pub repeat_event-store :
      (r : EventReport) (sha id : String) → governance_after s (repeat_event r sha id s) ≡ s
  unfolding repeat_event
  repeat_event-store r sha id = ground arith

  pub approve-events :
      (c t i p pr id : String)
      → (governance_after s (create_approval_record c t i p pr id now s)).events ≡ s.events
  unfolding create_approval_record approval_or_new
  approve-events c t i p pr id = ground arith

  pub report-events :
      (c a o d m id : String)
      → (governance_after s (create_report_record c a o d m id now s)).events ≡ s.events
  unfolding create_report_record report_or_new validate_digest
  report-events c a o d m id = ground arith

pub report_or_new-found :
    (i : String) (new : ReportRecord) (s : GovernanceStore)
    → governance_after s (report_or_new (some i) new s) ≡ s
unfolding report_or_new
report_or_new-found i new s = ground arith
