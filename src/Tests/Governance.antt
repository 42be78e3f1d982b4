-- ===== src/Tests/Governance.antt =====
-- The store of approvals on concrete inputs (law_agent/review/governance_store.py).
use crosscomply_agent.Prelude.{String, true, false, none, some, ◌≡◌, refl, get, ok, ◌↔◌, ◌==◌}
use crosscomply_agent.Governance.Records.{
  ApprovalStatus, TerminalApprovalStatus, ApprovalRecord, ApprovalDelivery, ApprovalDeliveryStatus,
  ApprovalEventReceipt, GovernanceStore, empty_governance,
}
use crosscomply_agent.Governance.Approvals.{
  EventReport, create_approval_record, approval_or_new, record_approval_event, repeat_event,
  first_event, repeat_or_first, decided, validate_transition,
}
use crosscomply_agent.Governance.Deliveries.{
  enqueue_approval_delivery, delivery_or_new, begin_approval_attempt, fail_approval_delivery,
  succeed_approval_delivery, retry_approval_delivery, requeue_expired_approval_deliveries, begun,
  delivery_failed, delivered, delivery_retried, recovered,
}
use crosscomply_agent.Governance.Reports.{
  create_report_record, report_or_new, validate_digest, lower,
}
use crosscomply_agent.Governance.Events.{Event, happen, Run, start, next}
use crosscomply_agent.Governance.Decisions.{decided_approval_is_kept}
use crosscomply_agent.Governance.Audit.{IsAudited, Run-IsAudited}
use crosscomply_agent.Governance.Repeats.{record_approval_event_idem}
use crosscomply_agent.Governance.Lives.Final.{
  succeeded_delivery_is_kept, succeed_approval_delivery_iff, IsLeased,
}
use crosscomply_agent.Governance.Lives.Sound.{AreSound, Run-AreSound}
use crosscomply_agent.Governance.Bound.{AreBound, Run-AreBound}

governance : Unit {0}
unfolding happen create_approval_record approval_or_new record_approval_event repeat_event
    first_event repeat_or_first decided validate_transition enqueue_approval_delivery
    delivery_or_new begin_approval_attempt fail_approval_delivery succeed_approval_delivery
    retry_approval_delivery requeue_expired_approval_deliveries begun delivery_failed delivered
    delivery_retried recovered create_report_record report_or_new validate_digest lower
governance = tt

-- A stand-in for SHA-256.
abbrev hash : String → String
hash s = s

abbrev signed_approval : EventReport
signed_approval = record {
  approval_id = "a1";
  provider_event_id = "e1";
  event_type = "approval.updated";
  signature_valid = true;
  payload = "{}";
  target_status = some TerminalApprovalStatus.approved;
  approver_name = some "bob";
  decided_at = some "2026-11-26";
}

-- The same claim, with a bad signature.
abbrev forged : EventReport
forged = record signed_approval {
  provider_event_id = "e2";
  signature_valid = false;
  target_status = some TerminalApprovalStatus.rejected;
}

abbrev sha : String
sha = "ABCDEF0123456789abcdef0123456789abcdef0123456789abcdef0123456789"

abbrev asked : GovernanceStore
asked = happen hash 1 (Event.approve "case" "t1" "i1" "{}" "feishu" "a1") empty_governance

abbrev settled : GovernanceStore
settled =
    happen hash 3 (Event.hear signed_approval "v1") (happen hash 2 (Event.hear forged "v2") asked)

abbrev reported : GovernanceStore
reported = happen hash 4 (Event.report "case" "a1" "report.pdf" sha "{}" "r1") settled

abbrev approval_run : Run hash empty_governance reported
unfolding governance
approval_run =
    next
      (next
        (next (next start 1 (Event.approve "case" "t1" "i1" "{}" "feishu" "a1") refl refl) 2
          (Event.hear forged "v2") refl refl)
        3 (Event.hear signed_approval "v1") refl refl)
      4 (Event.report "case" "a1" "report.pdf" sha "{}" "r1") refl refl

abbrev approval_at : String → GovernanceStore → ApprovalRecord
approval_at k s = elim (get k s.approvals) [
  | some a ↦ a
  | none ↦ record {
    id = "";
    case_id = "";
    task_id = "";
    provider = "";
    instance_id = "";
    status = ApprovalStatus.pending;
    approver_name = none;
    decided_at = none;
    payload = "";
    created_at = 0;
    updated_at = 0;
  }
]

-- The forged event does not decide, the signed one does.
outcomes :
    ((approval_at "a1" (happen hash 2 (Event.hear forged "v2") asked)).status
      ≡ ApprovalStatus.pending)
    × ((approval_at "a1" settled).status ≡ ApprovalStatus.approved)
unfolding governance
outcomes = (refl, refl)

abbrev queued : GovernanceStore
queued = happen hash 1 (Event.deliver "case" "t1" "key" "d1") empty_governance

abbrev sending : GovernanceStore
sending = happen hash 2 (Event.begin "d1" 60) queued

abbrev sent : GovernanceStore
sent = happen hash 3 (Event.succeed "d1" "i1") sending

abbrev delivery_at : String → GovernanceStore → ApprovalDelivery
delivery_at k s = elim (get k s.approval_deliveries) [
  | some d ↦ d
  | none ↦ record {
    id = "";
    case_id = "";
    task_id = "";
    idempotency_key = "";
    status = ApprovalDeliveryStatus.queued;
    attempt_count = 0;
    instance_id = none;
    error_message = none;
    lease_expires_at = none;
    created_at = 0;
    updated_at = 0;
  }
]

Run-IsAudited_example : IsAudited reported
unfolding governance
Run-IsAudited_example = Run-IsAudited hash approval_run

Run-AreBound_example : AreBound reported
unfolding governance
Run-AreBound_example = Run-AreBound hash approval_run

decided_approval_is_kept_example :
    get "a1"
      (happen hash 9
        (Event.hear
          (record signed_approval {
            provider_event_id = "e3";
            target_status = some TerminalApprovalStatus.withdrawn;
          })
          "v3")
        settled).approvals
    ≡ some (approval_at "a1" settled)
unfolding governance
decided_approval_is_kept_example =
    decided_approval_is_kept hash {s = settled} "a1" (approval_at "a1" settled) (refl, tt) refl refl
      (next start 9
        (Event.hear
          (record signed_approval {
            provider_event_id = "e3";
            target_status = some TerminalApprovalStatus.withdrawn;
          })
          "v3")
        refl refl)

abbrev receipt : ApprovalEventReceipt
receipt = record {
  event = record {
    id = "v1";
    approval_id = "a1";
    provider_event_id = "e1";
    event_type = "approval.updated";
    signature_valid = true;
    payload_sha256 = "{}";
    payload = "{}";
    created_at = 3;
  };
  approval = approval_at "a1" settled;
  duplicate = false;
}

record_approval_event_idem_example :
    record_approval_event hash signed_approval "v9" 9 settled
    ≡ ok (record receipt { duplicate = true }, settled)
unfolding governance
record_approval_event_idem_example =
    record_approval_event_idem hash signed_approval "v1" "v9" 3 9
      (happen hash 2 (Event.hear forged "v2") asked) settled receipt (refl, tt) refl

Run-AreSound_example : AreSound sent
unfolding governance
Run-AreSound_example = Run-AreSound hash (
    next
      (next (next start 1 (Event.deliver "case" "t1" "key" "d1") refl refl) 2 (Event.begin "d1" 60)
        tt refl)
      3 (Event.succeed "d1" "i1") tt refl)

succeeded_delivery_is_kept_example :
    get "d1" (happen hash 99 (Event.requeue ApprovalDeliveryStatus.failed) sent).approval_deliveries
    ≡ some (delivery_at "d1" sent)
unfolding governance
succeeded_delivery_is_kept_example =
    succeeded_delivery_is_kept hash {s = sent} "d1" (delivery_at "d1" sent) refl refl
      (next start 99 (Event.requeue ApprovalDeliveryStatus.failed) tt refl)

succeed_approval_delivery_iff_example :
    ((u : ApprovalDelivery) × (s' : GovernanceStore) × (succeed_approval_delivery "d1" "i1" 3
          sending
        ≡ ok (u, s'))
      × (get "d1" s'.approval_deliveries ≡ some u)
      × (u.status ≡ ApprovalDeliveryStatus.succeeded)
      × (u.instance_id ≡ some "i1"))
    ↔ ((("i1" == "") ≡ false) × IsLeased 3 (delivery_at "d1" sending))
unfolding governance
succeed_approval_delivery_iff_example =
    succeed_approval_delivery_iff "d1" "i1" 3 sending (delivery_at "d1" sending) refl
