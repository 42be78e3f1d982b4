-- ===== src/Governance/Deliveries.antt =====
-- Deliveries of approval requests to the platform, in law_agent/review/governance_store.py.
-- The two clocks that the methods read, `self._clock()` and `utc_now()`, are one argument.
use crosscomply_agent.Prelude.{
  ℕ, ◌+◌, String, Bool, true, false, not, ◌&&◌, ◌||◌, Option, none, some, List, map, ◌==◌, ◌!=◌,
  get, put, item, values, map_values, select, Result, ok, value_error, raise_if, ◌>>=◌, ◌>>◌,
  if◌then◌else◌, leb, nat_eq,
}
use crosscomply_agent.Governance.Records.{ApprovalDeliveryStatus, ApprovalDelivery, GovernanceStore}

abbrev pub is_queued_delivery : ApprovalDeliveryStatus → Bool
is_queued_delivery ApprovalDeliveryStatus.queued = true
is_queued_delivery _ = false

abbrev pub is_running_delivery : ApprovalDeliveryStatus → Bool
is_running_delivery ApprovalDeliveryStatus.running = true
is_running_delivery _ = false

abbrev pub is_failed_delivery : ApprovalDeliveryStatus → Bool
is_failed_delivery ApprovalDeliveryStatus.failed = true
is_failed_delivery _ = false

-- The delivery that stands under the key already, or the new one.
unfoldable pub delivery_or_new :
    Option String → ApprovalDelivery → GovernanceStore → Result (ApprovalDelivery × GovernanceStore)
delivery_or_new (some existing_id) new s = do
  existing ← item existing_id s.approval_deliveries
  raise_if (existing.case_id != new.case_id || existing.task_id != new.task_id) value_error
  ok (existing, s)
delivery_or_new none new s = ok (
  new,
  record s {
    approval_deliveries = put new.id new s.approval_deliveries;
    delivery_by_key = put new.idempotency_key new.id s.delivery_by_key;
  },
)

unfoldable pub enqueue_approval_delivery :
    (case_id task_id idempotency_key new_id : String) (now : ℕ)
    → GovernanceStore
    → Result (ApprovalDelivery × GovernanceStore)
enqueue_approval_delivery case_id task_id idempotency_key new_id now s = do
  raise_if (idempotency_key == "") value_error
  delivery_or_new (get idempotency_key s.delivery_by_key)
      (record {
        id = new_id;
        case_id = case_id;
        task_id = task_id;
        idempotency_key = idempotency_key;
        status = ApprovalDeliveryStatus.queued;
        attempt_count = 0;
        instance_id = none;
        error_message = none;
        lease_expires_at = none;
        created_at = now;
        updated_at = now;
      })
      s

unfoldable pub get_approval_delivery : String → GovernanceStore → Option ApprovalDelivery
get_approval_delivery delivery_id s = get delivery_id s.approval_deliveries

-- `self.approval_deliveries[delivery_id] = updated`, which is returned.
abbrev pub save_delivery :
    String → ApprovalDelivery → GovernanceStore → ApprovalDelivery × GovernanceStore
save_delivery k d s = (d, record s { approval_deliveries = put k d s.approval_deliveries })

unfoldable pub begun : (lease_seconds now : ℕ) → ApprovalDelivery → ApprovalDelivery
begun lease_seconds now d = record d {
  status = ApprovalDeliveryStatus.running;
  attempt_count = d.attempt_count + 1;
  lease_expires_at = some (now + lease_seconds);
  updated_at = now;
}

unfoldable pub begin_approval_attempt :
    (delivery_id : String) (lease_seconds now : ℕ)
    → GovernanceStore
    → Result (ApprovalDelivery × GovernanceStore)
begin_approval_attempt delivery_id lease_seconds now s = do
  raise_if (nat_eq lease_seconds 0) value_error
  delivery ← item delivery_id s.approval_deliveries
  raise_if (not (is_queued_delivery delivery.status)) value_error
  ok (save_delivery delivery_id (begun lease_seconds now delivery) s)

unfoldable pub delivery_failed :
    (error_message : String) (now : ℕ) → ApprovalDelivery → ApprovalDelivery
delivery_failed error_message now d = record d {
  status = ApprovalDeliveryStatus.failed;
  error_message = some error_message;
  lease_expires_at = none;
  updated_at = now;
}

unfoldable pub fail_approval_delivery :
    (delivery_id error_message : String) (now : ℕ)
    → GovernanceStore
    → Result (ApprovalDelivery × GovernanceStore)
fail_approval_delivery delivery_id error_message now s = do
  raise_if (error_message == "") value_error
  delivery ← item delivery_id s.approval_deliveries
  raise_if (not (is_running_delivery delivery.status)) value_error
  ok (save_delivery delivery_id (delivery_failed error_message now delivery) s)

-- `delivery.lease_expires_at is None or delivery.lease_expires_at <= now`
abbrev pub has_no_lease : ℕ → ApprovalDelivery → Bool
has_no_lease now d = elim d.lease_expires_at [ none ↦ true | some lease ↦ leb lease now ]

unfoldable pub delivered : (instance_id : String) (now : ℕ) → ApprovalDelivery → ApprovalDelivery
delivered instance_id now d = record d {
  status = ApprovalDeliveryStatus.succeeded;
  instance_id = some instance_id;
  error_message = none;
  lease_expires_at = none;
  updated_at = now;
}

unfoldable pub succeed_approval_delivery :
    (delivery_id instance_id : String) (now : ℕ)
    → GovernanceStore
    → Result (ApprovalDelivery × GovernanceStore)
succeed_approval_delivery delivery_id instance_id now s = do
  raise_if (instance_id == "") value_error
  delivery ← item delivery_id s.approval_deliveries
  raise_if (not (is_running_delivery delivery.status)) value_error
  raise_if (has_no_lease now delivery) value_error
  ok (save_delivery delivery_id (delivered instance_id now delivery) s)

unfoldable pub delivery_retried : ℕ → ApprovalDelivery → ApprovalDelivery
delivery_retried now d = record d {
  status = ApprovalDeliveryStatus.queued;
  lease_expires_at = none;
  updated_at = now;
}

unfoldable pub retry_approval_delivery :
    (delivery_id : String) (now : ℕ) → GovernanceStore → Result (ApprovalDelivery × GovernanceStore)
retry_approval_delivery delivery_id now s = do
  delivery ← item delivery_id s.approval_deliveries
  raise_if (not (is_failed_delivery delivery.status)) value_error
  ok (save_delivery delivery_id (delivery_retried now delivery) s)

-- A running delivery whose lease has ended by the cutoff.
abbrev pub is_lost : ℕ → ApprovalDelivery → Bool
is_lost cutoff d =
    is_running_delivery d.status
    && elim d.lease_expires_at [ none ↦ false | some lease ↦ leb lease cutoff ]

unfoldable pub recovered : ApprovalDeliveryStatus → ℕ → ApprovalDelivery → ApprovalDelivery
recovered target_status cutoff d =
    if is_lost cutoff d
    then record d {
      status = target_status;
      error_message = some "审批投递租约已过期";
      lease_expires_at = none;
      updated_at = cutoff;
    }
    else d

-- Those that are recovered are returned, in the order of the dictionary.
unfoldable pub requeue_expired_approval_deliveries :
    (cutoff : ℕ) (target_status : ApprovalDeliveryStatus)
    → GovernanceStore
    → Result (List ApprovalDelivery × GovernanceStore)
requeue_expired_approval_deliveries cutoff target_status s = do
  raise_if (not (is_failed_delivery target_status || is_queued_delivery target_status)) value_error
  ok (
    map (recovered target_status cutoff) (select (is_lost cutoff) (values s.approval_deliveries)),
    record s {
      approval_deliveries = map_values (recovered target_status cutoff) s.approval_deliveries;
    },
  )

abbrev pub is_succeeded_delivery : ApprovalDeliveryStatus → Bool
is_succeeded_delivery ApprovalDeliveryStatus.succeeded = true
is_succeeded_delivery _ = false
