-- ===== src/Governance/Events.antt =====
-- One event for each method of the store of law_agent/review/governance_store.py that changes it,
-- and the runs in which they follow one another in any order.
use crosscomply_agent.Prelude.{ℕ, String, none, ◌≡◌, refl, get, Result, ok, err, ◌>>=◌}
use crosscomply_agent.Governance.Records.{ApprovalDeliveryStatus, GovernanceStore}
use crosscomply_agent.Governance.Approvals.{
  EventReport, create_approval_record, record_approval_event,
}
use crosscomply_agent.Governance.Deliveries.{
  enqueue_approval_delivery, begin_approval_attempt, fail_approval_delivery,
  succeed_approval_delivery, retry_approval_delivery, requeue_expired_approval_deliveries,
}
use crosscomply_agent.Governance.Reports.{create_report_record}

pub data Event : Type 0 where
  deliver : (case_id task_id idempotency_key new_id : String) → Event
  begin : (delivery_id : String) (lease_seconds : ℕ) → Event
  fail : (delivery_id error_message : String) → Event
  succeed : (delivery_id instance_id : String) → Event
  retry : (delivery_id : String) → Event
  requeue : ApprovalDeliveryStatus → Event
  approve : (case_id task_id instance_id payload provider new_id : String) → Event
  hear : EventReport → (new_id : String) → Event
  report : (case_id approval_id object_key sha256 metadata new_id : String) → Event

-- A method that raises leaves the store as it was.
abbrev pub governance_after {ℓ} :
    {A : Type ℓ} → GovernanceStore → Result (A × GovernanceStore) → GovernanceStore
governance_after s (ok (a, t)) = t
governance_after s (err e) = s

-- What holds of the store as it is, and of the store after the rest of a block, holds after it.
pub governance_after_bind {ℓ κ ℓ'} :
    {A : Type ℓ} {B : Type κ} (P : GovernanceStore → Type ℓ') (s : GovernanceStore) (m : Result A)
    (f : A → Result (B × GovernanceStore))
    → P s
    → ((a : A) → m ≡ ok a → P (governance_after s (f a)))
    → P (governance_after s (m >>= f))
governance_after_bind P s (ok a) f h k = k a refl
governance_after_bind P s (err e) f h k = h

module _ (payload_hash : String → String) where
  unfoldable pub happen : ℕ → Event → GovernanceStore → GovernanceStore
  happen now (deliver c t key id) s =
      governance_after s (enqueue_approval_delivery c t key id now s)
  happen now (begin k l) s = governance_after s (begin_approval_attempt k l now s)
  happen now (fail k m) s = governance_after s (fail_approval_delivery k m now s)
  happen now (succeed k i) s = governance_after s (succeed_approval_delivery k i now s)
  happen now (retry k) s = governance_after s (retry_approval_delivery k now s)
  happen now (requeue t) s = governance_after s (requeue_expired_approval_deliveries now t s)
  happen now (approve c t i p pr id) s =
      governance_after s (create_approval_record c t i p pr id now s)
  happen now (hear r id) s = governance_after s (record_approval_event payload_hash r id now s)
  happen now (report c a o d m id) s = governance_after s (create_report_record c a o d m id now s)

  -- `uuid4` gives a record an identifier that no record of its kind has.
  abbrev pub IsFresh : Event → GovernanceStore → Type 0
  IsFresh (deliver _ _ _ id) s = get id s.approval_deliveries ≡ none
  IsFresh (approve _ _ _ _ _ id) s = get id s.approvals ≡ none
  IsFresh (hear _ id) s = get id s.events ≡ none
  IsFresh (report _ _ _ _ _ id) s = get id s.reports ≡ none
  IsFresh _ s = Unit

  -- The store `t` is reached from `s` by events at any times, each with a fresh identifier.
  pub data Run (s : GovernanceStore) : GovernanceStore → Type 0 where
    start : Run s s
    next :
        {t u : GovernanceStore}
        → Run s t
        → (now : ℕ) (e : Event) → IsFresh e t
        → u ≡ happen now e t
        → Run s u
