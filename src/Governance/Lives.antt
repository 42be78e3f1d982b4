-- ===== src/Governance/Lives.antt =====
-- The life of a delivery in law_agent/review/governance_store.py: how each method changes one.
pub mod Final
pub mod Sound
use mathlib.Core.Path.{subst}
use crosscomply_agent.Prelude.{
  ℕ, String, Bool, true, false, not, ◌&&◌, ◌||◌, Option, none, some, ◌≡◌, refl, sym, ap, ◌∙◌, ◌⊎◌,
  inl, inr, ◌<◌, ◌≢◌, ◌↔◌, get, put, get-put, get-put_self, eq_iff, eq_refl, ◌==◌, Result, ok, err,
  ◌>>=◌, ◌>>◌, item, raise_if, arith, value_error, Dict, Bool-cases, Option-cases, if◌then◌else◌,
  map_values, get-map_values,
}
use crosscomply_agent.Governance.Records.{ApprovalDeliveryStatus, ApprovalDelivery, GovernanceStore}
use crosscomply_agent.Governance.Deliveries.{
  enqueue_approval_delivery, delivery_or_new, begin_approval_attempt, fail_approval_delivery,
  succeed_approval_delivery, retry_approval_delivery, requeue_expired_approval_deliveries, begun,
  delivery_failed, delivered, delivery_retried, recovered, is_lost, is_queued_delivery,
  is_running_delivery, is_failed_delivery, has_no_lease,
}
use crosscomply_agent.Governance.Events.{governance_after}

-- A method on the delivery under `k` leaves the store, or finds the delivery ready and changes it.
abbrev pub Changes :
    String
    → (ApprovalDelivery → Bool)
    → (ApprovalDelivery → ApprovalDelivery)
    → GovernanceStore
    → GovernanceStore
    → Type 0
Changes k ready f s t =
    (t ≡ s)
    ⊎ ((d : ApprovalDelivery) × (get k s.approval_deliveries ≡ some d)
        × (ready d ≡ true)
        × (t ≡ record s { approval_deliveries = put k (f d) s.approval_deliveries }))

module _ (k : String) (now : ℕ) (s : GovernanceStore) where
  pub begin-Changes :
      (l : ℕ)
      → Changes k
          (λ d. is_queued_delivery d.status)
          (begun l now)
          s
          (governance_after s (begin_approval_attempt k l now s))
  unfolding begin_approval_attempt
  begin-Changes l = elim (Option-cases (get k s.approval_deliveries)) [
    | inl e ↦ inl (ground (arith, e))
    | inr (d, e) ↦ ground (arith, e)
  ]

  pub fail-Changes :
      (m : String)
      → Changes k
          (λ d. is_running_delivery d.status && not (m == ""))
          (delivery_failed m now)
          s
          (governance_after s (fail_approval_delivery k m now s))
  unfolding fail_approval_delivery
  fail-Changes m = elim (Option-cases (get k s.approval_deliveries)) [
    | inl e ↦ inl (ground (arith, e))
    | inr (d, e) ↦ ground (arith, e)
  ]

  pub succeed-Changes :
      (i : String)
      → Changes k
          (λ d. is_running_delivery d.status && not (has_no_lease now d) && not (i == ""))
          (delivered i now)
          s
          (governance_after s (succeed_approval_delivery k i now s))
  unfolding succeed_approval_delivery
  succeed-Changes i = elim (Option-cases (get k s.approval_deliveries)) [
    | inl e ↦ inl (ground (arith, e))
    | inr (d, e) ↦ ground (arith, e)
  ]

  pub retry-Changes :
      Changes k
        (λ d. is_failed_delivery d.status)
        (delivery_retried now)
        s
        (governance_after s (retry_approval_delivery k now s))
  unfolding retry_approval_delivery
  retry-Changes = elim (Option-cases (get k s.approval_deliveries)) [
    | inl e ↦ inl (ground (arith, e))
    | inr (d, e) ↦ ground (arith, e)
  ]
