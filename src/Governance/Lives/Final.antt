-- ===== src/Governance/Lives/Final.antt =====
-- A delivery that succeeded is final, and a late result does not count
-- (law_agent/review/governance_store.py).
use mathlib.Core.Path.{subst}
use crosscomply_agent.Prelude.{
  ℕ, String, Bool, true, false, Option, none, some, ◌≡◌, refl, sym, ap, ◌∙◌, inl, inr, ◌<◌, ◌↔◌,
  get, get-put, get-put_self, eq_iff, ◌==◌, ok, raise_if, arith, value_error, Option-cases,
  get-map_values,
}
use crosscomply_agent.Governance.Records.{ApprovalDeliveryStatus, ApprovalDelivery, GovernanceStore}
use crosscomply_agent.Governance.Deliveries.{
  enqueue_approval_delivery, delivery_or_new, succeed_approval_delivery,
  requeue_expired_approval_deliveries, delivered, recovered, is_running_delivery,
  is_succeeded_delivery, has_no_lease, save_delivery,
}
use crosscomply_agent.Governance.Events.{
  Event, happen, IsFresh, Run, start, next, governance_after, governance_after_bind,
}
use crosscomply_agent.Governance.Keeps.{
  approve-KeepsDeliveries, report-KeepsDeliveries, hear-KeepsDeliveries,
}
use crosscomply_agent.Governance.Lives.{
  Changes, begin-Changes, fail-Changes, succeed-Changes, retry-Changes,
}

module _ (k : String) (d : ApprovalDelivery) where
  abbrev Stands : GovernanceStore → Type 0
  Stands s = get k s.approval_deliveries ≡ some d

  Changes-Stands :
      (j : String) (ready : ApprovalDelivery → Bool) (f : ApprovalDelivery → ApprovalDelivery)
      (s t : GovernanceStore)
      → Changes j ready f s t
      → ready d ≡ false
      → Stands s
      → Stands t
  Changes-Stands j ready f s t (inl e) r h = subst Stands (sym e) h
  Changes-Stands j ready f s t (inr (v, g, b, e)) r h =
      subst Stands (sym e)
        (get-put j k (f v) s.approval_deliveries ∙ ground (arith, eq_iff j k, h, g, b, r))

  module _ (now : ℕ) (s : GovernanceStore) (final : is_succeeded_delivery d.status ≡ true)
      (h : Stands s) where
    delivery_or_new-Stands :
        (o : Option String) (new : ApprovalDelivery)
        → get new.id s.approval_deliveries ≡ none
        → Stands (governance_after s (delivery_or_new o new s))
    unfolding delivery_or_new
    delivery_or_new-Stands (some i) new f = ground (arith, h)
    delivery_or_new-Stands none new f =
        get-put new.id k new s.approval_deliveries ∙ ground (arith, eq_iff new.id k, h, f)

    enqueue-Stands :
        (c t key id : String)
        → get id s.approval_deliveries ≡ none
        → Stands (governance_after s (enqueue_approval_delivery c t key id now s))
    unfolding enqueue_approval_delivery
    enqueue-Stands c t key id f =
        governance_after_bind Stands s (raise_if (key == "") value_error) _ h
          λ _ _. delivery_or_new-Stands _ _ f

    requeue-Stands :
        (t : ApprovalDeliveryStatus)
        → Stands (governance_after s (requeue_expired_approval_deliveries now t s))
    unfolding requeue_expired_approval_deliveries recovered
    requeue-Stands t = ground (arith, h, get-map_values (recovered t now) k s.approval_deliveries d)

    happen-Stands :
        (payload_hash : String → String) (e : Event)
        → IsFresh payload_hash e s
        → Stands (happen payload_hash now e s)
    unfolding happen
    happen-Stands hash (Event.deliver c t key id) f = enqueue-Stands c t key id f
    happen-Stands hash (Event.begin j l) f =
        Changes-Stands j _ _ s _ (begin-Changes j now s l) (ground arith) h
    happen-Stands hash (Event.fail j m) f =
        Changes-Stands j _ _ s _ (fail-Changes j now s m) (ground arith) h
    happen-Stands hash (Event.succeed j i) f =
        Changes-Stands j _ _ s _ (succeed-Changes j now s i) (ground arith) h
    happen-Stands hash (Event.retry j) f =
        Changes-Stands j _ _ s _ (retry-Changes j now s) (ground arith) h
    happen-Stands hash (Event.requeue t) f = requeue-Stands t
    happen-Stands hash (Event.approve c t i p pr id) f =
        ap (get k) (approve-KeepsDeliveries now s c t i p pr id) ∙ h
    happen-Stands hash (Event.hear r id) f = ap (get k) (hear-KeepsDeliveries now s hash r id) ∙ h
    happen-Stands hash (Event.report c a o x m id) f =
        ap (get k) (report-KeepsDeliveries now s c a o x m id) ∙ h

-- A delivery that succeeded is final: whatever is done to the store, in any order and at any times,
-- it keeps its record, the identifier of the platform's instance included.
pub succeeded_delivery_is_kept :
    (payload_hash : String → String) {s u : GovernanceStore} (k : String) (d : ApprovalDelivery)
    → get k s.approval_deliveries ≡ some d
    → is_succeeded_delivery d.status ≡ true
    → Run payload_hash s u
    → get k u.approval_deliveries ≡ some d
succeeded_delivery_is_kept hash k d h final start = h
succeeded_delivery_is_kept hash k d h final (next {t} r now e f eq) =
    subst (Stands k d) (sym eq)
      (happen-Stands k d now t final (succeeded_delivery_is_kept hash k d h final r) hash e f)

-- The delivery runs, and its lease goes on after `now`.
abbrev pub IsLeased : ℕ → ApprovalDelivery → Type 0
IsLeased now d =
    (d.status ≡ ApprovalDeliveryStatus.running)
    × ((lease : ℕ) × (d.lease_expires_at ≡ some lease) × (now < lease))

IsLeased-of_checks :
    (now : ℕ) (d : ApprovalDelivery)
    → is_running_delivery d.status ≡ true
    → has_no_lease now d ≡ false
    → IsLeased now d
IsLeased-of_checks now d r l = elim (Option-cases d.lease_expires_at) [
  | inl e ↦ absurd (ground arith)
  | inr (lease, e) ↦ (ground arith, (lease, e, ground arith))
]

-- A result of the platform is taken exactly while the delivery runs under a lease that has not
-- ended and the result names an instance; the delivery then succeeded with that instance. A late
-- one is refused.
pub succeed_approval_delivery_iff :
    (k i : String) (now : ℕ) (s : GovernanceStore) (d : ApprovalDelivery)
    → get k s.approval_deliveries ≡ some d
    → ((u : ApprovalDelivery) × (s' : GovernanceStore) × (succeed_approval_delivery k i now s
          ≡ ok (u, s'))
        × (get k s'.approval_deliveries ≡ some u)
        × (u.status ≡ ApprovalDeliveryStatus.succeeded)
        × (u.instance_id ≡ some i))
      ↔ (((i == "") ≡ false) × IsLeased now d)
unfolding succeed_approval_delivery delivered
succeed_approval_delivery_iff k i now s d g = (
  λ (u, s', e, _, _, _). (
    ground (arith, g, e),
    IsLeased-of_checks now d (ground (arith, g, e)) (ground (arith, g, e)),
  ),
  λ (named, (running, (lease, l, after))). (
    delivered i now d,
    (save_delivery k (delivered i now d) s).1,
    ground (arith, g, named, running, l, after),
    get-put_self k _ s.approval_deliveries,
    refl,
    refl,
  ),
)
