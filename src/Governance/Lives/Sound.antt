-- ===== src/Governance/Lives/Sound.antt =====
-- What holds of every delivery in the store of law_agent/review/governance_store.py.
use mathlib.Core.Path.{subst}
use crosscomply_agent.Prelude.{
  ℕ, String, Bool, true, false, not, ◌||◌, Option, none, some, ◌≡◌, refl, sym, inl, inr, ◌≤◌, ◌==◌,
  ok, item, raise_if, arith, value_error, Bool-cases, values, All, All-put, All-get, All-map_values,
  truthy, is_none,
}
use crosscomply_agent.Governance.Records.{
  ApprovalDeliveryStatus, ApprovalDelivery, GovernanceStore, empty_governance,
}
use crosscomply_agent.Governance.Deliveries.{
  enqueue_approval_delivery, delivery_or_new, requeue_expired_approval_deliveries, begun,
  delivery_failed, delivered, delivery_retried, recovered, is_lost, is_queued_delivery,
  is_running_delivery, is_failed_delivery, is_succeeded_delivery,
}
use crosscomply_agent.Governance.Events.{
  Event, happen, Run, start, next, governance_after, governance_after_bind,
}
use crosscomply_agent.Governance.Keeps.{
  approve-KeepsDeliveries, report-KeepsDeliveries, hear-KeepsDeliveries,
}
use crosscomply_agent.Governance.Lives.{
  Changes, begin-Changes, fail-Changes, succeed-Changes, retry-Changes,
}

-- A delivery has a lease exactly while it runs, and names an instance of the platform exactly when it
-- succeeded; it was tried unless it waits, and says why it failed.
pub record IsSound (d : ApprovalDelivery) : Type 0 where
  pub leased : is_none d.lease_expires_at ≡ not (is_running_delivery d.status)
  pub named : truthy d.instance_id ≡ is_succeeded_delivery d.status
  pub unnamed : is_none d.instance_id ≡ not (is_succeeded_delivery d.status)
  pub tried : is_queued_delivery d.status ≡ false → 1 ≤ d.attempt_count
  pub explained : is_failed_delivery d.status ≡ true → truthy d.error_message ≡ true

module _ (now : ℕ) (d : ApprovalDelivery) (h : IsSound d) where
  begun-IsSound : (l : ℕ) → is_queued_delivery d.status ≡ true → IsSound (begun l now d)
  unfolding begun
  begun-IsSound l r = record {
    leased = refl;
    named = ground (arith, h.named);
    unnamed = ground (arith, h.unnamed);
    tried = λ _. omega arith;
    explained = λ f. ground arith;
  }

  delivery_failed-IsSound :
      (m : String)
      → (m == "") ≡ false
      → is_running_delivery d.status ≡ true
      → IsSound (delivery_failed m now d)
  unfolding delivery_failed
  delivery_failed-IsSound m named r = record {
    leased = refl;
    named = ground (arith, h.named);
    unnamed = ground (arith, h.unnamed);
    tried = λ _. h.tried (ground arith);
    explained = λ _. ground arith;
  }

  delivered-IsSound :
      (i : String)
      → (i == "") ≡ false
      → is_running_delivery d.status ≡ true
      → IsSound (delivered i now d)
  unfolding delivered
  delivered-IsSound i named r = record {
    leased = refl;
    named = ground arith;
    unnamed = refl;
    tried = λ _. h.tried (ground arith);
    explained = λ f. ground arith;
  }

  delivery_retried-IsSound : is_failed_delivery d.status ≡ true → IsSound (delivery_retried now d)
  unfolding delivery_retried
  delivery_retried-IsSound r = record {
    leased = refl;
    named = ground (arith, h.named);
    unnamed = ground (arith, h.unnamed);
    tried = λ f. ground arith;
    explained = λ f. ground arith;
  }

  recovered-IsSound :
      (t : ApprovalDeliveryStatus)
      → (is_failed_delivery t || is_queued_delivery t) ≡ true
      → IsSound (recovered t now d)
  unfolding recovered
  recovered-IsSound t allowed = elim (Bool-cases (is_lost now d)) [
    | inl e ↦ rw e (record {
      leased = ground arith;
      named = ground (arith, h.named);
      unnamed = ground (arith, h.unnamed);
      tried = λ f. h.tried (ground arith);
      explained = λ _. refl;
    })
    | inr e ↦ rw e h
  ]

abbrev pub AreSound : GovernanceStore → Type 0
AreSound s = All IsSound (values s.approval_deliveries)

Changes-AreSound :
    (k : String) (ready : ApprovalDelivery → Bool) (f : ApprovalDelivery → ApprovalDelivery)
    (s t : GovernanceStore)
    → ((d : ApprovalDelivery) → IsSound d → ready d ≡ true → IsSound (f d))
    → Changes k ready f s t
    → AreSound s
    → AreSound t
Changes-AreSound k ready f s t keep (inl e) h = subst AreSound (sym e) h
Changes-AreSound k ready f s t keep (inr (d, g, r, e)) h = subst AreSound (sym e) (
    All-put IsSound k (f d) s.approval_deliveries
      (keep d (All-get IsSound k s.approval_deliveries d h g) r) h)

delivery_or_new-AreSound :
    (o : Option String) (new : ApprovalDelivery) (s : GovernanceStore)
    → IsSound new
    → AreSound s
    → AreSound (governance_after s (delivery_or_new o new s))
unfolding delivery_or_new
delivery_or_new-AreSound (some i) new s n h =
    governance_after_bind AreSound s (item i s.approval_deliveries) _ h λ d _.
      governance_after_bind AreSound s
        (raise_if (not (d.case_id == new.case_id) || not (d.task_id == new.task_id)) value_error)
        (λ _. ok (d, s)) h λ _ _. h
delivery_or_new-AreSound none new s n h = All-put IsSound new.id new s.approval_deliveries n h

requeue-AreSound :
    (now : ℕ) (t : ApprovalDeliveryStatus) (s : GovernanceStore)
    → AreSound s
    → AreSound (governance_after s (requeue_expired_approval_deliveries now t s))
unfolding requeue_expired_approval_deliveries
requeue-AreSound now t s h = elim (Bool-cases (is_failed_delivery t || is_queued_delivery t)) [
  | inl e ↦
      rw (e, governance_after)
        (All-map_values IsSound (recovered t now) s.approval_deliveries
          (λ d x. recovered-IsSound now d x t e) h)
  | inr e ↦ rw (e, governance_after) h
]

module _ (payload_hash : String → String) where
  happen-AreSound :
      (now : ℕ) (e : Event) (s : GovernanceStore)
      → AreSound s
      → AreSound (happen payload_hash now e s)
  unfolding happen
  happen-AreSound now (Event.deliver c t key id) s h =
      unfold enqueue_approval_delivery in
      governance_after_bind AreSound s (raise_if (key == "") value_error) _ h λ _ _.
        delivery_or_new-AreSound _ _ s
          (record {
            leased = refl;
            named = refl;
            unnamed = refl;
            tried = λ f. ground arith;
            explained = λ f. ground arith;
          })
          h
  happen-AreSound now (Event.begin k l) s h =
      Changes-AreSound k _ _ s _ (λ d x r. begun-IsSound now d x l r) (begin-Changes k now s l) h
  happen-AreSound now (Event.fail k m) s h =
      Changes-AreSound k _ _ s _
        (λ d x r. delivery_failed-IsSound now d x m (ground arith) (ground arith))
        (fail-Changes k now s m) h
  happen-AreSound now (Event.succeed k i) s h =
      Changes-AreSound k _ _ s _
        (λ d x r. delivered-IsSound now d x i (ground arith) (ground arith))
        (succeed-Changes k now s i) h
  happen-AreSound now (Event.retry k) s h =
      Changes-AreSound k _ _ s _ (λ d x r. delivery_retried-IsSound now d x r)
        (retry-Changes k now s) h
  happen-AreSound now (Event.requeue t) s h = requeue-AreSound now t s h
  happen-AreSound now (Event.approve c t i p pr id) s h =
      subst (λ d. All IsSound (values d)) (sym (approve-KeepsDeliveries now s c t i p pr id)) h
  happen-AreSound now (Event.hear r id) s h =
      subst (λ d. All IsSound (values d)) (sym (hear-KeepsDeliveries now s payload_hash r id)) h
  happen-AreSound now (Event.report c a o x m id) s h =
      subst (λ d. All IsSound (values d)) (sym (report-KeepsDeliveries now s c a o x m id)) h

  -- In every store that is reached from the empty one, by any methods in any order at any times,
  -- each delivery has a lease exactly while it runs and an instance of the platform exactly when it
  -- succeeded, was tried at least once unless it waits, and names an error if it failed.
  pub Run-AreSound : {s : GovernanceStore} → Run payload_hash empty_governance s → AreSound s
  Run-AreSound start = tt
  Run-AreSound (next {t} r now e f eq) =
      subst AreSound (sym eq) (happen-AreSound now e t (Run-AreSound r))
