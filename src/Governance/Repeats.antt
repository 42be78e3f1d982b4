-- ===== src/Governance/Repeats.antt =====
-- Requests that come twice, to law_agent/review/governance_store.py.
use crosscomply_agent.Prelude.{
  item-get, ℕ, String, Bool, true, false, Option, none, some, ◌≡◌, refl, sym, get, get-put,
  get-put_self, eq_iff, eq_refl, ◌==◌, ok, ◌>>=◌, >>=-eq-ok, item, raise_if, arith, value_error,
  Dict, IsKeyed-get,
}
use crosscomply_agent.Governance.Records.{
  ApprovalEventReceipt, TerminalApprovalStatus, ApprovalRecord, ApprovalDelivery, GovernanceStore,
}
use crosscomply_agent.Governance.Approvals.{
  EventReport, record_approval_event, repeat_event, first_event, repeat_or_first, check_target,
  decided, target_of, bool_eq,
}
use crosscomply_agent.Governance.Deliveries.{enqueue_approval_delivery, delivery_or_new}
use crosscomply_agent.Governance.Decisions.{AreKeyed, approvals_after}
use crosscomply_agent.Governance.Audit.{event_of}

bool_eq_refl : (b : Bool) → bool_eq b b ≡ true
bool_eq_refl true = refl
bool_eq_refl false = refl

decided-id :
    (r : EventReport) (now : ℕ) (t : Option TerminalApprovalStatus) (v : ApprovalRecord)
    → (decided r now t v).id ≡ v.id
unfolding decided
decided-id r now none v = refl
decided-id r now (some t) v = ground arith

-- The approval of the event is, in the new store, the one of the receipt.
approvals_after-decided :
    (r : EventReport) (now : ℕ) (t : Option TerminalApprovalStatus) (v : ApprovalRecord)
    (d : Dict ApprovalRecord)
    → get r.approval_id d ≡ some v
    → v.id ≡ r.approval_id
    → get r.approval_id (approvals_after r now t v d) ≡ some (decided r now t v)
unfolding decided
approvals_after-decided r now none v d g e = g
approvals_after-decided r now (some t) v d g e =
    ground
      (arith, get-put v.id r.approval_id (decided r now (some t) v) d, eq_iff v.id r.approval_id)

repeat_of_first :
    (r : EventReport) (sha id : String) (now : ℕ) (s s' : GovernanceStore)
    (x : ApprovalEventReceipt)
    → AreKeyed s
    → first_event r sha id now s ≡ ok (x, s')
    → (get r.provider_event_id s'.event_by_provider_id ≡ some id)
      × (repeat_event r sha id s' ≡ ok (record x { duplicate = true }, s'))
unfolding first_event repeat_event event_of
repeat_of_first r sha id now s s' x keyed h =
    let (v, found, h1) = >>=-eq-ok (item r.approval_id s.approvals) _ h in
    let (_, allowed, h2) = >>=-eq-ok (check_target (target_of r) v.status) _ h1 in
    let g = item-get r.approval_id s.approvals v found in
    let stored =
      approvals_after-decided r now (target_of r) v s.approvals g
        (IsKeyed-get (λ b. b.id) r.approval_id s.approvals v keyed g) in
    ground (
      arith,
      h2,
      stored,
      get-put_self r.provider_event_id id s.event_by_provider_id,
      get-put_self id (event_of r sha id now) s.events,
      eq_refl r.approval_id,
      eq_refl r.event_type,
      eq_refl sha,
      bool_eq_refl r.signature_valid,
    )

repeat_of_repeat :
    (r : EventReport) (sha i : String) (s s' : GovernanceStore) (x : ApprovalEventReceipt)
    → repeat_event r sha i s ≡ ok (x, s')
    → (s' ≡ s) × (record x { duplicate = true } ≡ x)
unfolding repeat_event
repeat_of_repeat r sha i s s' x h = ground (arith, h)

repeat_or_first_twice :
    (o : Option String) (r : EventReport) (sha id id' : String) (now now' : ℕ)
    (s s' : GovernanceStore) (x : ApprovalEventReceipt)
    → o ≡ get r.provider_event_id s.event_by_provider_id
    → AreKeyed s
    → repeat_or_first o r sha id now s ≡ ok (x, s')
    → repeat_or_first (get r.provider_event_id s'.event_by_provider_id) r sha id' now' s'
      ≡ ok (record x { duplicate = true }, s')
unfolding repeat_or_first
repeat_or_first_twice (some i) r sha id id' now now' s s' x e keyed h =
    let (same, again) = repeat_of_repeat r sha i s s' x h in rw (same, again, sym e) (rw same at h)
repeat_or_first_twice none r sha id id' now now' s s' x e keyed h =
    let (known, again) = repeat_of_first r sha id now s s' x keyed h in rw known again

module _ (payload_hash : String → String) where
  -- The platform may send an event again. In a store whose approvals stand under their identifiers,
  -- an event that was recorded, and comes again, at any time and whatever identifier it would get,
  -- is answered with the same event and the same approval, now called a duplicate, and changes nothing.
  pub record_approval_event_idem :
      (r : EventReport) (id id' : String) (now now' : ℕ) (s s' : GovernanceStore)
      (x : ApprovalEventReceipt)
      → AreKeyed s
      → record_approval_event payload_hash r id now s ≡ ok (x, s')
      → record_approval_event payload_hash r id' now' s' ≡ ok (record x { duplicate = true }, s')
  unfolding record_approval_event
  record_approval_event_idem r id id' now now' s s' x keyed h =
      repeat_or_first_twice (get r.provider_event_id s.event_by_provider_id) r
        (payload_hash r.payload) id id' now now' s s' x refl keyed h

delivery_or_new_twice :
    (o : Option String) (v w found : ApprovalDelivery) (s s' : GovernanceStore)
    → o ≡ get v.idempotency_key s.delivery_by_key
    → w.case_id ≡ v.case_id
    → w.task_id ≡ v.task_id
    → delivery_or_new o v s ≡ ok (found, s')
    → delivery_or_new (get v.idempotency_key s'.delivery_by_key) w s' ≡ ok (found, s')
unfolding delivery_or_new
delivery_or_new_twice (some i) v w found s s' e c t h = ground (arith, e, c, t, h)
delivery_or_new_twice none v w found s s' e c t h = ground (
  arith,
  h,
  c,
  t,
  get-put_self v.idempotency_key v.id s.delivery_by_key,
  get-put_self v.id v s.approval_deliveries,
  eq_refl v.case_id,
  eq_refl v.task_id,
)

-- An approval request is delivered under one key only once: what was enqueued, or found, under a
-- key is returned again for the same case and task, and the second call leaves the store as it is.
pub enqueue_approval_delivery_idem :
    (c t key id id' : String) (now now' : ℕ) (s s' : GovernanceStore) (d : ApprovalDelivery)
    → enqueue_approval_delivery c t key id now s ≡ ok (d, s')
    → enqueue_approval_delivery c t key id' now' s' ≡ ok (d, s')
unfolding enqueue_approval_delivery
enqueue_approval_delivery_idem c t key id id' now now' s s' d h =
    let (_, named, h1) = >>=-eq-ok (raise_if (key == "") value_error) _ h in
    rw (named, ◌>>=◌)
      (delivery_or_new_twice (get key s.delivery_by_key) _ _ d s s' refl refl refl h1)
