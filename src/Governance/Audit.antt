-- ===== src/Governance/Audit.antt =====
-- The audit of decisions: what law_agent/review/governance_store.py keeps on record of them.
use mathlib.Core.Path.{subst}
use crosscomply_agent.Prelude.{
  item-get, ℕ, String, true, false, Option, none, some, ◌≡◌, refl, sym, ap, ◌∙◌, ◌⊎◌, inl, inr, get,
  put, get-put, get-put_self, eq_iff, item, arith, Dict, IsKeyed, IsKeyed-put, IsKeyed-get, is_none,
}
use crosscomply_agent.Governance.Records.{
  ApprovalEvent, TerminalApprovalStatus, ApprovalRecord, GovernanceStore, empty_governance,
}
use crosscomply_agent.Governance.Approvals.{
  EventReport, create_approval_record, approval_or_new, record_approval_event, first_event,
  repeat_or_first, is_terminal, check_target, decided, target_of,
}
use crosscomply_agent.Governance.Events.{
  Event, happen, IsFresh, Run, start, next, governance_after, governance_after_bind,
}
use crosscomply_agent.Governance.Keeps.{
  enqueue-KeepsAudit, begin-KeepsAudit, fail-KeepsAudit, succeed-KeepsAudit, retry-KeepsAudit,
  requeue-KeepsAudit, report-approvals, report-events, approval_or_new-found, repeat_event-store,
}
use crosscomply_agent.Governance.Decisions.{AreKeyed, approvals_after, approvals_after-IsKeyed}

-- A signed event for the approval is on record.
abbrev pub HasSignedEvent : String → GovernanceStore → Type 0
HasSignedEvent k s =
    (j : String) × (e : ApprovalEvent) × (get j s.events ≡ some e)
    × (e.approval_id ≡ k)
    × (e.signature_valid ≡ true)

abbrev pub IsAudited : GovernanceStore → Type 0
IsAudited s =
    AreKeyed s
    × ((k : String) (a : ApprovalRecord)
        → get k s.approvals ≡ some a
        → is_terminal a.status ≡ true
        → HasSignedEvent k s)

same-IsAudited :
    (s t : GovernanceStore)
    → t.approvals ≡ s.approvals
    → t.events ≡ s.events
    → IsAudited s
    → IsAudited t
same-IsAudited s t e f (keyed, h) = (
  subst (IsKeyed (λ (b : ApprovalRecord). b.id)) (sym e) keyed,
  λ k a g final.
      let (j, x, found, to, signed) = h k a (ap (get k) (sym e) ∙ g) final in
      (j, x, ap (get j) f ∙ found, to, signed),
)

-- An approval that a new event left is one from before, or the one that the event decided.
approvals_after-cases :
    (report : EventReport) (now : ℕ) (t : Option TerminalApprovalStatus) (v : ApprovalRecord)
    (d : Dict ApprovalRecord) (k : String) (a : ApprovalRecord)
    → get k (approvals_after report now t v d) ≡ some a
    → (get k d ≡ some a) ⊎ ((k ≡ v.id) × (is_none t ≡ false))
unfolding decided
approvals_after-cases report now none v d k a g = inl g
approvals_after-cases report now (some t) v d k a g =
    ground (arith, get-put v.id k (decided report now (some t) v) d, eq_iff v.id k)

-- Only a signed report has a target.
target_of-signed : (r : EventReport) → is_none (target_of r) ≡ false → r.signature_valid ≡ true
target_of-signed r h = ground arith

-- The event that a new report leaves on record.
unfoldable pub event_of : EventReport → (sha id : String) → ℕ → ApprovalEvent
event_of r sha id now = record {
  id = id;
  approval_id = r.approval_id;
  provider_event_id = r.provider_event_id;
  event_type = r.event_type;
  signature_valid = r.signature_valid;
  payload_sha256 = sha;
  payload = r.payload;
  created_at = now;
}

put-HasSignedEvent :
    (k id : String) (e : ApprovalEvent) (s t : GovernanceStore)
    → get id s.events ≡ none
    → t.events ≡ put id e s.events
    → HasSignedEvent k s
    → HasSignedEvent k t
put-HasSignedEvent k id e s t f eq (j, x, found, to, signed) =
    (j, x, ap (get j) eq ∙ get-put id j e s.events ∙ ground (arith, eq_iff id j, found), to, signed)

first_event-IsAudited :
    (r : EventReport) (sha id : String) (now : ℕ) (s : GovernanceStore)
    → get id s.events ≡ none
    → IsAudited s
    → IsAudited (governance_after s (first_event r sha id now s))
unfolding first_event event_of
first_event-IsAudited r sha id now s f h =
    governance_after_bind IsAudited s (item r.approval_id s.approvals) _ h λ v found.
      governance_after_bind IsAudited s (check_target (target_of r) v.status) _ h λ _ allowed. (
        approvals_after-IsKeyed r now (target_of r) v s.approvals h.0,
        λ k a g final. elim (approvals_after-cases r now (target_of r) v s.approvals k a g) [
          | inl old ↦
              put-HasSignedEvent k id (event_of r sha id now) s
                (record s {
                  events = put id (event_of r sha id now) s.events;
                  event_by_provider_id = put r.provider_event_id id s.event_by_provider_id;
                  approvals = approvals_after r now (target_of r) v s.approvals;
                })
                f refl (h.1 k a old final)
          | inr (same, has) ↦ (
            id,
            event_of r sha id now,
            get-put_self id _ s.events,
            sym (
                same
                ∙ IsKeyed-get (λ b. b.id) r.approval_id s.approvals v h.0
                    (item-get r.approval_id s.approvals v found)),
            target_of-signed r has,
          )
        ],
      )

repeat_or_first-IsAudited :
    (o : Option String) (r : EventReport) (sha id : String) (now : ℕ) (s : GovernanceStore)
    → get id s.events ≡ none
    → IsAudited s
    → IsAudited (governance_after s (repeat_or_first o r sha id now s))
unfolding repeat_or_first
repeat_or_first-IsAudited (some i) r sha id now s f h =
    subst IsAudited (sym (repeat_event-store now s r sha i)) h
repeat_or_first-IsAudited none r sha id now s f h = first_event-IsAudited r sha id now s f h

approval_or_new-IsAudited :
    (o : Option String) (new : ApprovalRecord) (s : GovernanceStore)
    → is_terminal new.status ≡ false
    → IsAudited s
    → IsAudited (governance_after s (approval_or_new o new s))
unfolding approval_or_new
approval_or_new-IsAudited (some i) new s p h =
    subst IsAudited (sym (approval_or_new-found 0 s i new)) h
approval_or_new-IsAudited none new s p h = (
  IsKeyed-put (λ b. b.id) new.id new s.approvals refl h.0,
  λ k a g final. h.1 k a (ground (arith, get-put new.id k new s.approvals)) final,
)

module _ (payload_hash : String → String) where
  happen-IsAudited :
      (now : ℕ) (e : Event) (s : GovernanceStore)
      → IsFresh payload_hash e s
      → IsAudited s
      → IsAudited (happen payload_hash now e s)
  unfolding happen
  happen-IsAudited now (Event.deliver c t key id) s f h =
      let k = enqueue-KeepsAudit now s c t key id in
      same-IsAudited s (happen payload_hash now (Event.deliver c t key id) s) k.0 k.1 h
  happen-IsAudited now (Event.begin j l) s f h =
      let k = begin-KeepsAudit now s j l in
      same-IsAudited s (happen payload_hash now (Event.begin j l) s) k.0 k.1 h
  happen-IsAudited now (Event.fail j m) s f h =
      let k = fail-KeepsAudit now s j m in
      same-IsAudited s (happen payload_hash now (Event.fail j m) s) k.0 k.1 h
  happen-IsAudited now (Event.succeed j i) s f h =
      let k = succeed-KeepsAudit now s j i in
      same-IsAudited s (happen payload_hash now (Event.succeed j i) s) k.0 k.1 h
  happen-IsAudited now (Event.retry j) s f h =
      let k = retry-KeepsAudit now s j in
      same-IsAudited s (happen payload_hash now (Event.retry j) s) k.0 k.1 h
  happen-IsAudited now (Event.requeue t) s f h =
      let k = requeue-KeepsAudit now s t in
      same-IsAudited s (happen payload_hash now (Event.requeue t) s) k.0 k.1 h
  happen-IsAudited now (Event.approve c t i p pr id) s f h =
      unfold create_approval_record in approval_or_new-IsAudited _ _ s refl h
  happen-IsAudited now (Event.hear r id) s f h =
      unfold record_approval_event in repeat_or_first-IsAudited _ r _ id now s f h
  happen-IsAudited now (Event.report c b o d m id) s f h =
      same-IsAudited s (happen payload_hash now (Event.report c b o d m id) s)
        (report-approvals now s c b o d m id) (report-events now s c b o d m id) h

  -- No approval is decided without the platform: in every store that is reached from the empty one,
  -- by any methods in any order, an approval stands under its identifier, and if it is decided, an
  -- event for it whose signature was valid is on record.
  pub Run-IsAudited : {s : GovernanceStore} → Run payload_hash empty_governance s → IsAudited s
  Run-IsAudited start = (tt, λ k a g final. cc)
  Run-IsAudited (next {t} r now e f eq) =
      subst IsAudited (sym eq) (happen-IsAudited now e t f (Run-IsAudited r))
