-- ===== src/Governance/Decisions.antt =====
-- A decided approval is final (law_agent/review/governance_store.py).
use mathlib.Core.Path.{subst}
use crosscomply_agent.Prelude.{
  item-get, ℕ, String, true, Option, none, some, ◌≡◌, refl, sym, ◌∙◌, ◌↔◌, ◌⊎◌, inl, inr, get, put,
  get-put, eq_iff, ok, item, arith, Dict, IsKeyed, IsKeyed-put, IsKeyed-get, Bool-cases,
  if◌then◌else◌,
}
use crosscomply_agent.Governance.Records.{
  ApprovalStatus, TerminalApprovalStatus, ApprovalRecord, GovernanceStore,
}
use crosscomply_agent.Governance.Approvals.{
  EventReport, create_approval_record, approval_or_new, record_approval_event, first_event,
  repeat_or_first, is_terminal, status_of, approval_status_eq, validate_transition, check_target,
  decided, is_redecided, target_of,
}
use crosscomply_agent.Governance.Events.{
  Event, happen, IsFresh, Run, start, next, governance_after, governance_after_bind,
}
use crosscomply_agent.Governance.Keeps.{
  enqueue-KeepsAudit, begin-KeepsAudit, fail-KeepsAudit, succeed-KeepsAudit, retry-KeepsAudit,
  requeue-KeepsAudit, report-approvals, approval_or_new-found, repeat_event-store,
}

eq_of_approval_status_eq : (a b : ApprovalStatus) → approval_status_eq a b ≡ true → a ≡ b
eq_of_approval_status_eq a b h = ground arith

-- A terminal status may be set exactly on an approval that is pending or has it already.
pub validate_transition_iff :
    (c : ApprovalStatus) (t : TerminalApprovalStatus)
    → (validate_transition c t ≡ ok tt) ↔ ((c ≡ ApprovalStatus.pending) ⊎ (c ≡ status_of t))
unfolding validate_transition
validate_transition_iff c t =
    (λ h. ground (arith, eq_of_approval_status_eq c (status_of t)), λ h. ground (arith, h))

-- The approvals that an event leaves: those before, or one of them decided.
abbrev pub approvals_after :
    EventReport
    → ℕ
    → Option TerminalApprovalStatus
    → ApprovalRecord
    → Dict ApprovalRecord
    → Dict ApprovalRecord
approvals_after report now t v d =
    if is_redecided t v then put (decided report now t v).id (decided report now t v) d else d

abbrev pub AreKeyed : GovernanceStore → Type 0
AreKeyed s = IsKeyed (λ (a : ApprovalRecord). a.id) s.approvals

pub approvals_after-IsKeyed :
    (report : EventReport) (now : ℕ) (t : Option TerminalApprovalStatus) (v : ApprovalRecord)
    (d : Dict ApprovalRecord)
    → IsKeyed (λ (a : ApprovalRecord). a.id) d
    → IsKeyed (λ (a : ApprovalRecord). a.id) (approvals_after report now t v d)
approvals_after-IsKeyed report now t v d h = elim (Bool-cases (is_redecided t v)) [
  | inl e ↦
      rw e (IsKeyed-put (λ a. a.id) (decided report now t v).id (decided report now t v) d refl h)
  | inr e ↦ rw e h
]

-- An approval with a terminal status stays what it is.
approvals_after-get :
    (report : EventReport) (now : ℕ) (t : Option TerminalApprovalStatus) (v : ApprovalRecord)
    (d : Dict ApprovalRecord) (k : String) (a : ApprovalRecord)
    → IsKeyed (λ (a : ApprovalRecord). a.id) d
    → get report.approval_id d ≡ some v
    → check_target t v.status ≡ ok tt
    → get k d ≡ some a
    → is_terminal a.status ≡ true
    → get k (approvals_after report now t v d) ≡ some a
unfolding decided validate_transition
approvals_after-get report now none v d k a key f c g h = g
approvals_after-get report now (some t) v d k a key f c g h =
    let same : v.id ≡ report.approval_id = IsKeyed-get (λ a. a.id) report.approval_id d v key f in
    elim (Bool-cases (approval_status_eq v.status (status_of t))) [
      | inl e ↦ ground (arith, e)
      | inr e ↦
          rw e (get-put v.id k _ d ∙ ground (arith, eq_iff v.id k, eq_iff report.approval_id k))
    ]

-- What is kept along a run: the approval, in a store whose approvals stand under their identifiers.
abbrev Holds : String → ApprovalRecord → GovernanceStore → Type 0
Holds k a s = AreKeyed s × (get k s.approvals ≡ some a)

module _ (k : String) (a : ApprovalRecord) (final : is_terminal a.status ≡ true) where
  same-Holds : (s t : GovernanceStore) → t.approvals ≡ s.approvals → Holds k a s → Holds k a t
  same-Holds s t e h =
      subst (λ d. IsKeyed (λ (b : ApprovalRecord). b.id) d × (get k d ≡ some a)) (sym e) h

  approval_or_new-Holds :
      (o : Option String) (new : ApprovalRecord) (s : GovernanceStore)
      → get new.id s.approvals ≡ none
      → Holds k a s
      → Holds k a (governance_after s (approval_or_new o new s))
  unfolding approval_or_new
  approval_or_new-Holds (some i) new s f h =
      subst (Holds k a) (sym (approval_or_new-found 0 s i new)) h
  approval_or_new-Holds none new s f h = (
    IsKeyed-put (λ b. b.id) new.id new s.approvals refl h.0,
    get-put new.id k new s.approvals ∙ ground (arith, eq_iff new.id k, h.1),
  )

  first_event-Holds :
      (r : EventReport) (sha id : String) (now : ℕ) (s : GovernanceStore)
      → Holds k a s
      → Holds k a (governance_after s (first_event r sha id now s))
  unfolding first_event
  first_event-Holds r sha id now s h =
      governance_after_bind (Holds k a) s (item r.approval_id s.approvals) _ h λ v found.
        governance_after_bind (Holds k a) s (check_target (target_of r) v.status) _ h λ _ allowed. (
          approvals_after-IsKeyed r now (target_of r) v s.approvals h.0,
          approvals_after-get r now (target_of r) v s.approvals k a h.0
              (item-get r.approval_id s.approvals v found) allowed h.1 final,
        )

  repeat_or_first-Holds :
      (o : Option String) (r : EventReport) (sha id : String) (now : ℕ) (s : GovernanceStore)
      → Holds k a s
      → Holds k a (governance_after s (repeat_or_first o r sha id now s))
  unfolding repeat_or_first
  repeat_or_first-Holds (some i) r sha id now s h =
      subst (Holds k a) (sym (repeat_event-store now s r sha i)) h
  repeat_or_first-Holds none r sha id now s h = first_event-Holds r sha id now s h

  happen-Holds :
      (payload_hash : String → String) (now : ℕ) (e : Event) (s : GovernanceStore)
      → IsFresh payload_hash e s
      → Holds k a s
      → Holds k a (happen payload_hash now e s)
  unfolding happen
  happen-Holds hash now (Event.deliver c t key id) s f h =
      same-Holds s (happen hash now (Event.deliver c t key id) s)
        (enqueue-KeepsAudit now s c t key id).0 h
  happen-Holds hash now (Event.begin j l) s f h =
      same-Holds s (happen hash now (Event.begin j l) s) (begin-KeepsAudit now s j l).0 h
  happen-Holds hash now (Event.fail j m) s f h =
      same-Holds s (happen hash now (Event.fail j m) s) (fail-KeepsAudit now s j m).0 h
  happen-Holds hash now (Event.succeed j i) s f h =
      same-Holds s (happen hash now (Event.succeed j i) s) (succeed-KeepsAudit now s j i).0 h
  happen-Holds hash now (Event.retry j) s f h =
      same-Holds s (happen hash now (Event.retry j) s) (retry-KeepsAudit now s j).0 h
  happen-Holds hash now (Event.requeue t) s f h =
      same-Holds s (happen hash now (Event.requeue t) s) (requeue-KeepsAudit now s t).0 h
  happen-Holds hash now (Event.approve c t i p pr id) s f h =
      unfold create_approval_record in approval_or_new-Holds _ _ s f h
  happen-Holds hash now (Event.hear r id) s f h =
      unfold record_approval_event in repeat_or_first-Holds _ r _ id now s h
  happen-Holds hash now (Event.report c b o d m id) s f h =
      same-Holds s (happen hash now (Event.report c b o d m id) s)
        (report-approvals now s c b o d m id) h

  Run-Holds :
      (payload_hash : String → String) {s u : GovernanceStore}
      → Holds k a s
      → Run payload_hash s u
      → Holds k a u
  Run-Holds hash h start = h
  Run-Holds hash h (next {t} r now e f eq) =
      subst (Holds k a) (sym eq) (happen-Holds hash now e t f (Run-Holds hash h r))

-- A decision is never overwritten: from a store whose approvals stand under their identifiers, an
-- approval that is decided is the same record after any events, in any order and at any times, be
-- they further events of the platform for it, signed or not.
pub decided_approval_is_kept :
    (payload_hash : String → String) {s u : GovernanceStore} (k : String) (a : ApprovalRecord)
    → AreKeyed s
    → get k s.approvals ≡ some a
    → is_terminal a.status ≡ true
    → Run payload_hash s u
    → get k u.approvals ≡ some a
decided_approval_is_kept hash k a keyed g final r = (Run-Holds k a final hash (keyed, g) r).1
