-- ===== src/Governance/Bound.antt =====
-- Decision reports in law_agent/review/governance_store.py are bound to approvals and to digests.
use mathlib.Core.Path.{subst}
use crosscomply_agent.Prelude.{
  item-get, ℕ, String, List, [], ◌∷◌, false, Option, none, some, ◌≡◌, refl, sym, ◌∙◌, get, put,
  get-put, eq_iff, ◌==◌, item, raise_if, raise_if-ok, arith, value_error, inl, inr, Dict,
  IsKeyed-get, Bool-cases, Option-cases, values, All, All-put,
}
use crosscomply_agent.Governance.Records.{
  TerminalApprovalStatus, ApprovalRecord, ReportRecord, GovernanceStore, empty_governance,
}
use crosscomply_agent.Governance.Approvals.{
  EventReport, create_approval_record, approval_or_new, record_approval_event, first_event,
  repeat_or_first, check_target, decided, target_of, is_redecided,
}
use crosscomply_agent.Governance.Reports.{
  create_report_record, report_or_new, validate_digest, is_other_case,
}
use crosscomply_agent.Governance.Events.{
  Event, happen, IsFresh, Run, start, next, governance_after, governance_after_bind,
}
use crosscomply_agent.Governance.Keeps.{
  enqueue-KeepsAudit, begin-KeepsAudit, fail-KeepsAudit, succeed-KeepsAudit, retry-KeepsAudit,
  requeue-KeepsAudit, approval_or_new-found, repeat_event-store, report_or_new-found,
}
use crosscomply_agent.Governance.Decisions.{AreKeyed, approvals_after}
use crosscomply_agent.Governance.Digest.{IsDigest, validate_digest-IsDigest}
use crosscomply_agent.Governance.Audit.{Run-IsAudited}

-- The report names an approval of its own case, and its digest is normal.
abbrev pub IsBound : Dict ApprovalRecord → ReportRecord → Type 0
IsBound d r =
    ((a : ApprovalRecord) × (get r.approval_id d ≡ some a) × (a.case_id ≡ r.case_id))
    × IsDigest r.sha256

abbrev pub AreBound : GovernanceStore → Type 0
AreBound s = All (IsBound s.approvals) (values s.reports)

-- Every approval stays, for its case.
abbrev KeepsCases : Dict ApprovalRecord → Dict ApprovalRecord → Type 0
KeepsCases d d' =
    (k : String) (a : ApprovalRecord)
    → get k d ≡ some a
    → (b : ApprovalRecord) × (get k d' ≡ some b) × (b.case_id ≡ a.case_id)

All-KeepsCases :
    (d d' : Dict ApprovalRecord) (rs : List ReportRecord)
    → KeepsCases d d'
    → All (IsBound d) rs
    → All (IsBound d') rs
All-KeepsCases d d' [] keep h = tt
All-KeepsCases d d' (r ∷ rs) keep (((a, g, c), digest), h) =
    let (b, g', c') = keep r.approval_id a g in
    (((b, g', c' ∙ c), digest), All-KeepsCases d d' rs keep h)

approvals_after-KeepsCases :
    (r : EventReport) (now : ℕ) (t : Option TerminalApprovalStatus) (v : ApprovalRecord)
    (d : Dict ApprovalRecord)
    → get r.approval_id d ≡ some v
    → v.id ≡ r.approval_id
    → KeepsCases d (approvals_after r now t v d)
unfolding decided
approvals_after-KeepsCases r now none v d g e k a h = (a, h, refl)
approvals_after-KeepsCases r now (some t) v d g e k a h =
    elim (Bool-cases (is_redecided (some t) v)) [
      | inr n ↦ (a, rw n h, refl)
      | inl n ↦ elim (Bool-cases (v.id == k)) [
        | inr ne ↦ (a, ground (arith, n, get-put v.id k (decided r now (some t) v) d, ne, h), refl)
        | inl same ↦ (
          decided r now (some t) v,
          ground (arith, n, get-put v.id k (decided r now (some t) v) d, same),
          ground (arith, eq_iff v.id k, g, e, h),
        )
      ]
    ]

same-AreBound :
    (s t : GovernanceStore)
    → t.approvals ≡ s.approvals
    → t.reports ≡ s.reports
    → AreBound s
    → AreBound t
same-AreBound s t e f h =
    subst (λ d. All (IsBound d) (values t.reports)) (sym e)
      (subst (λ rs. All (IsBound s.approvals) (values rs)) (sym f) h)

first_event-AreBound :
    (r : EventReport) (sha id : String) (now : ℕ) (s : GovernanceStore)
    → AreKeyed s
    → AreBound s
    → AreBound (governance_after s (first_event r sha id now s))
unfolding first_event
first_event-AreBound r sha id now s keyed h =
    governance_after_bind AreBound s (item r.approval_id s.approvals) _ h λ v found.
      let g = item-get r.approval_id s.approvals v found in
      governance_after_bind AreBound s (check_target (target_of r) v.status) _ h λ _ allowed.
        All-KeepsCases s.approvals _ (values s.reports)
          (approvals_after-KeepsCases r now (target_of r) v s.approvals g
            (IsKeyed-get (λ b. b.id) r.approval_id s.approvals v keyed g))
          h

repeat_or_first-AreBound :
    (o : Option String) (r : EventReport) (sha id : String) (now : ℕ) (s : GovernanceStore)
    → AreKeyed s
    → AreBound s
    → AreBound (governance_after s (repeat_or_first o r sha id now s))
unfolding repeat_or_first
repeat_or_first-AreBound (some i) r sha id now s keyed h =
    subst AreBound (sym (repeat_event-store now s r sha i)) h
repeat_or_first-AreBound none r sha id now s keyed h = first_event-AreBound r sha id now s keyed h

approval_or_new-AreBound :
    (o : Option String) (new : ApprovalRecord) (s : GovernanceStore)
    → get new.id s.approvals ≡ none
    → AreBound s
    → AreBound (governance_after s (approval_or_new o new s))
unfolding approval_or_new
approval_or_new-AreBound (some i) new s f h =
    subst AreBound (sym (approval_or_new-found 0 s i new)) h
approval_or_new-AreBound none new s f h =
    All-KeepsCases s.approvals (put new.id new s.approvals) (values s.reports)
      (λ k a g. (a, get-put new.id k new s.approvals ∙ ground (arith, eq_iff new.id k, g, f), refl))
      h

bound_of_case :
    (c b : String) (d : Dict ApprovalRecord)
    → is_other_case c (get b d) ≡ false
    → (a : ApprovalRecord) × (get b d ≡ some a) × (a.case_id ≡ c)
bound_of_case c b d h = elim (Option-cases (get b d)) [
  | inl e ↦ absurd (ground (arith, e))
  | inr (a, e) ↦ (a, e, (eq_iff a.case_id c).0 (ground (arith, e)))
]

report_or_new-AreBound :
    (o : Option String) (new : ReportRecord) (s : GovernanceStore)
    → IsBound s.approvals new
    → AreBound s
    → AreBound (governance_after s (report_or_new o new s))
unfolding report_or_new
report_or_new-AreBound (some i) new s n h = subst AreBound (sym (report_or_new-found i new s)) h
report_or_new-AreBound none new s n h = All-put (IsBound s.approvals) new.id new s.reports n h

report-AreBound :
    (c b o d m id : String) (now : ℕ) (s : GovernanceStore)
    → AreBound s
    → AreBound (governance_after s (create_report_record c b o d m id now s))
unfolding create_report_record
report-AreBound c b o d m id now s h =
    governance_after_bind AreBound s (validate_digest d) _ h λ u valid.
      governance_after_bind AreBound s (raise_if (is_other_case c (get b s.approvals)) value_error)
        _ h
        λ v same.
          report_or_new-AreBound _ _ s
            (
              bound_of_case c b s.approvals
                  (raise_if-ok (is_other_case c (get b s.approvals)) value_error same),
              validate_digest-IsDigest d valid,
            )
            h

module _ (payload_hash : String → String) where
  happen-AreBound :
      (now : ℕ) (e : Event) (s : GovernanceStore)
      → IsFresh payload_hash e s
      → AreKeyed s
      → AreBound s
      → AreBound (happen payload_hash now e s)
  unfolding happen
  happen-AreBound now (Event.deliver c t key id) s f a h =
      let k = enqueue-KeepsAudit now s c t key id in
      same-AreBound s (happen payload_hash now (Event.deliver c t key id) s) k.0 k.3 h
  happen-AreBound now (Event.begin j l) s f a h =
      let k = begin-KeepsAudit now s j l in
      same-AreBound s (happen payload_hash now (Event.begin j l) s) k.0 k.3 h
  happen-AreBound now (Event.fail j m) s f a h =
      let k = fail-KeepsAudit now s j m in
      same-AreBound s (happen payload_hash now (Event.fail j m) s) k.0 k.3 h
  happen-AreBound now (Event.succeed j i) s f a h =
      let k = succeed-KeepsAudit now s j i in
      same-AreBound s (happen payload_hash now (Event.succeed j i) s) k.0 k.3 h
  happen-AreBound now (Event.retry j) s f a h =
      let k = retry-KeepsAudit now s j in
      same-AreBound s (happen payload_hash now (Event.retry j) s) k.0 k.3 h
  happen-AreBound now (Event.requeue t) s f a h =
      let k = requeue-KeepsAudit now s t in
      same-AreBound s (happen payload_hash now (Event.requeue t) s) k.0 k.3 h
  happen-AreBound now (Event.approve c t i p pr id) s f a h =
      unfold create_approval_record in approval_or_new-AreBound _ _ s f h
  happen-AreBound now (Event.hear r id) s f a h =
      unfold record_approval_event in repeat_or_first-AreBound _ r _ id now s a h
  happen-AreBound now (Event.report c b o d m id) s f a h = report-AreBound c b o d m id now s h

  -- In every store that is reached from the empty one, by any methods in any order, each decision
  -- report names an approval that is stored and of the report's own case, and its digest is 64
  -- lower-case hexadecimal digits.
  pub Run-AreBound : {s : GovernanceStore} → Run payload_hash empty_governance s → AreBound s
  Run-AreBound start = tt
  Run-AreBound (next {t} r now e f eq) =
      subst AreBound (sym eq)
        (happen-AreBound now e t f (Run-IsAudited payload_hash r).0 (Run-AreBound r))
