-- ===== src/Workflow/Histories.antt =====
-- Whole histories of a case: what a sequence of requested changes can lead to.
use mathlib.Core.List.{Memᴰ}
use mathlib.Core.Path.{subst}
use crosscomply_agent.Prelude.{
  Bool, true, false, ◌≡◌, refl, ◌∙◌, sym, ap, Option, none, some, List, [], ◌∷◌, map, arith, Result,
  ok, err, inl, inr, ◌⊎◌, Bool-cases,
}
use crosscomply_agent.Workflow.{
  CaseStatus, draft, needs_info, pending_review, review_running, pending_source_verification,
  pending_feishu_approval, run_failed, TransitionAuthority, feishu, local, ApprovalDecision,
  is_decided, feishu_terminal_status, validate_case_transition, next_status_after_review,
}
use crosscomply_agent.Workflow.Lifecycle.{
  Follows, submit, IsPermitted, stay, move, decide, validate_iff, validate_cases,
}

-- A requested change of the status of a case.
pub record Request : Type 0 where
  pub target : CaseStatus
  pub authority : TransitionAuthority
  pub decision : Option ApprovalDecision

-- A refused request leaves the case as it is.
abbrev keep_or : CaseStatus → Result CaseStatus → CaseStatus
keep_or s (ok t) = t
keep_or s (err e) = s

abbrev apply_request : CaseStatus → Request → CaseStatus
apply_request s r = keep_or s (validate_case_transition s r.target r.authority r.decision)

abbrev pub apply_requests : CaseStatus → List Request → CaseStatus
apply_requests s [] = s
apply_requests s (r ∷ rs) = apply_requests (apply_request s r) rs

Follows-undecided : {s t : CaseStatus} → Follows s t → is_decided s ≡ false
Follows-undecided submit = refl
Follows-undecided _ = refl

Follows-ne-decided : {s t : CaseStatus} → Follows s t → is_decided t ≡ false
Follows-ne-decided submit = refl
Follows-ne-decided _ = refl

-- A request is refused and keeps the status, or is permitted and takes the case to its target.
apply_request-cases :
    (s : CaseStatus) (r : Request)
    → (apply_request s r ≡ s)
      ⊎ ((apply_request s r ≡ r.target) × IsPermitted s r.target r.authority r.decision)
apply_request-cases s r = elim (validate_cases s r.target r.authority r.decision) [
  | inl e ↦ inr (ap (keep_or s) e, (validate_iff s r.target r.authority r.decision).0 e)
  | inr e ↦ inl (ap (keep_or s) e)
]

permitted-decided :
    (s t : CaseStatus) (a : TransitionAuthority) (d : Option ApprovalDecision)
    → is_decided s ≡ true
    → IsPermitted s t a d
    → t ≡ s
permitted-decided s t a d h (stay e) = e
permitted-decided s t a d h (move f) = absurd (ground (arith, Follows-undecided f))
permitted-decided s t a d h (decide _ e i j k) = absurd (ground arith)

apply_request-decided : (s : CaseStatus) (r : Request) → is_decided s ≡ true → apply_request s r ≡ s
apply_request-decided s r h = elim (apply_request-cases s r) [
  | inl e ↦ e
  | inr p ↦ p.0 ∙ permitted-decided s r.target r.authority r.decision h p.1
]

-- A decision is final: after it no sequence of requests changes the status of the case.
pub apply_requests-decided :
    (s : CaseStatus) (rs : List Request) → is_decided s ≡ true → apply_requests s rs ≡ s
apply_requests-decided s [] h = refl
apply_requests-decided s (r ∷ rs) h =
    rw (apply_request-decided s r h) (apply_requests-decided s rs h)

-- A decision that the platform took: one of the requests brought it, and the status stands for it.
pub record IsDecidedBy (rs : List Request) (s : CaseStatus) : Type 0 where
  pub request : Request
  pub listed : Memᴰ request rs
  pub authority : request.authority ≡ feishu
  pub decision : ApprovalDecision
  pub carried : request.decision ≡ some decision
  pub stands : s ≡ feishu_terminal_status decision

IsDecidedBy-cons :
    {rs : List Request} {s : CaseStatus} (r : Request) → IsDecidedBy rs s → IsDecidedBy (r ∷ rs) s
IsDecidedBy-cons r h = record {
  request = h.request;
  listed = Memᴰ.tail h.listed;
  authority = h.authority;
  decision = h.decision;
  carried = h.carried;
  stands = h.stands;
}

-- The first request that leaves an undecided case decided brought the decision.
IsDecidedBy-permitted :
    (s : CaseStatus) (r : Request) (rs : List Request)
    → is_decided s ≡ false
    → is_decided r.target ≡ true
    → IsPermitted s r.target r.authority r.decision
    → IsDecidedBy (r ∷ rs) r.target
IsDecidedBy-permitted s r rs u h (stay e) = absurd (ground arith)
IsDecidedBy-permitted s r rs u h (move f) = absurd (ground (arith, Follows-ne-decided f))
IsDecidedBy-permitted s r rs u h (decide d e i j k) = record {
  request = r;
  listed = Memᴰ.head refl;
  authority = i;
  decision = d;
  carried = j;
  stands = k;
}

IsDecidedBy-step :
    (s : CaseStatus) (r : Request) (rs : List Request)
    → is_decided s ≡ false
    → is_decided (apply_request s r) ≡ true
    → IsDecidedBy (r ∷ rs) (apply_request s r)
IsDecidedBy-step s r rs u h = elim (apply_request-cases s r) [
  | inl e ↦ absurd (ground (arith, e))
  | inr p ↦
      subst (IsDecidedBy (r ∷ rs)) (sym p.0)
        (IsDecidedBy-permitted s r rs u (ap is_decided (sym p.0) ∙ h) p.1)
]

-- No case is decided but by the approval platform: if a case that is open comes to be approved,
-- conditionally approved or rejected, then one of the requests came with the platform's authority
-- and carried a decision, and the status is the one that stands for that decision.
pub apply_requests-IsDecidedBy :
    (s : CaseStatus) (rs : List Request)
    → is_decided s ≡ false
    → is_decided (apply_requests s rs) ≡ true
    → IsDecidedBy rs (apply_requests s rs)
apply_requests-IsDecidedBy s [] u h = absurd (ground arith)
apply_requests-IsDecidedBy s (r ∷ rs) u h = elim (Bool-cases (is_decided (apply_request s r))) [
  | inl e ↦
      subst (IsDecidedBy (r ∷ rs)) (sym (apply_requests-decided (apply_request s r) rs e))
        (IsDecidedBy-step s r rs u e)
  | inr e ↦ IsDecidedBy-cons r (apply_requests-IsDecidedBy (apply_request s r) rs e h)
]

-- The changes that lead an open case to the approval platform, none of which needs a decision.
abbrev to_approval : CaseStatus → List CaseStatus
to_approval draft = pending_review ∷ review_running ∷ pending_feishu_approval ∷ []
to_approval needs_info = review_running ∷ pending_feishu_approval ∷ []
to_approval pending_review = review_running ∷ pending_feishu_approval ∷ []
to_approval review_running = pending_feishu_approval ∷ []
to_approval pending_source_verification = review_running ∷ pending_feishu_approval ∷ []
to_approval run_failed = pending_feishu_approval ∷ []
to_approval _ = []

abbrev locally : CaseStatus → Request
locally t = record { target = t; authority = local; decision = none }

-- An open case is never stuck: there are changes under local authority, with no decision, which
-- bring it to the status in which the approval platform decides.
pub open_case_reaches_approval :
    (s : CaseStatus)
    → is_decided s ≡ false
    → (ts : List CaseStatus) × (apply_requests s (map locally ts) ≡ pending_feishu_approval)
unfolding validate_case_transition
open_case_reaches_approval draft h = (to_approval draft, refl)
open_case_reaches_approval needs_info h = (to_approval needs_info, refl)
open_case_reaches_approval pending_review h = (to_approval pending_review, refl)
open_case_reaches_approval review_running h = (to_approval review_running, refl)
open_case_reaches_approval pending_source_verification h =
    (to_approval pending_source_verification, refl)
open_case_reaches_approval pending_feishu_approval h = ([], refl)
open_case_reaches_approval run_failed h = (to_approval run_failed, refl)
open_case_reaches_approval s h = absurd (ground arith)

-- The route that `next_status_after_review` takes is open to the program itself, whether
-- information is missing or not, from a review that runs and from one that failed.
pub next_status_after_review-accepted :
    (missing : Bool)
    → (validate_case_transition review_running (next_status_after_review missing) local none
        ≡ ok (next_status_after_review missing))
      × (validate_case_transition run_failed (next_status_after_review missing) local none
          ≡ ok (next_status_after_review missing))
unfolding validate_case_transition next_status_after_review
next_status_after_review-accepted true = (refl, refl)
next_status_after_review-accepted false = (refl, refl)
