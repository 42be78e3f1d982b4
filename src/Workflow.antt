-- ===== src/Workflow.antt =====
-- law_agent/review/workflow.py: the lifecycle of a case, and where a finished review sends it.
--
-- `CASE_TRANSITIONS` is the function `case_transitions`, a status to the list of its targets.
-- A review's payload is read through the keys that the module reads, at the types that the
-- agent's report gives them: a missing key and Python's `or {}`, `or []` are the absent value.
pub mod Strip
pub mod Lifecycle
pub mod Histories
pub mod Routing
use crosscomply_agent.Prelude.{
  ℕ, String, Bool, true, false, not, ◌&&◌, ◌||◌, Option, none, some, List, [], ◌∷◌, map, ◌==◌, ◌!=◌,
  nat_eq, any, select, Result, ok, err, value_error, if◌then◌else◌, raise_if, ◌>>=◌, ◌>>◌, is_none,
}
use Strip.{strip}

pub data CaseStatus : Type 0 where
  draft needs_info pending_review review_running pending_source_verification : CaseStatus
  pending_feishu_approval approved conditionally_approved rejected run_failed : CaseStatus

pub data TransitionAuthority : Type 0 where
  local feishu : TransitionAuthority

pub data ApprovalDecision : Type 0 where
  approved conditionally_approved rejected withdrawn : ApprovalDecision

-- The position of a status in its declaration, by which two statuses are compared.
abbrev pub case_status_index : CaseStatus → ℕ
case_status_index draft = 0
case_status_index needs_info = 1
case_status_index pending_review = 2
case_status_index review_running = 3
case_status_index pending_source_verification = 4
case_status_index pending_feishu_approval = 5
case_status_index CaseStatus.approved = 6
case_status_index CaseStatus.conditionally_approved = 7
case_status_index CaseStatus.rejected = 8
case_status_index run_failed = 9

abbrev pub case_status_eq : CaseStatus → CaseStatus → Bool
case_status_eq a b = nat_eq (case_status_index a) (case_status_index b)

unfoldable pub case_transitions : CaseStatus → List CaseStatus
case_transitions draft = needs_info ∷ pending_review ∷ []
case_transitions needs_info = draft ∷ pending_review ∷ review_running ∷ []
case_transitions pending_review = needs_info ∷ review_running ∷ []
case_transitions review_running =
    needs_info ∷ pending_source_verification ∷ pending_feishu_approval ∷ run_failed ∷ []
case_transitions pending_source_verification = review_running ∷ []
case_transitions pending_feishu_approval =
    CaseStatus.approved ∷ CaseStatus.conditionally_approved ∷ CaseStatus.rejected ∷ []
case_transitions CaseStatus.approved = []
case_transitions CaseStatus.conditionally_approved = []
case_transitions CaseStatus.rejected = []
case_transitions run_failed =
    review_running ∷ needs_info ∷ pending_source_verification ∷ pending_feishu_approval ∷ []

unfoldable pub feishu_terminal_status : ApprovalDecision → CaseStatus
feishu_terminal_status ApprovalDecision.approved = CaseStatus.approved
feishu_terminal_status ApprovalDecision.conditionally_approved = CaseStatus.conditionally_approved
feishu_terminal_status ApprovalDecision.rejected = CaseStatus.rejected
feishu_terminal_status ApprovalDecision.withdrawn = CaseStatus.rejected

unfoldable pub next_status_after_review : Bool → CaseStatus
next_status_after_review has_missing_information =
    if has_missing_information then needs_info else pending_feishu_approval

-- `target in {"approved", "conditionally_approved", "rejected"}`
abbrev pub is_decided : CaseStatus → Bool
is_decided s =
    any (case_status_eq s)
      (CaseStatus.approved ∷ CaseStatus.conditionally_approved ∷ CaseStatus.rejected ∷ [])

abbrev pub is_feishu : TransitionAuthority → Bool
is_feishu local = false
is_feishu feishu = true

-- The test on the decision: absent, or standing for another status than the target.
abbrev pub decides : Option ApprovalDecision → CaseStatus → Bool
decides none target = false
decides (some d) target = case_status_eq target (feishu_terminal_status d)

unfoldable pub validate_case_transition :
    CaseStatus → CaseStatus → TransitionAuthority → Option ApprovalDecision → Result CaseStatus
unfolding case_transitions feishu_terminal_status
validate_case_transition current target authority approval_decision =
    if case_status_eq target current
    then ok target
    else if not (any (case_status_eq target) (case_transitions current))
    then err value_error
    else if is_decided target
    then (if not (is_feishu authority) || is_none approval_decision
        then err value_error
        else if not (decides approval_decision target)
        then err value_error
        else ok target)
    else ok target

pub record ReviewResult : Type 0 where
  pub risk_level : String
  pub missing_information : List String
  pub legal_basis_gaps : List String

pub record SemanticGrounding : Type 0 where
  pub status : String
  pub missing_facts : List String

pub record ReviewPayload : Type 0 where
  pub review_result : Option ReviewResult
  pub web_impact : Option String
  pub freshness_hold : Bool
  pub semantic_grounding : Option SemanticGrounding
  pub evidence_self_check : Option String

-- The truth of a list.
abbrev pub has_items {ℓ} : {A : Type ℓ} → List A → Bool
has_items [] = false
has_items (x ∷ xs) = true

-- `payload.get("review_result") or {}`, read at each key.
abbrev pub gaps_of : ReviewPayload → List String
gaps_of p = elim p.review_result [ none ↦ [] | some r ↦ r.legal_basis_gaps ]

abbrev pub missing_of : ReviewPayload → List String
missing_of p = elim p.review_result [ none ↦ [] | some r ↦ r.missing_information ]

abbrev pub is_text : Option String → String → Bool
is_text none s = false
is_text (some t) s = t == s

abbrev pub risk_of : ReviewPayload → Option String
risk_of p = elim p.review_result [ none ↦ none | some r ↦ some r.risk_level ]

unfoldable pub review_needs_source_verification : ReviewPayload → Bool
review_needs_source_verification p =
    has_items (gaps_of p) || is_text p.web_impact "core" || p.freshness_hold

abbrev pub missing_facts_of : ReviewPayload → List String
missing_facts_of p = elim p.semantic_grounding [ none ↦ [] | some g ↦ g.missing_facts ]

abbrev pub grounding_of : ReviewPayload → Option String
grounding_of p = elim p.semantic_grounding [ none ↦ none | some g ↦ some g.status ]

-- `status in {"unsupported", "uncertain", "not_run"}`
abbrev pub is_ungrounded : Option String → Bool
is_ungrounded s = is_text s "unsupported" || is_text s "uncertain" || is_text s "not_run"

unfoldable pub review_has_missing_information : ReviewPayload → Bool
review_has_missing_information p =
    is_text (risk_of p) "insufficient_evidence"
    || has_items (missing_of p)
    || review_needs_source_verification p
    || has_items (missing_facts_of p)
    || is_ungrounded (grounding_of p)
    || is_text p.evidence_self_check "insufficient"

-- The texts of the set `xs - ys`; only whether there is one is asked.
abbrev pub outside : List String → List String → List String
outside xs ys = select (λ x. not (any (λ y. x == y) ys)) xs

-- The questions that are no restated gap: stripped, not empty, and none of the stripped gaps.
unfoldable pub business_questions : ReviewPayload → List String
business_questions p =
    outside (select (λ s. s != "") (map strip (missing_of p))) (map strip (gaps_of p))

unfoldable pub review_requires_retry : ReviewPayload → Bool
review_requires_retry p =
    review_has_missing_information p
    && not (review_needs_source_verification p)
    && not (has_items (business_questions p))
