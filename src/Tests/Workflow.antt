-- ===== src/Tests/Workflow.antt =====
-- The lifecycle of a case and the routing of a review on concrete inputs
-- (law_agent/review/workflow.py).
use crosscomply_agent.Prelude.{
  true, false, ◌≡◌, refl, ◌↔◌, none, some, List, [], ◌∷◌, map, ok, err, value_error,
}
use crosscomply_agent.Workflow.{
  CaseStatus, draft, pending_review, review_running, pending_feishu_approval, feishu, local,
  ApprovalDecision, validate_case_transition, next_status_after_review, ReviewPayload,
  review_requires_retry, review_has_missing_information, review_needs_source_verification,
  business_questions,
}
use crosscomply_agent.Workflow.Strip.{strip}
use crosscomply_agent.Workflow.Lifecycle.{IsPermitted, validate_iff}
use crosscomply_agent.Workflow.Histories.{
  Request, apply_requests, IsDecidedBy, apply_requests-IsDecidedBy, open_case_reaches_approval,
}

workflow : Unit {0}
unfolding validate_case_transition next_status_after_review review_requires_retry
    review_has_missing_information review_needs_source_verification business_questions strip
workflow = tt

abbrev approve : Request
approve = record {
  target = CaseStatus.approved;
  authority = feishu;
  decision = some ApprovalDecision.approved;
}

abbrev start : Request
start = record { target = review_running; authority = local; decision = none }

-- A withdrawn approval cannot approve, and the program alone cannot either.
refused_decisions :
    (validate_case_transition pending_feishu_approval CaseStatus.approved feishu
        (some ApprovalDecision.withdrawn)
      ≡ err value_error)
    × (validate_case_transition pending_feishu_approval CaseStatus.approved local
          (some ApprovalDecision.approved)
        ≡ err value_error)
    × (validate_case_transition draft review_running local none ≡ err value_error)
unfolding workflow
refused_decisions = (refl, refl, refl)

stripped : (strip " \ta b" ≡ "a b") × (strip " \n " ≡ "")
unfolding workflow
stripped = (refl, refl)

abbrev blank_question : ReviewPayload
blank_question = record {
  review_result =
      some (record { risk_level = "high"; missing_information = "  " ∷ []; legal_basis_gaps = [] });
  web_impact = some "none";
  freshness_hold = false;
  semantic_grounding = some (record { status = "supported"; missing_facts = [] });
  evidence_self_check = some "sufficient";
}

abbrev complete : ReviewPayload
complete = record blank_question {
  review_result =
      some (record { risk_level = "high"; missing_information = []; legal_basis_gaps = [] });
}

routed :
    (review_requires_retry blank_question ≡ true)
    × (review_has_missing_information complete ≡ false)
unfolding workflow
routed = (refl, refl)

validate_iff_example :
    (validate_case_transition draft pending_review local none ≡ ok pending_review)
    ↔ IsPermitted draft pending_review local none
validate_iff_example = validate_iff draft pending_review local none

apply_requests-IsDecidedBy_example :
    IsDecidedBy
      (start ∷ approve ∷ [])
      (apply_requests pending_feishu_approval (start ∷ approve ∷ []))
unfolding workflow
apply_requests-IsDecidedBy_example =
    apply_requests-IsDecidedBy pending_feishu_approval (start ∷ approve ∷ []) refl refl

open_case_reaches_approval_example :
    (ts : List CaseStatus) × (apply_requests draft
        (map (λ t. record { target = t; authority = local; decision = none }) ts)
      ≡ pending_feishu_approval)
open_case_reaches_approval_example = open_case_reaches_approval draft refl
