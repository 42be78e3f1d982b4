-- ===== src/Tests/Assessment.antt =====
-- The gate on assessments and the tasks that a review leaves, on concrete inputs
-- (law_agent/review/remediation.py).
use crosscomply_agent.Prelude.{
  ℕ, ◌+◌, ◌≡◌, ◌↔◌, ◌≢◌, refl, String, false, none, some, List, [], ◌∷◌, map, select, All, ok, err,
  value_error,
}
use crosscomply_agent.Workflow.{ReviewResult, ReviewPayload}
use crosscomply_agent.Workflow.Strip.{strip}
use crosscomply_agent.Remediation.Records.{empty_remediation}
use crosscomply_agent.Assessment.Text.{len, take, find_text, find_from}
use crosscomply_agent.Assessment.Locate.{StandsOnceAt, locate_iff}
use crosscomply_agent.Assessment.Packet.{
  RereviewAttachment, RereviewPacket, build_rereview_packet, attachment_texts, attachment_sha256,
}
use crosscomply_agent.Assessment.Gate.{
  BasisSource, AssessmentStatus, RemediationAssessmentDraft, FinalAssessment, locate, ground_source,
  ground_basis, ground_all, ground_points, finalize_assessment,
}
use crosscomply_agent.Assessment.Grounding.{IsGrounded}
use crosscomply_agent.Assessment.Trust.{IsConclusive, finalize_assessment-IsTrusted}
use crosscomply_agent.Assessment.Drafts.{
  pos, negsuc, RemediationTaskDraft, bound, validate_task_drafts,
}
use crosscomply_agent.Assessment.Sources.{HasRealSource, AreOf, validate_task_drafts_iff}
use crosscomply_agent.Assessment.Guided.{
  ReviewDetails, open_questions, fact_issues, single_spaced, without_spaces, control_action,
  fact_action, fact_actions, later_action, later_actions_from, guided_actions_from_review,
}
use crosscomply_agent.Assessment.Ranks.{has_rank}
use crosscomply_agent.Assessment.Questions.{IsEachOnce, guided_actions_ask_questions}
use crosscomply_agent.Assessment.Reconcile.{
  IsRoutedBy, reconcile_guided_action_list, reconcile_guided_action_list_lem,
}

abbrev annex : RereviewAttachment
annex = record {
  evidence_id = "e1";
  kind = "file";
  label = "annex";
  text = some "The data stays in Berlin. Access is logged.";
  sha256 = some "aa";
  uri = none;
}

abbrev packet : RereviewPacket
unfolding build_rereview_packet
packet =
    build_rereview_packet "prompt" (some "control_remediation") (some "issue1") (some "we moved it")
      [] [] [] (annex ∷ [])

abbrev draft : RemediationAssessmentDraft
draft = record {
  status = AssessmentStatus.resolved;
  summary = "done";
  confirmed_points =
      record {
        text = "The data stays in the country.";
        basis =
            record {
              source = BasisSource.attachment;
              reference = " e1 ";
              quote = "stays in Berlin";
            }
            ∷ [];
      }
      ∷ [];
  remaining_gaps = [];
  next_request = "";
}

abbrev accepted : FinalAssessment
accepted = record {
  status = AssessmentStatus.resolved;
  summary = "done";
  confirmed_points =
      record {
        text = "The data stays in the country.";
        basis =
            record {
              source = BasisSource.attachment;
              reference = "e1";
              quote = "stays in Berlin";
              span = some (9, 24);
              sha256 = some (some "aa");
            }
            ∷ [];
      }
      ∷ [];
  remaining_gaps = [];
  next_request = "";
  grounded_evidence =
      record {
        source = BasisSource.attachment;
        reference = "e1";
        quote = "stays in Berlin";
        span = some (9, 24);
        sha256 = some (some "aa");
      }
      ∷ [];
}

draft_is_accepted : finalize_assessment draft packet ≡ ok accepted
unfolding strip find_text find_from attachment_texts attachment_sha256 locate ground_source
    ground_basis ground_all ground_points finalize_assessment packet
draft_is_accepted = refl

-- A quote that stands twice is refused.
repeated_quote : locate "a b a" "a" ≡ err value_error
unfolding strip find_text find_from locate
repeated_quote = refl

locate_iff_example :
    (locate "one two" "two" ≡ ok (4, 7))
    ↔ ((strip "two" ≢ "") × StandsOnceAt "two" 4 "one two" × ◌≡◌ {A = ℕ} 7 (4 + len "two"))
locate_iff_example = locate_iff "one two" "two" 4 7

finalize_assessment-IsTrusted_example :
    All (IsGrounded packet) accepted.grounded_evidence
    × IsConclusive accepted.status packet accepted
finalize_assessment-IsTrusted_example =
    finalize_assessment-IsTrusted draft packet accepted draft_is_accepted

abbrev task_draft : RemediationTaskDraft
task_draft = record {
  title = "Sign the contract";
  description = "";
  acceptance_criteria = "";
  priority = "medium";
  source_issue_id = none;
  source_recommendation_index = some (pos 1);
  suggested_assignee_role = "requester";
  suggested_due_days = 14;
}

abbrev recommendations : List String
recommendations = "first" ∷ "second" ∷ []

validate_task_drafts_iff_example :
    (validate_task_drafts [] recommendations (task_draft ∷ [])
      ≡ ok (bound recommendations task_draft ∷ []))
    ↔ (All (HasRealSource [] recommendations) (task_draft ∷ [])
        × AreOf recommendations (task_draft ∷ []) (bound recommendations task_draft ∷ []))
validate_task_drafts_iff_example =
    validate_task_drafts_iff [] recommendations (task_draft ∷ [])
      (bound recommendations task_draft ∷ [])

negative_index :
    validate_task_drafts [] recommendations
      (record task_draft { source_recommendation_index = some (negsuc 0) } ∷ [])
    ≡ err value_error
unfolding validate_task_drafts
negative_index = refl

abbrev result : ReviewResult
result = record {
  risk_level = "high";
  missing_information = " Where is it stored? " ∷ "A law" ∷ "Where is it stored?" ∷ [];
  legal_basis_gaps = "A law" ∷ [];
}

abbrev details : ReviewDetails
details = record {
  review_result_id = some "r1";
  issues =
      record {
        id = some "i1";
        kind = some "legal_gap";
        title = some "No contract";
        finding = none;
        recommended_action = none;
        unknowns = [];
        answer_type = none;
      }
      ∷ [];
  missing_answer_types = ("Where is it stored?", "text") ∷ [];
  recommended_actions = "定期 check" ∷ "now" ∷ [];
}

abbrev same : String → String
same s = s

guided_titles :
    map (λ t. t.title) (guided_actions_from_review same same result details none)
    ≡ "Where is it stored?" ∷ "No contract" ∷ "定期 check" ∷ []
unfolding strip open_questions fact_issues single_spaced without_spaces control_action fact_action
    fact_actions later_action later_actions_from guided_actions_from_review
guided_titles = refl

guided_actions_ask_questions_example :
    (qs : List String) × IsEachOnce
      (map strip result.legal_basis_gaps)
      []
      (map strip result.missing_information)
      qs
    × (map
          (λ t. t.title)
          (select (has_rank 0) (guided_actions_from_review same same result details none))
        ≡ map (take 200) qs)
guided_actions_ask_questions_example = guided_actions_ask_questions same same result details none

abbrev review : ReviewPayload
review = record {
  review_result = some result;
  web_impact = some "none";
  freshness_hold = false;
  semantic_grounding = none;
  evidence_self_check = some "sufficient";
}

reconcile_guided_action_list_example :
    IsRoutedBy review
      (reconcile_guided_action_list same same "case" "ann" none review details "plan"
        (λ n. "task")
        5
        empty_remediation).0
reconcile_guided_action_list_example =
    reconcile_guided_action_list_lem same same "case" "ann" none review details "plan" (λ n. "task")
      5 empty_remediation
