-- ===== src/Assessment/Drafts.antt =====
-- Drafts of remediation tasks, in law_agent/review/remediation.py: each names a real source.
use crosscomply_agent.Prelude.{
  ℕ, String, Bool, false, not, ◌&&◌, Option, none, some, List, [], ◌∷◌, ltb, suc, zero, length, any,
  is_none, Result, ok, value_error, raise_if, ◌>>=◌, ◌>>◌,
}
use crosscomply_agent.Workflow.{is_text}

-- `negsuc n` is -(n + 1).
pub data ℤ : Type 0 where
  pos : ℕ → ℤ
  negsuc : ℕ → ℤ

pub record RemediationTaskDraft : Type 0 where
  pub title : String
  pub description : String
  pub acceptance_criteria : String
  pub priority : String
  pub source_issue_id : Option String
  pub source_recommendation_index : Option ℤ
  pub suggested_assignee_role : String
  pub suggested_due_days : ℕ

-- A draft's fields, and the text of the recommendation that it names.
pub record ValidatedDraft : Type 0 where
  pub draft : RemediationTaskDraft
  pub source_recommendation : Option String

abbrev pub get_elem? {ℓ} : {A : Type ℓ} → List A → ℕ → Option A
get_elem? [] i = none
get_elem? (x ∷ xs) zero = some x
get_elem? (x ∷ xs) (suc i) = get_elem? xs i

-- `issue_id in issue_ids`, where an issue may lack its identifier.
abbrev pub is_issue_of : List (Option String) → String → Bool
is_issue_of issue_ids id = any (λ i. is_text i id) issue_ids

-- `0 <= index < len(recommendations)`
abbrev pub is_index_of : List String → ℤ → Bool
is_index_of recommendations (pos n) = ltb n (length recommendations)
is_index_of recommendations (negsuc n) = false

-- The three guards.
abbrev pub is_unbound : RemediationTaskDraft → Bool
is_unbound d = is_none d.source_issue_id && is_none d.source_recommendation_index

abbrev pub has_foreign_issue : List (Option String) → Option String → Bool
has_foreign_issue issue_ids none = false
has_foreign_issue issue_ids (some id) = not (is_issue_of issue_ids id)

abbrev pub has_foreign_index : List String → Option ℤ → Bool
has_foreign_index recommendations none = false
has_foreign_index recommendations (some index) = not (is_index_of recommendations index)

-- `recommendations[index] if index is not None else None`, behind the guards.
abbrev pub recommendation_at : List String → Option ℤ → Option String
recommendation_at recommendations none = none
recommendation_at recommendations (some (pos n)) = get_elem? recommendations n
recommendation_at recommendations (some (negsuc n)) = none

abbrev pub bound : List String → RemediationTaskDraft → ValidatedDraft
bound recommendations d = record {
  draft = d;
  source_recommendation = recommendation_at recommendations d.source_recommendation_index;
}

unfoldable pub validate_task_drafts :
    List (Option String) → List String → List RemediationTaskDraft → Result (List ValidatedDraft)
validate_task_drafts issue_ids recommendations [] = ok []
validate_task_drafts issue_ids recommendations (d ∷ ds) = do
  raise_if (is_unbound d) value_error
  raise_if (has_foreign_issue issue_ids d.source_issue_id) value_error
  raise_if (has_foreign_index recommendations d.source_recommendation_index) value_error
  validated ← validate_task_drafts issue_ids recommendations ds
  ok (bound recommendations d ∷ validated)
