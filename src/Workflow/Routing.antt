-- ===== src/Workflow/Routing.antt =====
-- Where the payload of a finished review sends its task.
use crosscomply_agent.Prelude.{
  Bool, true, false, not, ◌≡◌, refl, ap, String, List, [], ◌∷◌, map, arith, Bool-cases, inl, inr,
  ◌↔◌, ◌==◌, ◌!=◌, all, select,
}
use crosscomply_agent.Workflow.{
  ReviewPayload, has_items, gaps_of, missing_of, outside, review_needs_source_verification,
  review_has_missing_information, business_questions, review_requires_retry, is_text, is_ungrounded,
  grounding_of, risk_of,
}
use crosscomply_agent.Workflow.Strip.{strip}

-- A question of nothing but white space.
abbrev pub is_blank : String → Bool
is_blank s = strip s == ""

outside-nil : (xs : List String) → outside xs [] ≡ xs
outside-nil [] = refl
outside-nil (x ∷ xs) = ap (λ l. x ∷ l) (outside-nil xs)

gaps-nil : (p : ReviewPayload) → review_needs_source_verification p ≡ false → gaps_of p ≡ []
unfolding review_needs_source_verification
gaps-nil p h = ground arith

has_items-blank :
    (xs : List String) → has_items (select (λ s. s != "") (map strip xs)) ≡ not (all is_blank xs)
has_items-blank [] = refl
has_items-blank (x ∷ xs) = ground (arith, has_items-blank xs)

business_questions_of_no_gaps :
    (p : ReviewPayload)
    → gaps_of p ≡ []
    → has_items (business_questions p) ≡ not (all is_blank (missing_of p))
unfolding business_questions
business_questions_of_no_gaps p h = rw h (rw outside-nil (has_items-blank (missing_of p)))

-- The gaps that the code subtracts from the questions never matter: a finished review is to be
-- run again exactly when it misses information, no source has to be verified, and every question
-- that it asks is blank.
pub review_requires_retry_iff :
    (p : ReviewPayload)
    → (review_requires_retry p ≡ true) ↔ (
        (review_has_missing_information p ≡ true)
        × (review_needs_source_verification p ≡ false)
        × (all is_blank (missing_of p) ≡ true))
unfolding review_requires_retry
review_requires_retry_iff p = elim (Bool-cases (review_needs_source_verification p)) [
  | inl e ↦ (ground (arith, e), ground (arith, e))
  | inr e ↦ (
    ground (arith, e, business_questions_of_no_gaps p (gaps-nil p e)),
    ground (arith, e, business_questions_of_no_gaps p (gaps-nil p e)),
  )
]

-- A review in which nothing is missing is complete: it is neither run again nor sent to verify
-- sources, its evidence is grounded and its risk is decided.
pub complete_review :
    (p : ReviewPayload)
    → review_has_missing_information p ≡ false
    → (review_requires_retry p ≡ false)
      × (review_needs_source_verification p ≡ false)
      × (gaps_of p ≡ [])
      × (missing_of p ≡ [])
      × (is_ungrounded (grounding_of p) ≡ false)
      × (is_text (risk_of p) "insufficient_evidence" ≡ false)
unfolding review_requires_retry review_has_missing_information review_needs_source_verification
complete_review p h =
    (ground arith, ground arith, ground arith, ground arith, ground arith, ground arith)
