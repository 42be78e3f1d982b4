-- ===== src/Assessment/Questions.antt =====
-- The questions that a review asks as tasks, in law_agent/review/remediation.py.
use mathlib.Core.Path.{subst}
use crosscomply_agent.Prelude.{
  ◌≡◌, ◌≢◌, refl, sym, ◌↔◌, String, Bool, Bool-cases, true, false, List, Option, [], ◌∷◌, ◌==◌,
  ◌!=◌, not, ◌&&◌, ◌⊎◌, inl, inr, map, select, eq_iff, or_true, and_true, arith,
}
use crosscomply_agent.Workflow.{ReviewResult}
use crosscomply_agent.Workflow.Strip.{strip}
use crosscomply_agent.Assessment.Text.{take}
use crosscomply_agent.Assessment.Packet.{is_in}
use crosscomply_agent.Assessment.Guided.{
  unique, unique_from, open_questions, ReviewDetails, guided_actions_from_review,
}
use crosscomply_agent.Assessment.Ranks.{has_rank}
use crosscomply_agent.Assessment.Actions.{guided_actions-titles}

abbrev pub IsOneOf : String → List String → Type 0
IsOneOf x [] = ⊥
IsOneOf x (y ∷ ys) = (x ≡ y) ⊎ IsOneOf x ys

-- A missing fact is asked for if it says something and is no gap in the legal basis.
abbrev pub IsAskable : List String → String → Type 0
IsAskable gaps q = (q ≢ "") × (IsOneOf q gaps → ⊥)

-- The second list has the texts of the first that are askable, each where it first stands and
-- nowhere else; those of `seen` stood before.
abbrev pub IsEachOnce : List String → List String → List String → List String → Type 0
IsEachOnce gaps seen [] qs = qs ≡ []
IsEachOnce gaps seen (x ∷ xs) qs =
    (((IsAskable gaps x → ⊥) ⊎ IsOneOf x seen) × IsEachOnce gaps seen xs qs)
    ⊎ (IsAskable gaps x
        × (IsOneOf x seen → ⊥)
        × ((rest : List String) × (qs ≡ x ∷ rest) × IsEachOnce gaps (x ∷ seen) xs rest))

is_in-one : (xs : List String) (x : String) → (is_in xs x ≡ true) ↔ IsOneOf x xs
is_in-one [] x = ((λ h. cc), (λ h. absurd h))
is_in-one (y ∷ ys) x = (
  (λ h. elim (or_true (x == y) (is_in ys x) h) [
    | inl e ↦ inl ((eq_iff x y).0 e)
    | inr e ↦ inr ((is_in-one ys x).0 e)
  ]),
  (λ h. elim h [
    | inl e ↦ rw ((eq_iff x y).1 e) refl
    | inr e ↦ elim (Bool-cases (x == y)) [ inl f ↦ rw f refl | inr f ↦ rw f ((is_in-one ys x).1 e) ]
  ]),
)

abbrev is_asked : List String → String → Bool
is_asked gaps q = q != "" && not (is_in gaps q)

asked-IsAskable : (gaps : List String) (q : String) → is_asked gaps q ≡ true → IsAskable gaps q
asked-IsAskable gaps q h =
    let (named, new) = and_true (q != "") (not (is_in gaps q)) h in
    (
      (λ e. ground (arith, named, (eq_iff q "").1 e)),
      (λ m. ground (arith, new, (is_in-one gaps q).1 m)),
    )

unasked : (gaps : List String) (q : String) → is_asked gaps q ≡ false → IsAskable gaps q → ⊥
unasked gaps q h (named, new) = elim (Bool-cases (is_in gaps q)) [
  | inl e ↦ new ((is_in-one gaps q).0 e)
  | inr e ↦ elim (Bool-cases (q == "")) [
    | inl f ↦ named ((eq_iff q "").0 f)
    | inr f ↦ ground (arith, h, e, f)
  ]
]

-- Only what stands in `seen` counts.
same_seen :
    (gaps a b xs qs : List String)
    → ((y : String) → IsOneOf y a → IsOneOf y b)
    → ((y : String) → IsOneOf y b → IsOneOf y a)
    → IsEachOnce gaps a xs qs
    → IsEachOnce gaps b xs qs
same_seen gaps a b [] qs f g h = h
same_seen gaps a b (x ∷ xs) qs f g (inl (inl skip, h)) =
    inl (inl skip, same_seen gaps a b xs qs f g h)
same_seen gaps a b (x ∷ xs) qs f g (inl (inr old, h)) =
    inl (inr (f x old), same_seen gaps a b xs qs f g h)
same_seen gaps a b (x ∷ xs) qs f g (inr (asked, new, (rest, eq, h))) = inr (
  asked,
  (λ m. new (g x m)),
  (rest, eq, same_seen gaps (x ∷ a) (x ∷ b) xs rest (extended a b f) (extended b a g) h),
)
  where
    extended :
        (c d : List String)
        → ((y : String) → IsOneOf y c → IsOneOf y d)
        → (y : String) → IsOneOf y (x ∷ c)
        → IsOneOf y (x ∷ d)
    extended c d k y (inl e) = inl e
    extended c d k y (inr m) = inr (k y m)

seen_again :
    (x : String) (seen : List String)
    → IsOneOf x seen
    → (y : String) → IsOneOf y (x ∷ seen)
    → IsOneOf y seen
seen_again x seen old y (inl e) = subst (λ z. IsOneOf z seen) (sym e) old
seen_again x seen old y (inr m) = m

unique-IsEachOnce :
    (gaps seen xs : List String)
    → IsEachOnce gaps seen xs (unique_from seen (select (is_asked gaps) xs))
unique-IsEachOnce gaps seen [] = refl
unique-IsEachOnce gaps seen (x ∷ xs) = elim (Bool-cases (is_asked gaps x)) [
  | inr e ↦ rw e (inl (inl (unasked gaps x e), unique-IsEachOnce gaps seen xs))
  | inl e ↦ elim (Bool-cases (is_in seen x)) [
    | inl f ↦
        let old = (is_in-one seen x).0 f in
        rw (e, f)
          (inl (
            inr old,
            same_seen gaps (x ∷ seen) seen xs _ (seen_again x seen old) (λ y m. inr m)
                (unique-IsEachOnce gaps (x ∷ seen) xs),
          ))
    | inr f ↦ inr (
      asked-IsAskable gaps x e,
      (λ m. ground (arith, f, (is_in-one seen x).1 m)),
      (
        unique_from (x ∷ seen) (select (is_asked gaps) xs),
        rw (e, f) refl,
        unique-IsEachOnce gaps (x ∷ seen) xs,
      ),
    )
  ]
]

module _ (sha256 casefold : String → String) (result : ReviewResult) (details : ReviewDetails)
    (requester_id : Option String) where
  -- The facts that a review leaves to confirm: what the review misses, stripped, that says something
  -- and is no stripped gap in the legal basis, each once, in the order in which they first stand.
  -- The titles of the tasks are their first 200 characters.
  pub guided_actions_ask_questions :
      (qs : List String) × IsEachOnce
        (map strip result.legal_basis_gaps)
        []
        (map strip result.missing_information)
        qs
      × (map
            (λ t. t.title)
            (select
              (has_rank 0)
              (guided_actions_from_review sha256 casefold result details requester_id))
          ≡ map (take 200) qs)
  unfolding open_questions
  guided_actions_ask_questions = (
    unique (open_questions result),
    unique-IsEachOnce (map strip result.legal_basis_gaps) [] (map strip result.missing_information),
    guided_actions-titles sha256 casefold result details requester_id,
  )
