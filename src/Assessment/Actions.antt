-- ===== src/Assessment/Actions.antt =====
-- The tasks that a review leaves, in law_agent/review/remediation.py: in order, each of a right
-- shape, and one for each open question.
use crosscomply_agent.Prelude.{
  ℕ, suc, ◌≡◌, refl, ap, ◌∙◌, ◌⊎◌, inl, inr, String, Bool, true, false, Option, some, List, [], ◌∷◌,
  ◌++◌, ◌==◌, Bool-cases, map, select, All, if◌then◌else◌,
}
use mathlib.Core.List.{append-nil}
use crosscomply_agent.Prelude.Sort.{All-sorted}
use crosscomply_agent.Assessment.Ranks.{
  IsOrdered, earlier, has_rank, sorted-IsOrdered, select-sorted,
}
use crosscomply_agent.Workflow.{ReviewResult}
use crosscomply_agent.Workflow.Strip.{strip}
use crosscomply_agent.Remediation.Records.{TaskData}
use crosscomply_agent.Assessment.Text.{take}
use crosscomply_agent.Assessment.Guided.{
  ReviewIssue, ReviewDetails, unique, open_questions, kind_of, control_action, control_actions,
  fact_action, fact_actions, later_action, later_actions_from, guided_actions_from_review,
}

-- A task on a fact or a control blocks the approval and comes before it; a recommendation is for
-- later and blocks nothing.
abbrev pub IsGated : TaskData → Type 0
IsGated t =
    ((t.task_kind ≡ some "fact_confirmation") ⊎ (t.task_kind ≡ some "control_remediation"))
      × (t.blocking ≡ some true)
      × (t.phase ≡ some "pre_approval")
      × (t.priority ≡ some "high")
    ⊎ (t.task_kind ≡ some "recommendation")
      × (t.blocking ≡ some false)
      × (t.phase ≡ some "post_approval")
      × (t.priority ≡ some "medium")

select-append :
    (test : TaskData → Bool) (xs ys : List TaskData)
    → select test (xs ++ ys) ≡ select test xs ++ select test ys
select-append test [] ys = refl
select-append test (x ∷ xs) ys = elim (Bool-cases (test x)) [
  | inl e ↦ rw e (ap (λ zs. x ∷ zs) (select-append test xs ys))
  | inr e ↦ rw e (select-append test xs ys)
]

select-none :
    (test : TaskData → Bool) (xs : List TaskData)
    → All (λ x. test x ≡ false) xs
    → select test xs ≡ []
select-none test [] h = refl
select-none test (x ∷ xs) h = rw h.0 (select-none test xs h.1)

select-all :
    (test : TaskData → Bool) (xs : List TaskData)
    → All (λ x. test x ≡ true) xs
    → select test xs ≡ xs
select-all test [] h = refl
select-all test (x ∷ xs) h = rw h.0 (ap (λ zs. x ∷ zs) (select-all test xs h.1))

All-append {ℓ} :
    (P : TaskData → Type ℓ) (xs ys : List TaskData) → All P xs → All P ys → All P (xs ++ ys)
All-append P [] ys a b = b
All-append P (x ∷ xs) ys a b = (a.0, All-append P xs ys a.1 b)

facts_only :
    (xs ys zs : List TaskData)
    → All (λ t. has_rank 0 t ≡ false) xs
    → All (λ t. has_rank 0 t ≡ true) ys
    → All (λ t. has_rank 0 t ≡ false) zs
    → select (has_rank 0) (xs ++ (ys ++ zs)) ≡ ys
facts_only xs ys zs a b c =
    rw
      (
        select-append (has_rank 0) xs (ys ++ zs),
        select-append (has_rank 0) ys zs,
        select-none (has_rank 0) xs a,
        select-all (has_rank 0) ys b,
        select-none (has_rank 0) zs c,
      )
      (append-nil ys)

All-if {ℓ} :
    (P : TaskData → Type ℓ) (skipped : Bool) (x : TaskData) (rest : List TaskData)
    → P x
    → All P rest
    → All P (if skipped then rest else x ∷ rest)
All-if P true x rest p h = h
All-if P false x rest p h = (p, h)

All-map {ℓ κ} :
    {A : Type ℓ} (P : TaskData → Type κ) (f : A → TaskData) (xs : List A)
    → ((x : A) → P (f x))
    → All P (map f xs)
All-map P f [] h = tt
All-map P f (x ∷ xs) h = (h x, All-map P f xs h)

map-map_title :
    (f : String → TaskData) (qs : List String)
    → ((q : String) → (f q).title ≡ take 200 q)
    → map (λ t. t.title) (map f qs) ≡ map (take 200) qs
map-map_title f [] h = refl
map-map_title f (q ∷ qs) h = cc (h q, map-map_title f qs h)

module _ (sha256 casefold : String → String) (result : ReviewResult) (details : ReviewDetails)
    (requester_id : Option String) where
  All-later {ℓ} :
      (P : TaskData → Type ℓ) (xs : List String) (n : ℕ) (seen : List String)
      → ((n : ℕ) (x : String) → P (later_action sha256 casefold result details requester_id n x))
      → All P (later_actions_from sha256 casefold result details requester_id n seen xs)
  unfolding later_actions_from
  All-later P [] n seen h = tt
  All-later P (x ∷ xs) n seen h = All-if P _ _ _ (h n (strip x)) (All-later P xs (suc n) _ h)

  control-IsGated :
      (i : ReviewIssue) → IsGated (control_action sha256 casefold result details requester_id i)
  unfolding control_action
  control-IsGated i = inl (inr refl, refl, refl, refl)

  fact-IsGated :
      (found : Option ReviewIssue) (q : String)
      → IsGated (fact_action sha256 casefold result details requester_id found q)
  unfolding fact_action
  fact-IsGated found q = inl (inl refl, refl, refl, refl)

  later-IsGated :
      (n : ℕ) (x : String) → IsGated (later_action sha256 casefold result details requester_id n x)
  unfolding later_action
  later-IsGated n x = inr (refl, refl, refl, refl)

  facts-IsGated : All IsGated (fact_actions sha256 casefold result details requester_id)
  unfolding fact_actions
  facts-IsGated = All-map IsGated _ (unique (open_questions result)) (λ q. fact-IsGated _ q)

  -- The tasks that a review leaves are in order: facts to confirm, controls to put in place,
  -- recommendations. A fact or a control blocks the approval, comes before it and is urgent; a
  -- recommendation is for after the approval and blocks nothing.
  pub guided_actions-AreGated :
      IsOrdered (guided_actions_from_review sha256 casefold result details requester_id)
      × All IsGated (guided_actions_from_review sha256 casefold result details requester_id)
  unfolding guided_actions_from_review
  guided_actions-AreGated = (
    sorted-IsOrdered (
        control_actions sha256 casefold result details requester_id
        ++ (fact_actions sha256 casefold result details requester_id
            ++ later_actions_from sha256 casefold result details requester_id 0 []
                details.recommended_actions)),
    All-sorted earlier IsGated _ (
        All-append IsGated _ _
          (All-map IsGated _ (select (λ i. kind_of i == "legal_gap") details.issues)
            control-IsGated)
          (All-append IsGated _ _ facts-IsGated
            (All-later IsGated details.recommended_actions 0 [] later-IsGated))),
  )

  control_is_no_fact :
      (i : ReviewIssue)
      → has_rank 0 (control_action sha256 casefold result details requester_id i) ≡ false
  unfolding control_action
  control_is_no_fact i = refl

  later_is_no_fact :
      (n : ℕ) (x : String)
      → has_rank 0 (later_action sha256 casefold result details requester_id n x) ≡ false
  unfolding later_action
  later_is_no_fact n x = refl

  fact_is_fact :
      (found : Option ReviewIssue) (q : String)
      → has_rank 0 (fact_action sha256 casefold result details requester_id found q) ≡ true
  unfolding fact_action
  fact_is_fact found q = refl

  facts_are_facts :
      All (λ t. has_rank 0 t ≡ true) (fact_actions sha256 casefold result details requester_id)
  unfolding fact_actions
  facts_are_facts =
      All-map (λ t. has_rank 0 t ≡ true) _ (unique (open_questions result)) (λ q. fact_is_fact _ q)

  fact_title :
      (found : Option ReviewIssue) (q : String)
      → (fact_action sha256 casefold result details requester_id found q).title ≡ take 200 q
  unfolding fact_action
  fact_title found q = refl

  fact_titles :
      map (λ t. t.title) (fact_actions sha256 casefold result details requester_id)
      ≡ map (take 200) (unique (open_questions result))
  unfolding fact_actions
  fact_titles = map-map_title _ (unique (open_questions result)) (λ q. fact_title _ q)

  -- The titles of the tasks on facts.
  pub guided_actions-titles :
      map
        (λ t. t.title)
        (select
          (has_rank 0)
          (guided_actions_from_review sha256 casefold result details requester_id))
      ≡ map (take 200) (unique (open_questions result))
  unfolding guided_actions_from_review
  guided_actions-titles =
      ap (map (λ t. t.title)) (
        select-sorted 0 (
          control_actions sha256 casefold result details requester_id
          ++ (fact_actions sha256 casefold result details requester_id
              ++ later_actions_from sha256 casefold result details requester_id 0 []
                  details.recommended_actions))
        ∙ facts_only _ _ _
            (All-map _ _ (select (λ i. kind_of i == "legal_gap") details.issues) control_is_no_fact)
            facts_are_facts (All-later _ details.recommended_actions 0 [] later_is_no_fact))
      ∙ fact_titles
