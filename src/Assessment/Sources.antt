-- ===== src/Assessment/Sources.antt =====
-- The drafts of remediation tasks that are accepted, in law_agent/review/remediation.py.
use mathlib.Core.Path.{subst}
use crosscomply_agent.Prelude.{
  ◌<◌, ◌≡◌, refl, sym, ◌∙◌, ap, ◌↔◌, String, true, false, Option, none, some, List, [], ◌∷◌, arith,
  All, length, map, ◌++◌, ℕ, zero, suc, ◌≢◌, ◌⊎◌, inl, inr, not, not-false, or_true, eq_iff,
  eq_refl, is_none, ◌&&◌, ok, value_error, >>=-eq-ok, >>-eq-ok,
}
use crosscomply_agent.Assessment.Drafts.{
  ℤ, pos, negsuc, RemediationTaskDraft, ValidatedDraft, is_issue_of, is_unbound, has_foreign_issue,
  has_foreign_index, bound, recommendation_at, get_elem?, validate_task_drafts,
}

-- The identifier is that of one of the issues.
abbrev pub IsAmong : String → List (Option String) → Type 0
IsAmong id [] = ⊥
IsAmong id (i ∷ ids) = (i ≡ some id) ⊎ IsAmong id ids

-- An issue that is named is one of the review's, and a recommendation that is named has its place
-- in the review's list.
abbrev pub NamesIssue : List (Option String) → Option String → Type 0
NamesIssue issue_ids none = Unit
NamesIssue issue_ids (some id) = IsAmong id issue_ids

abbrev pub NamesIndex : List String → Option ℤ → Type 0
NamesIndex recommendations none = Unit
NamesIndex recommendations (some (pos n)) = n < length recommendations
NamesIndex recommendations (some (negsuc n)) = ⊥

-- A draft names an issue or a recommendation, and what it names is there.
abbrev pub HasRealSource : List (Option String) → List String → RemediationTaskDraft → Type 0
HasRealSource issue_ids recommendations d =
    ((d.source_issue_id ≢ none) ⊎ (d.source_recommendation_index ≢ none))
    × NamesIssue issue_ids d.source_issue_id
    × NamesIndex recommendations d.source_recommendation_index

-- `n` texts stand before `text` in the list.
abbrev pub StandsAt : ℕ → String → List String → Type 0
StandsAt n text rs =
    (before : List String) × (after : List String) × (rs ≡ before ++ text ∷ after)
    × (length before ≡ n)

-- The text of the recommendation that is named, if one is.
abbrev pub IsTextOf : List String → Option ℤ → Option String → Type 0
IsTextOf rs none o = o ≡ none
IsTextOf rs (some (pos n)) o = (text : String) × (o ≡ some text) × StandsAt n text rs
IsTextOf rs (some (negsuc n)) o = ⊥

-- The results are those of the drafts, one for one.
abbrev pub AreOf : List String → List RemediationTaskDraft → List ValidatedDraft → Type 0
AreOf rs [] [] = Unit
AreOf rs [] (v ∷ vs) = ⊥
AreOf rs (d ∷ ds) [] = ⊥
AreOf rs (d ∷ ds) (v ∷ vs) =
    ((v.draft ≡ d) × IsTextOf rs d.source_recommendation_index v.source_recommendation)
    × AreOf rs ds vs

unbound-names :
    (d : RemediationTaskDraft)
    → (is_unbound d ≡ false) ↔ ((d.source_issue_id ≢ none) ⊎ (d.source_recommendation_index ≢ none))
unbound-names d = of_names d.source_issue_id d.source_recommendation_index
  where
    of_names :
        (i : Option String) (r : Option ℤ)
        → ((is_none i && is_none r) ≡ false) ↔ ((i ≢ none) ⊎ (r ≢ none))
    of_names none none =
        ((λ h. cc), (λ h. elim h [ inl e ↦ absurd (e refl) | inr e ↦ absurd (e refl) ]))
    of_names none (some r) = ((λ h. inr (λ e. cc)), (λ h. refl))
    of_names (some i) r = ((λ h. inl (λ e. cc)), (λ h. refl))

is_issue_of-IsAmong :
    (ids : List (Option String)) (id : String) → (is_issue_of ids id ≡ true) ↔ IsAmong id ids
is_issue_of-IsAmong [] id = ((λ h. cc), (λ h. absurd h))
is_issue_of-IsAmong (none ∷ ids) id = (
  (λ h. inr ((is_issue_of-IsAmong ids id).0 h)),
  (λ h. elim h [ inl e ↦ cc | inr g ↦ (is_issue_of-IsAmong ids id).1 g ]),
)
is_issue_of-IsAmong (some i ∷ ids) id = (
  (λ h. elim (or_true _ _ h) [
    | inl e ↦ inl (ap some ((eq_iff i id).0 e))
    | inr g ↦ inr ((is_issue_of-IsAmong ids id).0 g)
  ]),
  (λ h. elim h [
    | inl e ↦ ground (arith, e, eq_refl id)
    | inr g ↦ ground (arith, (is_issue_of-IsAmong ids id).1 g)
  ]),
)

get_elem?-StandsAt :
    (rs : List String) (n : ℕ)
    → n < length rs
    → (t : String) × (get_elem? rs n ≡ some t) × StandsAt n t rs
get_elem?-StandsAt [] n h = absurd (omega (arith, h))
get_elem?-StandsAt (x ∷ rs) zero h = (x, refl, ([], rs, refl, refl))
get_elem?-StandsAt (x ∷ rs) (suc n) h =
    let (t, e, (before, after, split, count)) = get_elem?-StandsAt rs n (omega (arith, h)) in
    (t, e, (x ∷ before, after, ap (λ ys. x ∷ ys) split, ap suc count))

StandsAt-get_elem? :
    (n : ℕ) (t : String) (before after : List String)
    → length before ≡ n
    → get_elem? (before ++ t ∷ after) n ≡ some t
StandsAt-get_elem? n t [] after h = rw⁻¹ h refl
StandsAt-get_elem? n t (x ∷ before) after h =
    rw⁻¹ h (StandsAt-get_elem? (length before) t before after refl)

recommendation-IsTextOf :
    (rs : List String) (i : Option ℤ) (o : Option String)
    → NamesIndex rs i
    → (o ≡ recommendation_at rs i) ↔ IsTextOf rs i o
recommendation-IsTextOf rs none o h = ((λ e. e), (λ e. e))
recommendation-IsTextOf rs (some (negsuc n)) o h = absurd h
recommendation-IsTextOf rs (some (pos n)) o h =
    let (t, e, place) = get_elem?-StandsAt rs n h in
    (
      (λ f. (t, (f ∙ e), place)),
      (λ g.
          let (u, f, (before, after, split, count)) = g in
          f ∙ sym (ap (λ r. get_elem? r n) split ∙ StandsAt-get_elem? n u before after count)),
    )

issue-names :
    (ids : List (Option String)) (o : Option String)
    → (has_foreign_issue ids o ≡ false) ↔ NamesIssue ids o
issue-names ids none = (λ h. tt, λ h. refl)
issue-names ids (some id) = (
  (λ h. (is_issue_of-IsAmong ids id).0 (not-false _ h)),
  (λ h. ap not ((is_issue_of-IsAmong ids id).1 h)),
)

index-names : (rs : List String) (o : Option ℤ) → (has_foreign_index rs o ≡ false) ↔ NamesIndex rs o
index-names rs none = (λ h. tt, λ h. refl)
index-names rs (some (pos n)) = (λ h. ground (arith, h), λ h. ground (arith, h))
index-names rs (some (negsuc n)) = (λ h. ground (arith, h), λ h. absurd h)

module _ (issue_ids : List (Option String)) (recommendations : List String) where
  accepted :
      (ds : List RemediationTaskDraft) (vs : List ValidatedDraft)
      → validate_task_drafts issue_ids recommendations ds ≡ ok vs
      → All (HasRealSource issue_ids recommendations) ds × (vs ≡ map (bound recommendations) ds)
  unfolding validate_task_drafts
  accepted [] vs h = (tt, ground arith)
  accepted (d ∷ ds) vs h =
      let (named, h1) = >>-eq-ok (is_unbound d) value_error _ h in
      let (issue, h2) = >>-eq-ok (has_foreign_issue issue_ids d.source_issue_id) value_error _ h1 in
      let (index, h3) =
        >>-eq-ok (has_foreign_index recommendations d.source_recommendation_index) value_error _
          h2 in
      let (more, h4, last) = >>=-eq-ok (validate_task_drafts issue_ids recommendations ds) _ h3 in
      let (real, rest) = accepted ds more h4 in
      (
        (
          (
            (unbound-names d).0 named,
            (issue-names issue_ids _).0 issue,
            (index-names recommendations _).0 index,
          ),
          real,
        ),
        ground (arith, last, rest),
      )

  accepts :
      (ds : List RemediationTaskDraft)
      → All (HasRealSource issue_ids recommendations) ds
      → validate_task_drafts issue_ids recommendations ds ≡ ok (map (bound recommendations) ds)
  unfolding validate_task_drafts
  accepts [] h = refl
  accepts (d ∷ ds) h =
      rw
        (
          (unbound-names d).1 h.0.0,
          (issue-names issue_ids d.source_issue_id).1 h.0.1,
          (index-names recommendations d.source_recommendation_index).1 h.0.2,
          accepts ds h.1,
        )
        refl

  mapped-AreOf :
      (ds : List RemediationTaskDraft)
      → All (HasRealSource issue_ids recommendations) ds
      → AreOf recommendations ds (map (bound recommendations) ds)
  mapped-AreOf [] h = tt
  mapped-AreOf (d ∷ ds) h = (
    (refl, (recommendation-IsTextOf recommendations d.source_recommendation_index _ h.0.2).0 refl),
    mapped-AreOf ds h.1,
  )

  AreOf-mapped :
      (ds : List RemediationTaskDraft) (vs : List ValidatedDraft)
      → All (HasRealSource issue_ids recommendations) ds
      → AreOf recommendations ds vs
      → vs ≡ map (bound recommendations) ds
  AreOf-mapped [] [] h g = refl
  AreOf-mapped [] (v ∷ vs) h g = absurd g
  AreOf-mapped (d ∷ ds) [] h g = absurd g
  AreOf-mapped (d ∷ ds) (v ∷ vs) h g =
      let text =
        (recommendation-IsTextOf recommendations d.source_recommendation_index
            v.source_recommendation h.0.2).1
          g.0.1 in
      let here : v ≡ bound recommendations d =
        ap (λ x. record v { draft = x }) g.0.0
        ∙ ap (λ o. record (bound recommendations d) { source_recommendation = o }) text in
      ap (λ x. x ∷ vs) here ∙ ap (λ ys. bound recommendations d ∷ ys) (AreOf-mapped ds vs h.1 g.1)

  -- The drafts of a model are accepted exactly when each names an issue of the review or a
  -- recommendation, and no issue and no place in the list that the review does not have. They come
  -- back in their order, each with the text of the recommendation that it names, which is the one
  -- that stands at that place, and with no text if it names none.
  pub validate_task_drafts_iff :
      (ds : List RemediationTaskDraft) (vs : List ValidatedDraft)
      → (validate_task_drafts issue_ids recommendations ds ≡ ok vs)
        ↔ (All (HasRealSource issue_ids recommendations) ds × AreOf recommendations ds vs)
  validate_task_drafts_iff ds vs = (
    (λ h.
        let (real, mapped) = accepted ds vs h in
        (real, subst (AreOf recommendations ds) (sym mapped) (mapped-AreOf ds real))),
    (λ h. accepts ds h.0 ∙ ap ok (sym (AreOf-mapped ds vs h.0 h.1))),
  )
