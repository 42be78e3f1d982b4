-- ===== src/Prelude/Sort.antt =====
-- Python's stable `sorted`, by insertion: on lists this is the same function.
use mathlib.Core.Bool.{Bool, true}
use mathlib.Core.List.{List, [], ◌∷◌, Perm}
use mathlib.Core.List.Perm
use mathlib.Core.Path.{◌≡◌}
use mathlib.Core.Logic.{inl, inr}
use crosscomply_agent.Prelude.Tests.{if◌then◌else◌, Bool-cases}
use crosscomply_agent.Prelude.Lists.{All, select}

module _ {ℓ} {A : Type ℓ} (before : A → A → Bool) where
  -- `before y x` says that the key of `y` is strictly smaller: `x` stays behind no equal key.
  abbrev pub insert : A → List A → List A
  insert x [] = x ∷ []
  insert x (y ∷ ys) = if before y x then y ∷ insert x ys else x ∷ y ∷ ys

  abbrev pub sorted : List A → List A
  sorted [] = []
  sorted (x ∷ xs) = insert x (sorted xs)

  module _ {κ} (P : A → Type κ) where
    pub All-insert : (x : A) (xs : List A) → P x → All P xs → All P (insert x xs)
    All-insert x [] p h = (p, tt)
    All-insert x (y ∷ ys) p h = elim (Bool-cases (before y x)) [
      | inl e ↦ rw e (h.0, All-insert x ys p h.1)
      | inr e ↦ rw e (p, h)
    ]

    pub All-sorted : (xs : List A) → All P xs → All P (sorted xs)
    All-sorted [] h = tt
    All-sorted (x ∷ xs) h = All-insert x (sorted xs) h.0 (All-sorted xs h.1)

    All-of_insert : (x : A) (xs : List A) → All P (insert x xs) → P x × All P xs
    All-of_insert x [] h = h
    All-of_insert x (y ∷ ys) h = elim (Bool-cases (before y x)) [
      | inl e ↦ let (p, g) = rw e at h in let (q, r) = All-of_insert x ys g in (q, (p, r))
      | inr e ↦ rw e at h
    ]

    pub All-of_sorted : (xs : List A) → All P (sorted xs) → All P xs
    All-of_sorted [] h = tt
    All-of_sorted (x ∷ xs) h = let (p, g) = All-of_insert x (sorted xs) h in (p, All-of_sorted xs g)

  insert-perm : (x : A) (xs : List A) → Perm (insert x xs) (x ∷ xs)
  insert-perm x [] = Perm.refl (x ∷ [])
  insert-perm x (y ∷ ys) = elim (Bool-cases (before y x)) [
    | inl e ↦ rw e (Perm.trans (Perm.cons y (insert-perm x ys)) (Perm.swap x y ys))
    | inr e ↦ rw e (Perm.refl (x ∷ y ∷ ys))
  ]

  -- Sorting reorders.
  pub sorted-perm : (xs : List A) → Perm (sorted xs) xs
  sorted-perm [] = Perm.refl []
  sorted-perm (x ∷ xs) = Perm.trans (insert-perm x (sorted xs)) (Perm.cons x (sorted-perm xs))

-- What is selected passes the test, and has what every element has.
pub All-select {ℓ κ} :
    {A : Type ℓ} (P : A → Type κ) (test : A → Bool) (xs : List A)
    → All P xs
    → All (λ x. P x × (test x ≡ true)) (select test xs)
All-select P test [] h = tt
All-select P test (x ∷ xs) h = elim (Bool-cases (test x)) [
  | inl e ↦ rw e ((h.0, e), All-select P test xs h.1)
  | inr e ↦ rw e (All-select P test xs h.1)
]
