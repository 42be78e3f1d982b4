-- ===== src/Assessment/Locate.antt =====
-- A quote is located exactly where it stands, and only if it stands nowhere else.
use Prim.Native.Char.{Char}
use Prim.Native.String.{String, [], ◌∷◌}
use text.Mathlib.TextEquality.{Char-path}
use native.Mathlib.Decide.{dec_lt}
use crosscomply_agent.Prelude.{
  ℕ, zero, suc, ◌+◌, ◌-◌, ◌≤◌, ◌≡◌, refl, ◌≢◌, ◌↔◌, inl, inr, true, none, some, arith, eq_iff, ◌==◌,
  Bool-cases, Option-cases, ok,
}
use crosscomply_agent.Workflow.Strip.{strip}
use crosscomply_agent.Assessment.Text.{
  len, take, drop, slice, begins, find_text, find_from, occurs_at,
}
use crosscomply_agent.Assessment.Gate.{locate}

first_begins :
    (q : String) (c : Char) (s : String) → find_text q (c ∷ s) ≡ some 0 → begins q (c ∷ s) ≡ true
unfolding find_text
first_begins q c s h = elim (Bool-cases (begins q (c ∷ s))) [
  | inl b ↦ b
  | inr b ↦ elim (Option-cases (find_text q s)) [
    | inl n ↦ absurd (ground arith)
    | inr (k, n) ↦ absurd (ground arith)
  ]
]

-- A place that is found is one.
pub find-occurs : (q s : String) (i : ℕ) → find_text q s ≡ some i → occurs_at q i s ≡ true
unfolding find_text
find-occurs q [] zero h = ground arith
find-occurs q [] (suc i) h = absurd (ground arith)
find-occurs q (c ∷ s) zero h = first_begins q c s h
find-occurs q (c ∷ s) (suc i) h = elim (Bool-cases (begins q (c ∷ s))) [
  | inl b ↦ absurd (ground arith)
  | inr b ↦ elim (Option-cases (find_text q s)) [
    | inl n ↦ absurd (ground arith)
    | inr (k, n) ↦ ground (arith, find-occurs q s k n)
  ]
]

-- It is the first.
pub find-le : (q s : String) (i j : ℕ) → find_text q s ≡ some i → occurs_at q j s ≡ true → i ≤ j
unfolding find_text
find-le q [] zero j h e = omega arith
find-le q [] (suc i) j h e = absurd (ground arith)
find-le q (c ∷ s) i zero h e = ground arith
find-le q (c ∷ s) i (suc j) h e = elim (Bool-cases (begins q (c ∷ s))) [
  | inl b ↦ ground arith
  | inr b ↦ elim (Option-cases (find_text q s)) [
    | inl n ↦ absurd (ground arith)
    | inr (k, n) ↦ ground (arith, find-le q s k j n e)
  ]
]

-- Where none is found there is none.
pub find-none : (q s : String) → find_text q s ≡ none → (j : ℕ) → occurs_at q j s ≡ true → ⊥
unfolding find_text
find-none q [] h zero e = ground arith
find-none q [] h (suc j) e = cc
find-none q (c ∷ s) h zero e = ground arith
find-none q (c ∷ s) h (suc j) e = elim (Bool-cases (begins q (c ∷ s))) [
  | inl b ↦ ground arith
  | inr b ↦ elim (Option-cases (find_text q s)) [
    | inl n ↦ find-none q s n j e
    | inr (i, n) ↦ ground arith
  ]
]

find_from-none :
    (q : String) (n : ℕ) (s : String)
    → find_from q n s ≡ none
    → (j : ℕ) → n ≤ j
    → occurs_at q j s ≡ true
    → ⊥
unfolding find_from
find_from-none q zero s h j le e = find-none q s h j e
find_from-none q (suc n) s h zero le e = absurd (omega arith)
find_from-none q (suc n) [] h (suc j) le e = cc
find_from-none q (suc n) (c ∷ s) h (suc j) le e = elim (Option-cases (find_from q n s)) [
  | inl k ↦ find_from-none q n s k j (omega arith) e
  | inr (i, k) ↦ ground arith
]

find_from-some :
    (q : String) (n : ℕ) (s : String) (i : ℕ)
    → find_from q n s ≡ some i
    → (occurs_at q i s ≡ true) × (n ≤ i)
unfolding find_from
find_from-some q zero s i h = (find-occurs q s i h, omega arith)
find_from-some q (suc n) [] i h = cc
find_from-some q (suc n) (c ∷ s) zero h = elim (Option-cases (find_from q n s)) [
  | inl k ↦ absurd (ground arith)
  | inr (j, k) ↦ absurd (ground arith)
]
find_from-some q (suc n) (c ∷ s) (suc i) h = elim (Option-cases (find_from q n s)) [
  | inl k ↦ absurd (ground arith)
  | inr (j, k) ↦ ground (arith, find_from-some q n s j k)
]

-- `q` stands in `s` at the place `i` and at no other.
abbrev pub StandsOnceAt : String → ℕ → String → Type 0
StandsOnceAt q i s = (occurs_at q i s ≡ true) × ((j : ℕ) → occurs_at q j s ≡ true → j ≡ i)

found_once :
    (q s : String) (i : ℕ)
    → find_text q s ≡ some i
    → find_from q (suc i) s ≡ none
    → StandsOnceAt q i s
found_once q s i n last = (find-occurs q s i n, λ j e. only j e (find-le q s i j n e))
  where
    only : (j : ℕ) → occurs_at q j s ≡ true → i ≤ j → j ≡ i
    only j e le = elim (dec_lt i j) [
      | yes lt ↦ absurd (find_from-none q (suc i) s last j (omega arith) e)
      | no ge ↦ omega arith
    ]

locate-once :
    (s quote : String) (a b : ℕ)
    → locate s quote ≡ ok (a, b)
    → (strip quote ≢ "") × StandsOnceAt quote a s × (b ≡ a + len quote)
unfolding locate
locate-once s quote a b h = elim (Bool-cases (strip quote == "")) [
  | inl blank ↦ absurd (ground arith)
  | inr filled ↦ elim (Option-cases (find_text quote s)) [
    | inl n ↦ absurd (ground arith)
    | inr (i, n) ↦ elim (Option-cases (find_from quote (suc i) s)) [
      | inl last ↦
          let start : a ≡ i = ground arith in
          let stop : b ≡ i + len quote = ground arith in
          rw (start, stop)
            ((λ e. ground (arith, eq_iff (strip quote) "")), found_once quote s i n last, refl)
      | inr (k, more) ↦ absurd (ground arith)
    ]
  ]
]

locate_of_once :
    (s quote : String) (a b : ℕ)
    → strip quote ≢ ""
    → StandsOnceAt quote a s
    → b ≡ a + len quote
    → locate s quote ≡ ok (a, b)
unfolding locate
locate_of_once s quote a b filled once e = elim (Option-cases (find_text quote s)) [
  | inl n ↦ absurd (find-none quote s n a once.0)
  | inr (i, n) ↦ elim (Option-cases (find_from quote (suc i) s)) [
    | inl last ↦ ground (arith, eq_iff (strip quote) "", once.1 i (find-occurs quote s i n))
    | inr (k, more) ↦ absurd (
        let (here, after) = find_from-some quote (suc i) s k more in
        omega (arith, once.1 i (find-occurs quote s i n), once.1 k here))
  ]
]

-- A quote is accepted, with the offsets `a` and `b`, exactly when it is not blank, stands in the
-- source at the offset `a` and nowhere else, and ends at `b`.
pub locate_iff :
    (s quote : String) (a b : ℕ)
    → (locate s quote ≡ ok (a, b))
      ↔ ((strip quote ≢ "") × StandsOnceAt quote a s × (b ≡ a + len quote))
locate_iff s quote a b = (locate-once s quote a b, λ h. locate_of_once s quote a b h.0 h.1 h.2)

take-begins : (q s : String) → begins q s ≡ true → take (len q) s ≡ q
take-begins [] s h = refl
take-begins (c ∷ q) [] h = cc
take-begins (c ∷ q) (d ∷ s) h = ground (arith, Char-path c d, take-begins q s)

begins-drop :
    (q : String) (i : ℕ) (s : String) → occurs_at q i s ≡ true → begins q (drop i s) ≡ true
begins-drop q zero s h = h
begins-drop q (suc i) [] h = cc
begins-drop q (suc i) (c ∷ s) h = begins-drop q i s h

add_sub : (q : String) (i : ℕ) → i + len q - i ≡ len q
add_sub q i = omega arith

-- What stands at a place is the slice from there.
pub slice-occurs :
    (q : String) (i : ℕ) (s : String) → occurs_at q i s ≡ true → slice i (i + len q) s ≡ q
slice-occurs q i s h = rw (add_sub q i) (take-begins q (drop i s) (begins-drop q i s h))
