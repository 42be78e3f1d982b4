-- ===== src/Workflow/Strip/Laws.antt =====
-- What `strip` leaves of a text.
use Prim.Native.Char.{Char, code}
use Prim.Native.String.{String, [], ◌∷◌}
use text.Mathlib.TextLemmas.{cons-ne-nil}
use crosscomply_agent.Prelude.{
  false, ◌≡◌, refl, arith, Bool-cases, inl, inr, eq_iff, eq_refl, ◌==◌, ◌&&◌,
}
use crosscomply_agent.Workflow.Strip.{is_space, strip_left, strip_right, strip}

-- The first character, if there is one, is no white space.
abbrev pub HasPlainStart : String → Type 0
HasPlainStart [] = Unit
HasPlainStart (c ∷ s) = is_space (code c) ≡ false

-- The last character, if there is one, is no white space.
abbrev pub HasPlainEnd : String → Type 0
HasPlainEnd [] = Unit
HasPlainEnd (c ∷ []) = is_space (code c) ≡ false
HasPlainEnd (c ∷ d ∷ s) = HasPlainEnd (d ∷ s)

strip_left-HasPlainStart : (s : String) → HasPlainStart (strip_left s)
strip_left-HasPlainStart [] = tt
strip_left-HasPlainStart (c ∷ s) = elim (Bool-cases (is_space (code c))) [
  | inl e ↦ rw e (strip_left-HasPlainStart s)
  | inr e ↦ rw e e
]

strip_left_of_HasPlainStart : (s : String) → HasPlainStart s → strip_left s ≡ s
strip_left_of_HasPlainStart [] h = refl
strip_left_of_HasPlainStart (c ∷ s) h = rw h

strip_right-HasPlainStart : (s : String) → HasPlainStart s → HasPlainStart (strip_right s)
strip_right-HasPlainStart [] h = tt
strip_right-HasPlainStart (c ∷ s) h = rw h h

HasPlainEnd-cons :
    (c : Char) (s : String)
    → (is_space (code c) && s == "") ≡ false
    → HasPlainEnd s
    → HasPlainEnd (c ∷ s)
HasPlainEnd-cons c [] h k = ground (arith, eq_refl "")
HasPlainEnd-cons c (d ∷ s) h k = k

strip_right-HasPlainEnd : (s : String) → HasPlainEnd (strip_right s)
strip_right-HasPlainEnd [] = tt
strip_right-HasPlainEnd (c ∷ s) = elim (Bool-cases (is_space (code c) && strip_right s == "")) [
  | inl e ↦ rw e tt
  | inr e ↦ rw e (HasPlainEnd-cons c (strip_right s) e (strip_right-HasPlainEnd s))
]

cons-ne-empty : (d : Char) (s : String) → ((d ∷ s) == "") ≡ false
cons-ne-empty d s = elim (Bool-cases ((d ∷ s) == "")) [
  | inl e ↦ absurd (cons-ne-nil d s ((eq_iff (d ∷ s) "").0 e))
  | inr e ↦ e
]

strip_right_of_HasPlainEnd : (s : String) → HasPlainEnd s → strip_right s ≡ s
strip_right_of_HasPlainEnd [] h = refl
strip_right_of_HasPlainEnd (c ∷ []) h = rw h
strip_right_of_HasPlainEnd (c ∷ d ∷ s) h =
    rw (strip_right_of_HasPlainEnd (d ∷ s) h) (ground (arith, cons-ne-empty d s))

-- Stripping leaves no white space at either end, and what has none is left as it is.
pub strip-ends : (s : String) → HasPlainStart (strip s) × HasPlainEnd (strip s)
unfolding strip
strip-ends s = (
  strip_right-HasPlainStart (strip_left s) (strip_left-HasPlainStart s),
  strip_right-HasPlainEnd (strip_left s),
)

pub strip_of_plain : (s : String) → HasPlainStart s → HasPlainEnd s → strip s ≡ s
unfolding strip
strip_of_plain s h k = rw (strip_left_of_HasPlainStart s h) (strip_right_of_HasPlainEnd s k)

pub strip_idem : (s : String) → strip (strip s) ≡ strip s
strip_idem s = strip_of_plain (strip s) (strip-ends s).0 (strip-ends s).1
