-- ===== src/Governance/Digest.antt =====
-- The digests that law_agent/review/governance_store.py accepts, and how it stores them.
use Prim.Native.Char.{Char, code}
use Prim.Native.String.{String, [], ◌∷◌}
use crosscomply_agent.Prelude.{
  ℕ, suc, Bool, true, false, not, ◌&&◌, ◌||◌, ◌≡◌, refl, ap, inl, inr, ok, arith, value_error,
  Bool-cases, if◌then◌else◌, leb, nat_eq, raise_if-ok,
}
use crosscomply_agent.Governance.Reports.{
  validate_digest, lower, lower_digit, is_hex_digit, all_hex_digits, text_length,
}

-- `0`-`9` and `a`-`f` only.
abbrev pub is_lower_digit : Char → Bool
is_lower_digit c = leb 48 (code c) && leb (code c) 57 || leb 97 (code c) && leb (code c) 102

abbrev pub are_lower_digits : String → Bool
are_lower_digits [] = true
are_lower_digits (c ∷ s) = is_lower_digit c && are_lower_digits s

text_length-lower : (s : String) → text_length (lower s) ≡ text_length s
unfolding lower
text_length-lower [] = refl
text_length-lower (c ∷ s) = ap suc (text_length-lower s)

-- One letter of the chain.
letter :
    (n : ℕ) (c d other : Char)
    → is_lower_digit d ≡ true
    → (nat_eq (code c) n ≡ false → is_lower_digit other ≡ true)
    → is_lower_digit (if nat_eq (code c) n then d else other) ≡ true
letter n c d other h rest = elim (Bool-cases (nat_eq (code c) n)) [
  | inl e ↦ rw e h
  | inr e ↦ rw e (rest e)
]

lower_digit-is_lower_digit :
    (c : Char) → is_hex_digit c ≡ true → is_lower_digit (lower_digit c) ≡ true
lower_digit-is_lower_digit c h = letter 65 c "a" _ refl λ a. letter 66 c "b" _ refl λ b.
    letter 67 c "c" _ refl λ x.
      letter 68 c "d" _ refl
        λ d. letter 69 c "e" _ refl λ e. letter 70 c "f" _ refl λ f. ground arith

lower-are_lower_digits : (s : String) → all_hex_digits s ≡ true → are_lower_digits (lower s) ≡ true
unfolding lower
lower-are_lower_digits [] h = refl
lower-are_lower_digits (c ∷ s) h =
    ground (arith, lower_digit-is_lower_digit c, lower-are_lower_digits s)

-- A digest of 64 lower-case hexadecimal digits.
abbrev pub IsDigest : String → Type 0
IsDigest s = (text_length s ≡ 64) × (are_lower_digits s ≡ true)

pub validate_digest-IsDigest : (s : String) → validate_digest s ≡ ok tt → IsDigest (lower s)
unfolding validate_digest
validate_digest-IsDigest s h =
    let e = raise_if-ok (not (nat_eq (text_length s) 64) || not (all_hex_digits s)) value_error h in
    (ground (arith, text_length-lower s), lower-are_lower_digits s (ground arith))
