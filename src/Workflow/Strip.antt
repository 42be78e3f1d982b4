-- ===== src/Workflow/Strip.antt =====
-- Python's `str.strip()`: white space goes from both ends of a text.
pub mod Laws
use Prim.Native.Char.{Char, code}
use Prim.Native.String.{String, [], ◌∷◌}
use crosscomply_agent.Prelude.{ℕ, Bool, true, ◌&&◌, ◌||◌, nat_eq, leb, ◌==◌, if◌then◌else◌}

-- The code points of `str.isspace`.
unfoldable pub is_space : ℕ → Bool
is_space c =
    leb 9 c && leb c 13
    || leb 28 c && leb c 32
    || nat_eq c 0x85
    || nat_eq c 0xa0
    || nat_eq c 0x1680
    || leb 0x2000 c && leb c 0x200a
    || nat_eq c 0x2028
    || nat_eq c 0x2029
    || nat_eq c 0x202f
    || nat_eq c 0x205f
    || nat_eq c 0x3000

-- White space at the start.
abbrev pub strip_left : String → String
strip_left [] = []
strip_left (c ∷ s) = let rest = strip_left s in if is_space (code c) then rest else c ∷ s

-- White space at the end: a character stays if it is none, or if something stays behind it.
abbrev pub strip_right : String → String
strip_right [] = []
strip_right (c ∷ s) =
    let rest = strip_right s in if is_space (code c) && rest == "" then "" else c ∷ rest

unfoldable pub strip : String → String
unfolding is_space
strip s = strip_right (strip_left s)

-- Whether a text has nothing but white space: `str.isspace` of a text that is not empty.
unfoldable pub is_all_space : String → Bool
unfolding is_space
is_all_space [] = true
is_all_space (c ∷ s) = is_space (code c) && is_all_space s
