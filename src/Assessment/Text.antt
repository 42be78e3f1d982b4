-- ===== src/Assessment/Text.antt =====
-- Python's texts by character: `len`, slices, `str.find` with a start.
use Prim.Native.Char.{code}
use Prim.Native.String.{String, [], ◌∷◌}
use mathlib.Core.Bool.{Bool, true, false, ◌&&◌}
use mathlib.Core.Option.{Option, none, some}
use crosscomply_agent.Prelude.{ℕ, zero, suc, ◌-◌, nat_eq, if◌then◌else◌, option_map}

abbrev pub len : String → ℕ
len [] = 0
len (c ∷ s) = suc (len s)

-- `s[:n]`
abbrev pub take : ℕ → String → String
take zero s = []
take (suc n) [] = []
take (suc n) (c ∷ s) = c ∷ take n s

-- `s[n:]`
abbrev pub drop : ℕ → String → String
drop zero s = s
drop (suc n) [] = []
drop (suc n) (c ∷ s) = drop n s

-- `s[a:b]`
abbrev pub slice : ℕ → ℕ → String → String
slice a b s = take (b - a) (drop a s)

-- `s.startswith(q)`
abbrev pub begins : String → String → Bool
begins [] s = true
begins (c ∷ q) [] = false
begins (c ∷ q) (d ∷ s) = nat_eq (code c) (code d) && begins q s

-- `s.find(q)`, with `none` for -1.
unfoldable pub find_text : String → String → Option ℕ
find_text q [] = if begins q [] then some 0 else none
find_text q (c ∷ s) =
    let rest = option_map suc (find_text q s) in if begins q (c ∷ s) then some 0 else rest

-- `s.find(q, start)`
unfoldable pub find_from : String → ℕ → String → Option ℕ
unfolding find_text
find_from q zero s = find_text q s
find_from q (suc n) [] = none
find_from q (suc n) (c ∷ s) = option_map suc (find_from q n s)

-- Whether `q` stands in `s` at the position `i`.
abbrev pub occurs_at : String → ℕ → String → Bool
occurs_at q zero s = begins q s
occurs_at q (suc i) [] = false
occurs_at q (suc i) (c ∷ s) = occurs_at q i s
