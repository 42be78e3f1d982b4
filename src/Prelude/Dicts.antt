-- ===== src/Prelude/Dicts.antt =====
-- Python's dictionaries with text keys: association lists in insertion order.
use Prim.Native.Nat.{ℕ, ◌+◌, ◌≤◌}
use Prim.Native.String.{String}
use mathlib.Core.Path.{◌≡◌, refl, ◌∙◌}
use mathlib.Core.Bool.{Bool, true, false, ◌&&◌}
use mathlib.Core.Option.{Option, none, some}
use mathlib.Core.List.{List, [], ◌∷◌}
use native.Mathlib.Omega.{arith}
use text.Mathlib.TextEquality.{eq_iff}
use text.Mathlib.TextPositions.{eq_refl}
use crosscomply_agent.Prelude.Tests.{◌==◌, Bool-cases, if◌then◌else◌}
use crosscomply_agent.Prelude.Lists.{All, any}

abbrev pub Dict {ℓ} : Type ℓ → Type ℓ
Dict V = List (String × V)

module _ {ℓ} {V : Type ℓ} where
  -- `d.get(k)`
  abbrev pub get : String → Dict V → Option V
  get k [] = none
  get k ((j, v) ∷ d) = if j == k then some v else get k d

  -- `d[k] = v`: a key that is there keeps its place, a new one goes to the end.
  abbrev pub put : String → V → Dict V → Dict V
  put k v [] = (k, v) ∷ []
  put k v ((j, w) ∷ d) = if j == k then (k, v) ∷ d else (j, w) ∷ put k v d

  -- `d.values()`
  abbrev pub values : Dict V → List V
  values [] = []
  values ((k, v) ∷ d) = v ∷ values d

  pub get-put :
      (k j : String) (v : V) (d : Dict V) → get j (put k v d) ≡ (if k == j then some v else get j d)
  get-put k j v [] = refl
  get-put k j v ((i, w) ∷ d) = ground (arith, eq_iff k j, eq_iff i k, eq_iff i j, get-put k j v d)

  pub get-put_self : (k : String) (v : V) (d : Dict V) → get k (put k v d) ≡ some v
  get-put_self k v d = simp (get-put, eq_refl)

module _ {ℓ κ} {V : Type ℓ} (P : V → Type κ) where
  pub All-put :
      (k : String) (v : V) (d : Dict V) → P v → All P (values d) → All P (values (put k v d))
  All-put k v [] p h = (p, tt)
  All-put k v ((j, w) ∷ d) p h = ground (arith, All-put k v d p h.1)

  pub All-get : (k : String) (d : Dict V) (v : V) → All P (values d) → get k d ≡ some v → P v
  All-get k [] v h e = cc
  All-get k ((j, w) ∷ d) v h e = ground (arith, All-get k d v h.1)

-- A dictionary whose keys are pairs of texts.
abbrev pub PairDict {ℓ} : Type ℓ → Type ℓ
PairDict V = List (String × String × V)

module _ {ℓ} {V : Type ℓ} where
  -- `d.get((k, l))`
  abbrev pub get_pair : String → String → PairDict V → Option V
  get_pair k l [] = none
  get_pair k l ((i, j, v) ∷ d) = if i == k && j == l then some v else get_pair k l d

  -- `d[(k, l)] = v`
  abbrev pub put_pair : String → String → V → PairDict V → PairDict V
  put_pair k l v [] = (k, l, v) ∷ []
  put_pair k l v ((i, j, w) ∷ d) =
      if i == k && j == l then (k, l, v) ∷ d else (i, j, w) ∷ put_pair k l v d

  pub get_pair-put_pair_self :
      (k l : String) (v : V) (d : PairDict V) → get_pair k l (put_pair k l v d) ≡ some v
  get_pair-put_pair_self k l v [] = ground (arith, eq_refl k, eq_refl l)
  get_pair-put_pair_self k l v ((i, j, w) ∷ d) =
      ground (arith, eq_refl k, eq_refl l, get_pair-put_pair_self k l v d)

-- The entries whose key and value belong together.
abbrev pub IsKeyed {ℓ} : {V : Type ℓ} → (V → String) → Dict V → Type 0
IsKeyed key [] = Unit
IsKeyed key ((k, v) ∷ d) = (key v ≡ k) × IsKeyed key d

-- `for v in d.values(): …`, which changes each value in place.
abbrev pub map_values {ℓ} : {V : Type ℓ} → (V → V) → Dict V → Dict V
map_values f [] = []
map_values f ((k, v) ∷ d) = (k, f v) ∷ map_values f d

module _ {ℓ κ} {V : Type ℓ} (P : V → Type κ) where
  pub All-map_values :
      (f : V → V) (d : Dict V)
      → ((v : V) → P v → P (f v))
      → All P (values d)
      → All P (values (map_values f d))
  All-map_values f [] keep h = tt
  All-map_values f ((k, v) ∷ d) keep h = (keep v h.0, All-map_values f d keep h.1)

module _ {ℓ} {V : Type ℓ} where
  pub get-map_values :
      (f : V → V) (k : String) (d : Dict V) (v : V)
      → get k d ≡ some v
      → get k (map_values f d) ≡ some (f v)
  get-map_values f k [] v h = cc
  get-map_values f k ((j, w) ∷ d) v h = ground (arith, get-map_values f k d v)

  pub get-map_values-none :
      (f : V → V) (k : String) (d : Dict V) → get k d ≡ none → get k (map_values f d) ≡ none
  get-map_values-none f k [] h = refl
  get-map_values-none f k ((j, w) ∷ d) h = ground (arith, get-map_values-none f k d)

  pub IsKeyed-put :
      (key : V → String) (k : String) (v : V) (d : Dict V)
      → key v ≡ k
      → IsKeyed key d
      → IsKeyed key (put k v d)
  IsKeyed-put key k v [] e h = (e, tt)
  IsKeyed-put key k v ((j, w) ∷ d) e h = ground (arith, IsKeyed-put key k v d e h.1)

  pub IsKeyed-map_values :
      (key : V → String) (f : V → V) (d : Dict V)
      → ((v : V) → key (f v) ≡ key v)
      → IsKeyed key d
      → IsKeyed key (map_values f d)
  IsKeyed-map_values key f [] keep h = tt
  IsKeyed-map_values key f ((k, v) ∷ d) keep h = (keep v ∙ h.0, IsKeyed-map_values key f d keep h.1)

  pub IsKeyed-get :
      (key : V → String) (k : String) (d : Dict V) (v : V)
      → IsKeyed key d
      → get k d ≡ some v
      → key v ≡ k
  IsKeyed-get key k [] v h e = cc
  IsKeyed-get key k ((j, w) ∷ d) v h e = ground (arith, eq_iff j k, IsKeyed-get key k d v h.1)

  -- No two entries have one key.
  abbrev pub HasDistinctKeys : Dict V → Type ℓ
  HasDistinctKeys [] = Unit
  HasDistinctKeys ((k, v) ∷ d) = (get k d ≡ none) × HasDistinctKeys d

  pub HasDistinctKeys-put :
      (k : String) (v : V) (d : Dict V) → HasDistinctKeys d → HasDistinctKeys (put k v d)
  HasDistinctKeys-put k v [] h = (refl, tt)
  HasDistinctKeys-put k v ((j, w) ∷ d) h =
      ground (arith, eq_iff j k, eq_iff k j, get-put k j v d, HasDistinctKeys-put k v d h.1)

  pub HasDistinctKeys-map_values :
      (f : V → V) (d : Dict V) → HasDistinctKeys d → HasDistinctKeys (map_values f d)
  HasDistinctKeys-map_values f [] h = tt
  HasDistinctKeys-map_values f ((k, v) ∷ d) h =
      (get-map_values-none f k d h.0, HasDistinctKeys-map_values f d h.1)

  -- A value is found under its key.
  abbrev pub IsFound : (V → String) → Dict V → V → Type ℓ
  IsFound key d v = get (key v) d ≡ some v

  IsFound-cons :
      (key : V → String) (k : String) (w : V) (d : Dict V)
      → get k d ≡ none
      → (vs : List V) → All (IsFound key d) vs
      → All (IsFound key ((k, w) ∷ d)) vs
  IsFound-cons key k w d h [] a = tt
  IsFound-cons key k w d h (v ∷ vs) a =
      (ground (arith, eq_iff k (key v), a.0), IsFound-cons key k w d h vs a.1)

  pub values-IsFound :
      (key : V → String) (d : Dict V)
      → IsKeyed key d
      → HasDistinctKeys d
      → All (IsFound key d) (values d)
  values-IsFound key [] k h = tt
  values-IsFound key ((j, v) ∷ d) k h = (
    ground (arith, eq_iff j (key v), k.0),
    IsFound-cons key j v d h.0 (values d) (values-IsFound key d k.1 h.1),
  )

-- How many values pass a test.
abbrev pub count_values {ℓ} : {V : Type ℓ} → (V → Bool) → Dict V → ℕ
count_values test [] = 0
count_values test ((k, v) ∷ d) = (if test v then 1 else 0) + count_values test d

module _ {ℓ} {V : Type ℓ} (test : V → Bool) where
  -- A value that is replaced by one that passes only if it did itself.
  pub count_values-put :
      (k : String) (v w : V) (d : Dict V)
      → get k d ≡ some v
      → (test w ≡ true → test v ≡ true)
      → count_values test (put k w d) ≤ count_values test d
  count_values-put k v w [] g h = cc
  count_values-put k v w ((j, u) ∷ d) g h =
      ground (arith, count_values-put k v w d, Bool-cases (test w))

  pub count_values-put_new :
      (k : String) (w : V) (d : Dict V)
      → count_values test (put k w d) ≤ count_values test d + (if test w then 1 else 0)
  count_values-put_new k w [] = ground arith
  count_values-put_new k w ((j, u) ∷ d) = ground (arith, count_values-put_new k w d)

  pub count_values-map_values :
      (f : V → V) (d : Dict V)
      → ((v : V) → test (f v) ≡ true → test v ≡ true)
      → count_values test (map_values f d) ≤ count_values test d
  count_values-map_values f [] h = omega arith
  count_values-map_values f ((k, v) ∷ d) h = ground (arith, h v, count_values-map_values f d h)

  pub count_values_of_none : (d : Dict V) → any test (values d) ≡ false → count_values test d ≡ 0
  count_values_of_none [] h = refl
  count_values_of_none ((k, v) ∷ d) h = ground (arith, count_values_of_none d)
