-- ===== src/Prelude/Results.antt =====
-- Python's exceptions as values. The text of a message is not modelled, the class of the error is.
use mathlib.Core.Path.{◌≡◌, refl}
use mathlib.Core.Bool.{Bool, true, false}
use mathlib.Core.Option.{none, some}
use native.Mathlib.Omega.{arith}
use mathlib.Core.Logic.{inl, inr}
use crosscomply_agent.Prelude.Tests.{Option-cases}
use Prim.Native.String.{String}
use crosscomply_agent.Prelude.Dicts.{Dict, get}

pub data Error : Type 0 where
  value_error key_error unique_violation qa_conflict stop_iteration : Error
  user_admin_error duplicate_username_error invalid_role_error weak_password_error
        user_not_found_error :
      Error

-- What a method returns or raises.
pub data Result {ℓ} (R : Type ℓ) : Type ℓ where
  err : Error → Result R
  ok : R → Result R

module _ {ℓ κ} {R : Type ℓ} {S : Type κ} where
  infixl 5 ◌>>=◌
  -- The statements that follow run on what this one returned; an exception leaves the method.
  abbrev pub ◌>>=◌ : Result R → (R → Result S) → Result S
  err e >>= rest = err e
  ok r >>= rest = rest r

  pub >>=-eq-ok :
      (m : Result R) (rest : R → Result S) {s : S}
      → (m >>= rest) ≡ ok s
      → (r : R) × (m ≡ ok r) × (rest r ≡ ok s)
  >>=-eq-ok (err e) rest h = cc
  >>=-eq-ok (ok r) rest h = (r, refl, h)

-- `if test: raise error`
abbrev pub raise_if : Bool → Error → Result (Unit {0})
raise_if false e = ok tt
raise_if true e = err e

pub raise_if-ok : (b : Bool) (e : Error) → raise_if b e ≡ ok tt → b ≡ false
raise_if-ok false e h = refl
raise_if-ok true e h = cc

infixl 5 ◌>>◌
abbrev pub ◌>>◌ {ℓ} : {S : Type ℓ} → Result (Unit {0}) → Result S → Result S
check >> rest = check >>= λ _. rest

-- A guard that lets the rest run.
pub >>-eq-ok {ℓ} :
    {S : Type ℓ} (b : Bool) (e : Error) (rest : Result S) {s : S}
    → (raise_if b e >> rest) ≡ ok s
    → (b ≡ false) × (rest ≡ ok s)
>>-eq-ok false e rest h = (refl, h)
>>-eq-ok true e rest h = cc

-- `d[k]`
abbrev pub item {ℓ} : {V : Type ℓ} → String → Dict V → Result V
item k d = elim (get k d) [ none ↦ err key_error | some v ↦ ok v ]

-- A key that is looked up is there.
pub item-get {ℓ} :
    {V : Type ℓ} (k : String) (d : Dict V) (v : V) → item k d ≡ ok v → get k d ≡ some v
item-get k d v h = elim (Option-cases (get k d)) [
  | inl e ↦ ground (arith, e)
  | inr (w, e) ↦ ground (arith, e)
]
