-- ===== src/Enterprise/Attempts.antt =====
-- The log of a task's attempts (law_agent/review/enterprise_store.py): its shape, and the changes
-- that keep it.
use crosscomply_agent.Prelude.{
  ℕ, suc, ◌+◌, false, ◌≡◌, ◌∙◌, Option, none, some, List, [], ◌∷◌, ◌++◌, All, length, get_last?,
  update_last, length-update_last, arith, is_none,
}
use crosscomply_agent.Enterprise.Records.{TaskAttempt}
use crosscomply_agent.Enterprise.Tasks.{is_open}

-- The attempts are numbered in order, from `n` on.
abbrev pub IsNumbered : ℕ → List TaskAttempt → Type 0
IsNumbered n [] = Unit
IsNumbered n (a ∷ log) = (a.attempt_number ≡ n) × IsNumbered (suc n) log

-- Every attempt but the last one is over.
abbrev pub IsClosedBefore : List TaskAttempt → Type 0
IsClosedBefore [] = Unit
IsClosedBefore (a ∷ []) = Unit
IsClosedBefore (a ∷ b ∷ log) = (is_open a.status ≡ false) × IsClosedBefore (b ∷ log)

-- An attempt has an end exactly when it is over.
abbrev pub HasEnd : TaskAttempt → Type 0
HasEnd a = is_none a.finished_at ≡ is_open a.status

pub IsNumbered-append :
    (n : ℕ) (log : List TaskAttempt) (a : TaskAttempt)
    → IsNumbered n log
    → a.attempt_number ≡ n + length log
    → IsNumbered n (log ++ a ∷ [])
IsNumbered-append n [] a h e = (omega arith, tt)
IsNumbered-append n (b ∷ log) a h e = (h.0, IsNumbered-append (suc n) log a h.1 (omega arith))

IsNumbered-update_last :
    (n : ℕ) (f : TaskAttempt → TaskAttempt) (log : List TaskAttempt)
    → ((a : TaskAttempt) → (f a).attempt_number ≡ a.attempt_number)
    → IsNumbered n log
    → IsNumbered n (update_last f log)
IsNumbered-update_last n f [] keep h = tt
IsNumbered-update_last n f (a ∷ []) keep h = (keep a ∙ h.0, tt)
IsNumbered-update_last n f (a ∷ b ∷ log) keep h =
    (h.0, IsNumbered-update_last (suc n) f (b ∷ log) keep h.1)

IsClosedBefore-update_last :
    (f : TaskAttempt → TaskAttempt) (log : List TaskAttempt)
    → IsClosedBefore log
    → IsClosedBefore (update_last f log)
IsClosedBefore-update_last f [] h = tt
IsClosedBefore-update_last f (a ∷ []) h = tt
IsClosedBefore-update_last f (a ∷ b ∷ []) h = h
IsClosedBefore-update_last f (a ∷ b ∷ c ∷ log) h =
    (h.0, IsClosedBefore-update_last f (b ∷ c ∷ log) h.1)

abbrev pub IsOver : Option TaskAttempt → Type 0
IsOver none = Unit
IsOver (some a) = is_open a.status ≡ false

pub IsClosedBefore-append :
    (log : List TaskAttempt) (a : TaskAttempt)
    → IsClosedBefore log
    → IsOver (get_last? log)
    → IsClosedBefore (log ++ a ∷ [])
IsClosedBefore-append [] a h k = tt
IsClosedBefore-append (b ∷ []) a h k = (k, tt)
IsClosedBefore-append (b ∷ c ∷ log) a h k = (h.0, IsClosedBefore-append (c ∷ log) a h.1 k)

pub ended-append :
    (log : List TaskAttempt) (a : TaskAttempt)
    → All HasEnd log
    → HasEnd a
    → All HasEnd (log ++ a ∷ [])
ended-append [] a h k = (k, tt)
ended-append (b ∷ log) a h k = (h.0, ended-append log a h.1 k)

ended-update_last :
    (f : TaskAttempt → TaskAttempt) (log : List TaskAttempt)
    → ((a : TaskAttempt) → HasEnd a → HasEnd (f a))
    → All HasEnd log
    → All HasEnd (update_last f log)
ended-update_last f [] keep h = tt
ended-update_last f (a ∷ []) keep h = (keep a h.0, tt)
ended-update_last f (a ∷ b ∷ log) keep h = (h.0, ended-update_last f (b ∷ log) keep h.1)

-- A change of the last attempt that keeps its number keeps the log.
pub record KeepsLog (log bs : List TaskAttempt) : Type 0 where
  pub same_length : length bs ≡ length log
  pub numbered : IsNumbered 1 log → IsNumbered 1 bs
  pub closed : IsClosedBefore log → IsClosedBefore bs
  pub ended : All HasEnd log → All HasEnd bs

pub KeepsLog-update_last :
    (f : TaskAttempt → TaskAttempt) (log : List TaskAttempt)
    → ((a : TaskAttempt) → (f a).attempt_number ≡ a.attempt_number)
    → ((a : TaskAttempt) → HasEnd a → HasEnd (f a))
    → KeepsLog log (update_last f log)
KeepsLog-update_last f log keep ends = record {
  same_length = length-update_last f log;
  numbered = IsNumbered-update_last 1 f log keep;
  closed = IsClosedBefore-update_last f log;
  ended = ended-update_last f log ends;
}
