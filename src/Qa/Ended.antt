-- ===== src/Qa/Ended.antt =====
-- A worker whose run has ended, or was started again, cannot report on it any more
-- (law_agent/review/qa_store.py).
use mathlib.Core.Path.{subst}
use crosscomply_agent.Prelude.{
  ℕ, ◌≤◌, String, true, false, ◌≡◌, refl, sym, ap, ◌∙◌, inl, inr, ◌⊎◌, Bool-cases, some, List, [],
  ◌∷◌, ◌++◌, arith, find, ◌==◌, Dict, get,
}
use crosscomply_agent.Qa.Records.{QaRun, QaConversation, is_queued, is_running}
use crosscomply_agent.Qa.Changes.{claim_run, expire, started, has_id, update_run, interrupted}
use crosscomply_agent.Qa.Single.{expire-cases}

-- The attempt `n` of a run does not run, and will not: a later one does, or none.
pub record IsOver (n : ℕ) (r : QaRun) : Type 0 where
  pub counted : n ≤ r.attempt
  pub stopped : r.attempt ≡ n → is_running r.status ≡ false

abbrev pub EndedIn : String → ℕ → List QaRun → Type 0
EndedIn k n rs = (r : QaRun) × (find (has_id k) rs ≡ some r) × IsOver n r

abbrev pub HasEnded : String → String → ℕ → Dict QaConversation → Type 0
HasEnded c k n s = (row : QaConversation) × (get c s ≡ some row) × EndedIn k n row.runs

pub idle-IsOver :
    (n : ℕ) (r u : QaRun)
    → u.attempt ≡ r.attempt
    → is_running u.status ≡ false
    → IsOver n r
    → IsOver n u
idle-IsOver n r u e q o = record {
  counted = let c = o.counted in omega (arith, e, c);
  stopped = λ h. q;
}

started-IsOver : (n now : ℕ) (r : QaRun) → n ≤ r.attempt → IsOver n (started now r)
unfolding started
started-IsOver n now r h = record {
  counted = omega (arith, h);
  stopped = λ e. absurd (omega (arith, h, e));
}

expire-IsOver : (n now : ℕ) (r : QaRun) → IsOver n r → IsOver n (expire now r)
expire-IsOver n now r o = elim (expire-cases now r) [
  | inl e ↦ subst (IsOver n) (sym e) o
  | inr (e, on) ↦ subst (IsOver n) (sym e) (idle-IsOver n r (interrupted r) refl refl o)
]

expire-id : (now : ℕ) (r : QaRun) → (expire now r).id ≡ r.id
expire-id now r = elim (expire-cases now r) [
  | inl e ↦ ap (λ u. u.id) e
  | inr (e, on) ↦ ap (λ u. u.id) e
]

-- What is found at the head, and what further on.
pub found-here :
    (k : String) (n : ℕ) (x : QaRun) (rs : List QaRun)
    → has_id k x ≡ true
    → IsOver n x
    → EndedIn k n (x ∷ rs)
found-here k n x rs h o = (x, (rw h refl), o)

pub found-later :
    (k : String) (n : ℕ) (x : QaRun) (rs : List QaRun)
    → has_id k x ≡ false
    → EndedIn k n rs
    → EndedIn k n (x ∷ rs)
found-later k n x rs h (r, e, o) = (r, (rw h e), o)

-- A proof by cases on where the run stands.
pub found-cases :
    (k : String) (n : ℕ) (x : QaRun) (rs : List QaRun)
    → EndedIn k n (x ∷ rs)
    → ((has_id k x ≡ true) × IsOver n x) ⊎ ((has_id k x ≡ false) × EndedIn k n rs)
found-cases k n x rs (r, e, o) = elim (Bool-cases (has_id k x)) [
  | inl h ↦
      let same : some x ≡ some r = rw h at e in
      let x_r : r ≡ x = cc (sym same) in inl (h, subst (IsOver n) x_r o)
  | inr h ↦ inr (h, (r, (rw h at e), o))
]

pub append-EndedIn :
    (k : String) (n : ℕ) (new : QaRun) (rs : List QaRun)
    → EndedIn k n rs
    → EndedIn k n (rs ++ new ∷ [])
append-EndedIn k n new [] (r, e, o) = cc
append-EndedIn k n new (x ∷ rs) h = elim (found-cases k n x rs h) [
  | inl (i, o) ↦ found-here k n x _ i o
  | inr (i, g) ↦ found-later k n x _ i (append-EndedIn k n new rs g)
]

pub update_run-EndedIn :
    (k j : String) (n : ℕ) (f : QaRun → QaRun) (rs : List QaRun)
    → ((r : QaRun) → (f r).id ≡ r.id)
    → ((r : QaRun) → find (has_id j) rs ≡ some r → IsOver n r → IsOver n (f r))
    → EndedIn k n rs
    → EndedIn k n (update_run j f rs)
update_run-EndedIn k j n f [] same keep (r, e, o) = cc
update_run-EndedIn k j n f (x ∷ rs) same keep h = elim (found-cases k n x rs h) [
  | inl (i, o) ↦ elim (Bool-cases (has_id j x)) [
    | inl p ↦
        let there : has_id k (f x) ≡ true = ap (λ i. i == k) (same x) ∙ i in
        rw p (found-here k n (f x) rs there (keep x (rw p refl) o))
    | inr p ↦ rw p (found-here k n x _ i o)
  ]
  | inr (i, g) ↦ elim (Bool-cases (has_id j x)) [
    | inl p ↦
        let other : has_id k (f x) ≡ false = ap (λ i. i == k) (same x) ∙ i in
        rw p (found-later k n (f x) rs other g)
    | inr p ↦
        rw p (
          found-later k n x _ i (update_run-EndedIn k j n f rs same (λ r e o. keep r (rw p e) o) g))
  ]
]

pub claim_run-EndedIn :
    (k : String) (n now : ℕ) (rs : List QaRun) → EndedIn k n rs → EndedIn k n (claim_run now rs).1
unfolding claim_run
claim_run-EndedIn k n now [] (r, e, o) = cc
claim_run-EndedIn k n now (x ∷ rs) h = elim (found-cases k n x rs h) [
  | inl (i, o) ↦
      let over = expire-IsOver n now x o in
      let here : has_id k (expire now x) ≡ true = ap (λ i. i == k) (expire-id now x) ∙ i in
      elim (Bool-cases (is_queued (expire now x).status)) [
        | inl q ↦ rw q (
            found-here k n _ rs (unfold started in here)
              (started-IsOver n now (expire now x) over.counted))
        | inr q ↦ rw q (found-here k n (expire now x) _ here over)
      ]
  | inr (i, g) ↦
      let other : has_id k (expire now x) ≡ false = ap (λ i. i == k) (expire-id now x) ∙ i in
      elim (Bool-cases (is_queued (expire now x).status)) [
        | inl q ↦ rw q (found-later k n (started now (expire now x)) rs (unfold started in other) g)
        | inr q ↦ rw q (found-later k n (expire now x) _ other (claim_run-EndedIn k n now rs g))
      ]
]
