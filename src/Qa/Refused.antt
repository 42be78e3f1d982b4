-- ===== src/Qa/Refused.antt =====
-- No report under an attempt that has ended is accepted, whatever happens to the conversations
-- (law_agent/review/qa_store.py).
use mathlib.Core.Path.{subst}
use crosscomply_agent.Prelude.{
  ℕ, ◌≤◌, String, true, false, ◌≡◌, refl, sym, ap, ◌∙◌, inl, inr, ◌⊎◌, Bool-cases, Option-cases,
  none, some, [], ◌∷◌, ◌++◌, arith, find, nat_eq, ◌==◌, eq_iff, Dict, get, put, get-put, Result, ok,
  err, item, qa_conflict,
}
use crosscomply_agent.Qa.Records.{QaRun, QaConversation, QaChanges, is_running}
use crosscomply_agent.Qa.Changes.{
  claim_run, has_id, new_run, same_or_new, retry_run, checkpoint_run,
}
use crosscomply_agent.Qa.Store.{create, add_material, enqueue, retry, checkpoint, claim, edit}
use crosscomply_agent.Qa.Events.{
  Event, open_conversation, attach, ask, ask_again, report, take, happen, IsFresh, Run, start, next,
  rows_after, Gives, edit-Holds,
}
use crosscomply_agent.Qa.Ended.{IsOver, EndedIn, HasEnded, claim_run-EndedIn}
use crosscomply_agent.Qa.Kept.{same_or_new-EndedIn, retry_run-EndedIn, checkpoint_run-EndedIn}

module _ (c k : String) (n : ℕ) where
  Gives-all {ℓ} :
      {A : Type ℓ} (Q : QaConversation → Type 0) (m : Result (A × QaConversation))
      → ((row : QaConversation) → Q row)
      → Gives Q m
  Gives-all Q (ok (a, row)) h = h row
  Gives-all Q (err e) h = tt

  other-HasEnded :
      (j : String) (row : QaConversation) (s : Dict QaConversation)
      → (j == c) ≡ false
      → HasEnded c k n s
      → HasEnded c k n (put j row s)
  other-HasEnded j row s other (old, e, h) = (old, (get-put j c row s ∙ rw other e), h)

  same-HasEnded :
      (j : String) (row : QaConversation) (s : Dict QaConversation)
      → (j == c) ≡ true
      → EndedIn k n row.runs
      → HasEnded c k n (put j row s)
  same-HasEnded j row s same h = (row, (get-put j c row s ∙ rw same refl), h)

  edited-HasEnded {ℓ} :
      (dumps : QaConversation → String) {A : Type ℓ} (j : String)
      (change : QaConversation → Result (A × QaConversation)) (now : ℕ) (s : Dict QaConversation)
      → HasEnded c k n s
      → ((row : QaConversation)
          → EndedIn k n row.runs
          → Gives (λ x. EndedIn k n x.runs) (change row))
      → HasEnded c k n (rows_after s (edit dumps j change now s))
  edited-HasEnded dumps {A} j change now s h keep =
      edit-Holds dumps (HasEnded c k n) j change now s h λ row e. elim (Bool-cases (j == c)) [
        | inl i ↦
            let (old, g, ended) = h in
            let j_c : j ≡ c = (eq_iff j c).0 i in
            let same : some row ≡ some old = sym e ∙ ap (λ x. get x s) j_c ∙ g in
            let here : EndedIn k n row.runs =
              let old_row : old ≡ row = cc (sym same) in
              subst (λ x. EndedIn k n x.runs) old_row ended in
            stored i (change row) (keep row here)
        | inr i ↦ Gives-all _ (change row) (λ row'. other-HasEnded j _ s i h)
      ]
    where
      stored :
          (j == c) ≡ true
          → (m : Result (A × QaConversation)) → Gives (λ x. EndedIn k n x.runs) m
          → Gives (λ row'. HasEnded c k n (put j (record row' { updated_at = now }) s)) m
      stored i (ok (a, row')) g = same-HasEnded j (record row' { updated_at = now }) s i g
      stored i (err e) g = tt

  head-HasEnded :
      (j : String) (x : QaConversation) (s : Dict QaConversation)
      → (j == c) ≡ true
      → EndedIn k n x.runs
      → HasEnded c k n ((j, x) ∷ s)
  head-HasEnded j x s i h = (x, (rw i refl), h)

  tail-HasEnded :
      (j : String) (x : QaConversation) (s : Dict QaConversation)
      → (j == c) ≡ false
      → HasEnded c k n s
      → HasEnded c k n ((j, x) ∷ s)
  tail-HasEnded j x s i (row, e, h) = (row, (rw i e), h)

  cons-cases :
      (j : String) (x : QaConversation) (s : Dict QaConversation)
      → HasEnded c k n ((j, x) ∷ s)
      → (((j == c) ≡ true) × EndedIn k n x.runs) ⊎ (((j == c) ≡ false) × HasEnded c k n s)
  cons-cases j x s (row, e, h) = elim (Bool-cases (j == c)) [
    | inl i ↦
        let same : some x ≡ some row = rw i at e in
        let row_x : row ≡ x = cc (sym same) in inl (i, subst (λ y. EndedIn k n y.runs) row_x h)
    | inr i ↦ inr (i, (row, (rw i at e), h))
  ]

  claim-HasEnded :
      (now : ℕ) (s : Dict QaConversation) → HasEnded c k n s → HasEnded c k n (claim now s).1
  unfolding claim
  claim-HasEnded now [] (row, e, h) = cc
  claim-HasEnded now ((j, x) ∷ s) h = elim (cons-cases j x s h) [
    | inl (i, g) ↦
        let after = claim_run-EndedIn k n now x.runs g in
        elim (Option-cases (claim_run now x.runs).0) [
          | inl e ↦ rw (e, claim, HasEnded) (head-HasEnded j _ _ i after)
          | inr (r, e) ↦ rw (e, claim, HasEnded) (head-HasEnded j _ s i after)
        ]
    | inr (i, g) ↦ elim (Option-cases (claim_run now x.runs).0) [
      | inl e ↦ rw (e, claim, HasEnded) (tail-HasEnded j _ _ i (claim-HasEnded now s g))
      | inr (r, e) ↦ rw (e, claim, HasEnded) (tail-HasEnded j _ s i g)
    ]
  ]

  fresh_other :
      (id : String) (row : QaConversation) (s : Dict QaConversation)
      → get id s ≡ none
      → get c s ≡ some row
      → (id == c) ≡ false
  fresh_other id row s f g = ground (arith, eq_iff id c, f, g)

  happen-HasEnded :
      (dumps : QaConversation → String) (now : ℕ) (e : Event) (s : Dict QaConversation)
      → IsFresh dumps e s
      → HasEnded c k n s
      → HasEnded c k n (happen dumps now e s)
  unfolding happen create add_material enqueue retry checkpoint
  happen-HasEnded dumps now (open_conversation owner id) s f h =
      let (row, g, ended) = h in other-HasEnded id _ s (fresh_other id row s f g) h
  happen-HasEnded dumps now (attach j m) s f h =
      edited-HasEnded dumps j (λ row. ok (m, record row { materials = row.materials ++ m ∷ [] }))
        now s h (λ row g. g)
  happen-HasEnded dumps now (ask j q ms request id) s f h =
      edited-HasEnded dumps j
        (λ row.
          same_or_new (find (λ r. r.request_id == request) row.runs) (new_run q ms request id now)
            row)
        now s h
        (λ row g.
          same_or_new-EndedIn k n (find (λ r. r.request_id == request) row.runs)
            (new_run q ms request id now) row g)
  happen-HasEnded dumps now (ask_again j r) s f h =
      edited-HasEnded dumps j (retry_run r) now s h (retry_run-EndedIn k r n)
  happen-HasEnded dumps now (report j r m changes) s f h =
      edited-HasEnded dumps j (checkpoint_run r m changes now) now s h
        (checkpoint_run-EndedIn k r n m changes now)
  happen-HasEnded dumps now take s f h = claim-HasEnded now s h

  Run-HasEnded :
      (dumps : QaConversation → String) {s u : Dict QaConversation}
      → HasEnded c k n s
      → Run dumps s u
      → HasEnded c k n u
  Run-HasEnded dumps h start = h
  Run-HasEnded dumps h (next {t = t} r now e fresh eq) =
      subst (HasEnded c k n) (sym eq) (happen-HasEnded dumps now e t fresh (Run-HasEnded dumps h r))

-- An attempt that has ended stays ended. If a run does not run under an attempt, and has at least
-- that count of attempts, then after any events a report under the attempt is a conflict, whatever it
-- says: no worker changes an answer after its lease was taken, or after it gave the answer.
pub ended_attempt_is_refused :
    (dumps : QaConversation → String) {s u : Dict QaConversation} (c k : String) (n : ℕ)
    (row : QaConversation) (r : QaRun)
    → get c s ≡ some row
    → find (has_id k) row.runs ≡ some r
    → n ≤ r.attempt
    → (r.attempt ≡ n → is_running r.status ≡ false)
    → Run dumps s u
    → (changes : QaChanges) (now : ℕ) → checkpoint dumps c k n changes now u ≡ err qa_conflict
unfolding checkpoint
ended_attempt_is_refused dumps {u} c k n row r g f counted stopped run changes now =
    let before : HasEnded c k n _ =
      (row, g, (r, f, record { counted = counted; stopped = stopped })) in
    let (row', g', (r', f', over)) = Run-HasEnded c k n dumps before run in
    refused row' r' g' f' over
  where
    refused :
        (row' : QaConversation) (r' : QaRun)
        → get c u ≡ some row'
        → find (has_id k) row'.runs ≡ some r'
        → IsOver n r'
        → checkpoint dumps c k n changes now u ≡ err qa_conflict
    refused row' r' g' f' over = elim (Bool-cases (is_running r'.status)) [
      | inl on ↦
          let later : nat_eq r'.attempt n ≡ false = elim (Bool-cases (nat_eq r'.attempt n)) [
            | inl e ↦ let off = over.stopped (ground arith) in absurd (ground (arith, on, off))
            | inr e ↦ e
          ] in
          rw (g', edit, item) (rw (f', checkpoint_run) (rw (on, later) refl))
      | inr off ↦ rw (g', edit, item) (rw (f', checkpoint_run) (rw off refl))
    ]
