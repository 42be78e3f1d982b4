-- ===== src/Qa/Single.antt =====
-- A conversation has one question under investigation at a time (law_agent/review/qa_store.py).
use mathlib.Core.Path.{subst}
use crosscomply_agent.Prelude.{
  ℕ, suc, ◌≤◌, String, true, false, not, ◌||◌, ◌≡◌, refl, sym, ap, ◌∙◌, inl, inr, Bool-cases,
  Option-cases, Option, none, some, List, [], ◌∷◌, ◌++◌, arith, any, find, Dict, put, values, All,
  All-put, All-get, Result, ok, err, raise_if, ◌>>◌, if◌then◌else◌, or_false, and_true, nat_eq, ltb,
  ◌==◌, ◌!=◌, ◌⊎◌, qa_conflict,
}
use crosscomply_agent.Qa.Records.{
  QaRun, QaConversation, QaChanges, is_queued, is_running, is_failed,
}
use crosscomply_agent.Qa.Changes.{
  claim_run, expire, started, retried, checkpointed, is_in_flight, has_id, update_run, new_run,
  append_run, same_or_new, are_known, retry_run, checkpoint_run, is_last, has_expired, interrupted,
  same_texts,
}
use crosscomply_agent.Qa.Store.{create, add_material, enqueue, retry, checkpoint, claim, edit}
use crosscomply_agent.Qa.Events.{
  Event, open_conversation, attach, ask, ask_again, report, take, happen, Run, start, next,
  rows_after, Gives, raise_if-Gives, edit-Holds,
}

-- The number of runs that wait or run.
abbrev pub in_flight_count : List QaRun → ℕ
in_flight_count [] = 0
in_flight_count (r ∷ rs) = let n = in_flight_count rs in if is_in_flight r then suc n else n

abbrev pub IsSingle : QaConversation → Type 0
IsSingle row = in_flight_count row.runs ≤ 1

none_in_flight : (rs : List QaRun) → any is_in_flight rs ≡ false → in_flight_count rs ≡ 0
none_in_flight [] h = refl
none_in_flight (r ∷ rs) h =
    let (a, b) = or_false (is_in_flight r) (any is_in_flight rs) h in rw a (none_in_flight rs b)

count-append :
    (rs : List QaRun) (r : QaRun) → in_flight_count (rs ++ r ∷ []) ≤ suc (in_flight_count rs)
count-append [] r = ground arith
count-append (x ∷ rs) r = let ih = count-append rs r in ground (arith, ih)

-- A change of one run adds at most one.
count-update_run :
    (k : String) (f : QaRun → QaRun) (rs : List QaRun)
    → in_flight_count (update_run k f rs) ≤ suc (in_flight_count rs)
count-update_run k f [] = omega arith
count-update_run k f (r ∷ rs) = let ih = count-update_run k f rs in ground (arith, ih)

-- It adds none if the run was in flight before.
count-update_in_flight :
    (k : String) (f : QaRun → QaRun) (rs : List QaRun) (r : QaRun)
    → find (has_id k) rs ≡ some r
    → is_in_flight r ≡ true
    → in_flight_count (update_run k f rs) ≤ in_flight_count rs
count-update_in_flight k f [] r e h = omega arith
count-update_in_flight k f (x ∷ rs) r e h = elim (Bool-cases (has_id k x)) [
  | inl i ↦
      let same : some x ≡ some r = rw i at e in
      let on : is_in_flight x ≡ true = ground (arith, same, h) in rw (i, on) (ground arith)
  | inr i ↦ let ih = count-update_in_flight k f rs r (rw i at e) h in rw i (ground (arith, ih))
]

-- Only a run that runs is interrupted.
pub expire-cases :
    (now : ℕ) (r : QaRun)
    → (expire now r ≡ r) ⊎ ((expire now r ≡ interrupted r) × (is_running r.status ≡ true))
unfolding expire
expire-cases now r = elim (Bool-cases (has_expired now r)) [
  | inl h ↦ rw h (inr (refl, expired-running r.lease_expires_at refl h))
  | inr h ↦ rw h (inl refl)
]
  where
    expired-running :
        (lease : Option ℕ)
        → r.lease_expires_at ≡ lease
        → has_expired now r ≡ true
        → is_running r.status ≡ true
    expired-running none e h = ground (arith, e, h)
    expired-running (some l) e h = (and_true (is_running r.status) (ltb l now) (rw e at h)).0

queued_expired-count :
    (now : ℕ) (r : QaRun) → is_queued (expire now r).status ≡ true → is_in_flight r ≡ true
queued_expired-count now r q = elim (expire-cases now r) [
  | inl e ↦ let h = ap (λ u. is_queued u.status) (sym e) ∙ q in ground (arith, h)
  | inr (e, on) ↦ ground (arith, on)
]

expired-count :
    (now : ℕ) (r : QaRun) (m n : ℕ)
    → m ≤ n
    → (if is_in_flight (expire now r) then suc m else m) ≤ (if is_in_flight r then suc n else n)
expired-count now r m n h = elim (expire-cases now r) [
  | inl e ↦ rw e (ground (arith, h))
  | inr (e, on) ↦ rw (e, on) (ground (arith, h))
]

pub claim_run-count :
    (now : ℕ) (rs : List QaRun) → in_flight_count (claim_run now rs).1 ≤ in_flight_count rs
unfolding claim_run started
claim_run-count now [] = omega arith
claim_run-count now (r ∷ rs) = elim (Bool-cases (is_queued (expire now r).status)) [
  | inl q ↦ rw (q, queued_expired-count now r q) (omega arith)
  | inr q ↦ rw q (expired-count now r _ _ (claim_run-count now rs))
]

claim-AreSingle :
    (now : ℕ) (s : Dict QaConversation)
    → All IsSingle (values s)
    → All IsSingle (values (claim now s).1)
unfolding claim
claim-AreSingle now [] h = tt
claim-AreSingle now ((k, row) ∷ s) h =
    let fewer = claim_run-count now row.runs in
    let single : in_flight_count (claim_run now row.runs).1 ≤ 1 =
      let one = h.0 in omega (arith, fewer, one) in
    elim (Option-cases (claim_run now row.runs).0) [
      | inl e ↦ rw (e, All, values) (single, claim-AreSingle now s h.1)
      | inr (r, e) ↦ rw (e, All, values) (single, h.1)
    ]

same_or_new-IsSingle :
    (o : Option QaRun) (new : QaRun) (row : QaConversation)
    → IsSingle row
    → Gives IsSingle (same_or_new o new row)
same_or_new-IsSingle (some run) new row h =
    raise_if-Gives IsSingle
      (run.question != new.question || not (same_texts run.material_ids new.material_ids))
      qa_conflict (ok (run, row)) (λ _. h)
same_or_new-IsSingle none new row h =
    raise_if-Gives IsSingle (any is_in_flight row.runs) qa_conflict
      (raise_if (not (are_known new.material_ids row.materials)) qa_conflict
        >> ok (new, append_run new row))
      λ idle.
        raise_if-Gives IsSingle (not (are_known new.material_ids row.materials)) qa_conflict
          (ok (new, append_run new row))
          λ _.
            let none_before = none_in_flight row.runs idle in
            let one_more = count-append row.runs new in omega (arith, none_before, one_more)

retry_run-IsSingle :
    (k : String) (row : QaConversation) → IsSingle row → Gives IsSingle (retry_run k row)
retry_run-IsSingle k row h = elim (Option-cases (find (has_id k) row.runs)) [
  | inl e ↦ rw (e, retry_run, Gives) tt
  | inr (run, e) ↦
      rw (e, retry_run)
        (raise_if-Gives IsSingle (not (is_failed run.status) || any is_in_flight row.runs)
          qa_conflict
          (raise_if (not (is_last k row.runs)) qa_conflict
            >> ok (retried run, record row { runs = update_run k retried row.runs }))
          λ idle.
            raise_if-Gives IsSingle (not (is_last k row.runs)) qa_conflict
              (ok (retried run, record row { runs = update_run k retried row.runs }))
              λ _.
                let quiet =
                  (or_false (not (is_failed run.status)) (any is_in_flight row.runs) idle).1 in
                let none_before = none_in_flight row.runs quiet in
                let one_more = count-update_run k retried row.runs in
                omega (arith, none_before, one_more))
]

checkpoint_run-IsSingle :
    (k : String) (n : ℕ) (c : QaChanges) (now : ℕ) (row : QaConversation)
    → IsSingle row
    → Gives IsSingle (checkpoint_run k n c now row)
checkpoint_run-IsSingle k n c now row h = elim (Option-cases (find (has_id k) row.runs)) [
  | inl e ↦ rw (e, checkpoint_run, Gives) tt
  | inr (run, e) ↦
      rw (e, checkpoint_run)
        (raise_if-Gives IsSingle (not (is_running run.status) || not (nat_eq run.attempt n))
          qa_conflict
          (ok (
            checkpointed c now run,
            record row { runs = update_run k (checkpointed c now) row.runs },
          ))
          λ runs.
            let on : is_in_flight run ≡ true = ground (arith, runs) in
            let fewer = count-update_in_flight k (checkpointed c now) row.runs run e on in
            omega (arith, fewer, h))
]

module _ (dumps : QaConversation → String) where
  edited {ℓ} :
      {A : Type ℓ} (k : String) (change : QaConversation → Result (A × QaConversation)) (now : ℕ)
      (s : Dict QaConversation)
      → All IsSingle (values s)
      → ((row : QaConversation) → IsSingle row → Gives IsSingle (change row))
      → All IsSingle (values (rows_after s (edit dumps k change now s)))
  edited {A} k change now s h keep =
      edit-Holds dumps (λ x. All IsSingle (values x)) k change now s h
        (λ row e. Gives-map (change row) (keep row (All-get IsSingle k s row h e)))
    where
      Gives-map :
          (m : Result (A × QaConversation))
          → Gives IsSingle m
          → Gives (λ row'. All IsSingle (values (put k (record row' { updated_at = now }) s))) m
      Gives-map (err x) g = tt
      Gives-map (ok (a, row')) g = All-put IsSingle k (record row' { updated_at = now }) s g h

  happen-AreSingle :
      (now : ℕ) (e : Event) (s : Dict QaConversation)
      → All IsSingle (values s)
      → All IsSingle (values (happen dumps now e s))
  unfolding happen create add_material enqueue retry checkpoint
  happen-AreSingle now (open_conversation owner id) s h = All-put IsSingle id _ s (omega arith) h
  happen-AreSingle now (attach c m) s h =
      edited c (λ row. ok (m, record row { materials = row.materials ++ m ∷ [] })) now s h
        (λ row one. one)
  happen-AreSingle now (ask c q ms request id) s h = edited c _ now s h (λ row one.
      same_or_new-IsSingle (find (λ r. r.request_id == request) row.runs)
        (new_run q ms request id now) row one)
  happen-AreSingle now (ask_again c r) s h = edited c (retry_run r) now s h (retry_run-IsSingle r)
  happen-AreSingle now (report c r n changes) s h =
      edited c (checkpoint_run r n changes now) now s h (checkpoint_run-IsSingle r n changes now)
  happen-AreSingle now take s h = claim-AreSingle now s h

  -- In every store that is reached from the empty one, by any methods in any order at any times, no
  -- conversation has two runs that wait or run.
  pub Run-AreSingle : {s : Dict QaConversation} → Run dumps [] s → All IsSingle (values s)
  Run-AreSingle start = tt
  Run-AreSingle (next {t = t} r now e fresh eq) =
      subst (λ x. All IsSingle (values x)) (sym eq) (happen-AreSingle now e t (Run-AreSingle r))
