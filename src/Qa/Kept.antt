-- ===== src/Qa/Kept.antt =====
-- The methods on questions leave an attempt ended that has ended (law_agent/review/qa_store.py).
use crosscomply_agent.Prelude.{
  ℕ, String, true, not, ◌||◌, ◌≡◌, refl, sym, ◌∙◌, inl, inr, Option-cases, Option, none, some,
  arith, any, find, nat_eq, ◌!=◌, ok, raise_if, ◌>>◌, qa_conflict,
}
use crosscomply_agent.Qa.Records.{QaRun, QaConversation, QaChanges, is_running, is_failed}
use crosscomply_agent.Qa.Changes.{
  retried, checkpointed, is_in_flight, has_id, update_run, append_run, same_or_new, are_known,
  retry_run, checkpoint_run, is_last, same_texts,
}
use crosscomply_agent.Qa.Events.{Gives, raise_if-Gives}
use crosscomply_agent.Qa.Ended.{IsOver, EndedIn, idle-IsOver, append-EndedIn, update_run-EndedIn}

pub same_or_new-EndedIn :
    (k : String) (n : ℕ) (o : Option QaRun) (new : QaRun) (row : QaConversation)
    → EndedIn k n row.runs
    → Gives (λ x. EndedIn k n x.runs) (same_or_new o new row)
same_or_new-EndedIn k n (some run) new row h =
    raise_if-Gives _
      (run.question != new.question || not (same_texts run.material_ids new.material_ids))
      qa_conflict (ok (run, row)) (λ _. h)
same_or_new-EndedIn k n none new row h =
    raise_if-Gives _ (any is_in_flight row.runs) qa_conflict
      (raise_if (not (are_known new.material_ids row.materials)) qa_conflict
        >> ok (new, append_run new row))
      λ _.
        raise_if-Gives _ (not (are_known new.material_ids row.materials)) qa_conflict
          (ok (new, append_run new row)) λ _. append-EndedIn k n new row.runs h

pub retry_run-EndedIn :
    (k j : String) (n : ℕ) (row : QaConversation)
    → EndedIn k n row.runs
    → Gives (λ x. EndedIn k n x.runs) (retry_run j row)
retry_run-EndedIn k j n row h = elim (Option-cases (find (has_id j) row.runs)) [
  | inl e ↦ rw (e, retry_run, Gives) tt
  | inr (run, e) ↦
      let kept : EndedIn k n (update_run j retried row.runs) =
        unfold retried in
        update_run-EndedIn k j n retried row.runs (λ r. refl)
          (λ r _ o. idle-IsOver n r (retried r) refl refl o) h in
      rw (e, retry_run)
        (raise_if-Gives _ (not (is_failed run.status) || any is_in_flight row.runs) qa_conflict
          (raise_if (not (is_last j row.runs)) qa_conflict
            >> ok (retried run, record row { runs = update_run j retried row.runs }))
          λ _.
            raise_if-Gives _ (not (is_last j row.runs)) qa_conflict
              (ok (retried run, record row { runs = update_run j retried row.runs })) λ _. kept)
]

-- A report that is accepted comes from an attempt that is not over.
checkpointed-IsOver :
    (n m : ℕ) (c : QaChanges) (now : ℕ) (r : QaRun)
    → is_running r.status ≡ true
    → IsOver n r
    → IsOver n (checkpointed c now r)
unfolding checkpointed
checkpointed-IsOver n m c now r on o = record {
  counted = o.counted;
  stopped = λ e. let off = o.stopped e in absurd (ground (arith, on, off));
}

pub checkpoint_run-EndedIn :
    (k j : String) (n m : ℕ) (c : QaChanges) (now : ℕ) (row : QaConversation)
    → EndedIn k n row.runs
    → Gives (λ x. EndedIn k n x.runs) (checkpoint_run j m c now row)
checkpoint_run-EndedIn k j n m c now row h = elim (Option-cases (find (has_id j) row.runs)) [
  | inl e ↦ rw (e, checkpoint_run, Gives) tt
  | inr (run, e) ↦
      rw (e, checkpoint_run)
        (raise_if-Gives _ (not (is_running run.status) || not (nat_eq run.attempt m)) qa_conflict
          (ok (
            checkpointed c now run,
            record row { runs = update_run j (checkpointed c now) row.runs },
          ))
          λ passed.
            let on : is_running run.status ≡ true = ground (arith, passed) in
            update_run-EndedIn k j n (checkpointed c now) row.runs
              (λ r. unfold checkpointed in refl)
              (λ r f o.
                let same : some run ≡ some r = sym e ∙ f in
                checkpointed-IsOver n m c now r (ground (arith, same, on)) o)
              h)
]
