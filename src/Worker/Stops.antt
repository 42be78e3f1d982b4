-- ===== src/Worker/Stops.antt =====
-- Over the in-memory store an attempt that a worker reported on runs no more
-- (law_agent/review/worker.py, law_agent/review/enterprise_store.py).
use mathlib.Core.Path.{subst}
use crosscomply_agent.Prelude.{
  ℕ, suc, ◌+◌, String, Bool, Bool-cases, Option-cases, true, false, not, ◌||◌, Option, none, some,
  ◌≡◌, refl, sym, ap, ◌∙◌, ◌≢◌, ◌⊎◌, inl, inr, arith, get, put, get-put_self, Error, key_error,
  Result, ok, err, item, raise_if, ◌>>=◌, ◌>>◌, List, [], ◌∷◌,
}
use crosscomply_agent.Prelude as P
use crosscomply_agent.Workflow.{ReviewPayload}
use crosscomply_agent.Enterprise.Records.{AgentState, ReviewTask}
use crosscomply_agent.Enterprise.Tasks.{save, is_running, has_no_attempts, is_stale}
use crosscomply_agent.Enterprise.Outcomes.{
  complete_task, fail_task, pause_task, get_task, completed, failed_with, paused,
}
use crosscomply_agent.Enterprise.Validity.{change_task}
use crosscomply_agent.Worker.Queue.{IsFenced, IsDefinite, HasReturned}
use crosscomply_agent.Worker.InMemory.{World, report, in_memory_queue, RunsAt}

pub completed-stops :
    (r : ReviewPayload) (node : String) (now : ℕ) (t : ReviewTask)
    → is_running (completed r node now t).status ≡ false
unfolding completed
completed-stops r node now t = refl

pub paused-stops :
    (st : AgentState) (now : ℕ) (t : ReviewTask) → is_running (paused st now t).status ≡ false
unfolding paused
paused-stops st now t = refl

pub failed_with-stops :
    (node c m : String) (now : ℕ) (t : ReviewTask)
    → is_running (failed_with node c m now t).status ≡ false
unfolding failed_with
failed_with-stops node c m now t = refl

-- The guard of a report under the attempt that runs.
pub running-passes :
    (n : ℕ) (t : ReviewTask)
    → is_running t.status ≡ true
    → has_no_attempts t ≡ false
    → t.attempt_count ≡ n
    → (not (is_running t.status) || has_no_attempts t || is_stale (some n) t) ≡ false
running-passes n t runs a e = ground arith

module _ (message : Error → String) where
  -- How a method on one task ends.
  abbrev Ends : String → (ReviewTask → Bool) → (ReviewTask → ReviewTask) → World → Type 0
  Ends k bad f w =
      ((get k w.store.tasks ≡ none) × (change_task k bad f w.store ≡ err key_error))
      ⊎ ((t : ReviewTask) × (get k w.store.tasks ≡ some t)
          × (bad t ≡ true)
          × (change_task k bad f w.store ≡ err P.value_error))
      ⊎ ((t : ReviewTask) × (get k w.store.tasks ≡ some t)
          × (bad t ≡ false)
          × (change_task k bad f w.store ≡ ok (save k (f t) w.store)))

  module _ (k : String) (bad : ReviewTask → Bool) (f : ReviewTask → ReviewTask) (w : World) where
    ends : Ends k bad f w
    ends = elim (Option-cases (get k w.store.tasks)) [
      | inl e ↦ inl (e, ground (arith, e))
      | inr (t, e) ↦ elim (Bool-cases (bad t)) [
        | inl b ↦ inr (inl (t, e, b, ground (arith, e, b)))
        | inr b ↦ inr (inr (t, e, b, ground (arith, e, b)))
      ]
    ]

    -- A task that is changed into one that does not run.
    saved-stops :
        (n : ℕ) (t : ReviewTask)
        → is_running (f t).status ≡ false
        → RunsAt k n (record w { store = (save k (f t) w.store).1 })
        → ⊥
    saved-stops n t stops (u, found, runs, b, c) =
        let same : u ≡ f t = cc (get-put_self k (f t) w.store.tasks) in
        P.false-true (sym stops ∙ ap (λ v. is_running v.status) (sym same) ∙ runs)

    pub returned-settles :
        (n : ℕ)
        → ((t : ReviewTask) → is_running (f t).status ≡ false)
        → HasReturned (report message (change_task k bad f w.store) w).0
        → RunsAt k n (report message (change_task k bad f w.store) w).1
        → ⊥
    returned-settles n stops h r = elim ends [
      | inl (e, x) ↦ subst (λ y. HasReturned (report message y w).0) x h
      | inr (inl (t, e, b, x)) ↦ subst (λ y. HasReturned (report message y w).0) x h
      | inr (inr (t, e, b, x)) ↦
          saved-stops n t (stops t) (subst (λ y. RunsAt k n (report message y w).1) x r)
    ]

    pub definite-settles :
        (n : ℕ)
        → ((t : ReviewTask) → is_running (f t).status ≡ false)
        → ((t : ReviewTask)
            → is_running t.status ≡ true
            → has_no_attempts t ≡ false
            → t.attempt_count ≡ n
            → bad t ≡ false)
        → IsDefinite (report message (change_task k bad f w.store) w).0
        → RunsAt k n (report message (change_task k bad f w.store) w).1
        → ⊥
    definite-settles n stops passes h r = elim ends [
      | inl (e, x) ↦ subst (λ y. IsDefinite (report message y w).0) x h
      | inr (inl (t, e, b, x)) ↦
          let (u, found, runs, a, c) = subst (λ y. RunsAt k n (report message y w).1) x r in
          let same : u ≡ t = cc (sym found ∙ e) in
          P.false-true (sym (passes u runs a c) ∙ ap bad same ∙ b)
      | inr (inr (t, e, b, x)) ↦
          saved-stops n t (stops t) (subst (λ y. RunsAt k n (report message y w).1) x r)
    ]

    pub found-IsDefinite :
        (t : ReviewTask)
        → get k w.store.tasks ≡ some t
        → IsDefinite (report message (change_task k bad f w.store) w).0
    found-IsDefinite t h = elim ends [
      | inl (e, x) ↦ absurd (ground (arith, e, h))
      | inr (inl (u, e, b, x)) ↦ subst (λ y. IsDefinite (report message y w).0) (sym x) tt
      | inr (inr (u, e, b, x)) ↦ subst (λ y. IsDefinite (report message y w).0) (sym x) tt
    ]

  unfoldable pub in_memory_queue-IsFenced : IsFenced (in_memory_queue message)
  unfolding complete_task fail_task pause_task get_task
  in_memory_queue-IsFenced = record {
    IsRunningAt = RunsAt;
    complete_settles = λ k r node n w.
        returned-settles k _ (completed r node w.now) w n (completed-stops r node w.now);
    pause_settles = λ k st n w. returned-settles k _ (paused st w.now) w n (paused-stops st w.now);
    fail_settles = λ k node c m n w.
        definite-settles k _ (failed_with node c m w.now) w n (failed_with-stops node c m w.now)
          (running-passes n);
    get_keeps = λ j k n w r. r;
  }
