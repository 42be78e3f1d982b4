-- ===== src/Worker/Pass.antt =====
-- One pass of a worker over the in-memory store (law_agent/review/worker.py,
-- law_agent/review/enterprise_store.py).
use mathlib.Core.Path.{subst}
use crosscomply_agent.Prelude.{
  ℕ, String, Option, none, some, ◌≡◌, refl, sym, ap, ◌∙◌, arith, get, put, get-put_self, Error,
  Result, ok, err, List, [], ◌∷◌,
}
use crosscomply_agent.Enterprise.Records.{ReviewTask, EnterpriseStore, HashInput}
use crosscomply_agent.Enterprise.Tasks.{
  default_task_lease_seconds, claim_next_task, claim_head, claimed, queued_tasks,
  requeue_expired_tasks,
}
use crosscomply_agent.Enterprise.Outcomes.{
  complete_task, fail_task, pause_task, get_task, failed_with,
}
use crosscomply_agent.Enterprise.Events.{Event, happen, store_after, Run}
use crosscomply_agent.Enterprise.Validity.{
  IsValid, complete_task-IsValid, fail_task-IsValid, pause_task-IsValid,
}
use crosscomply_agent.Enterprise.Invariant.{happen-IsValid}
use crosscomply_agent.Enterprise.Turns.{HasTurned}
use crosscomply_agent.Enterprise.Turns.Happen.{happen-HasTurned, Run-HasTurned}
use crosscomply_agent.Worker.Queue.{Outcome, returned, raised, M, IsDefinite, HasReturned}
use crosscomply_agent.Worker.Run.{Executed, Callbacks, run_once}
use crosscomply_agent.Worker.Fencing.{IsConcluded, run_once-IsConcluded}
use crosscomply_agent.Worker.Reliable.{IsReliable, run_once-Returns}
use crosscomply_agent.Worker.InMemory.{World, report, in_memory_queue, RunsAt}
use crosscomply_agent.Worker.Stops.{found-IsDefinite, in_memory_queue-IsFenced}

module _ (message : Error → String) where
  pub fail-IsDefinite :
      (k node c m : String) (n : ℕ) (w : World) (t : ReviewTask)
      → get k w.store.tasks ≡ some t
      → IsDefinite (report message (fail_task k node c m (some n) w.now w.store) w).0
  unfolding fail_task
  fail-IsDefinite k node c m n w t h =
      found-IsDefinite message k _ (failed_with node c m w.now) w t h

  -- A valid store that has the task.
  abbrev pub Has : String → World → Type 0
  Has k w = IsValid w.store × ((t : ReviewTask) × (get k w.store.tasks ≡ some t))

  pub reported-Has :
      (k : String) (w : World) (m : Result (ReviewTask × EnterpriseStore))
      → IsValid (store_after w.store m)
      → ((t : ReviewTask) → get k w.store.tasks ≡ some t → HasTurned k t (store_after w.store m))
      → Has k w
      → Has k (report message m w).1
  reported-Has k w (ok (t, s)) v turned (_, (u, found)) =
      let (u', g, a) = turned u found in (v, (u', g))
  reported-Has k w (err e) v turned h = h

  claim_head_finds :
      (q : List ReviewTask) (worker_id : String) (l now : ℕ) (s s' : EnterpriseStore)
      (t : ReviewTask)
      → (claim_head q worker_id l now s).0 ≡ some t
      → (claim_head q worker_id l now s).1 ≡ s'
      → (u : ReviewTask) × (get t.id s'.tasks ≡ some u)
  unfolding claim_head
  claim_head_finds [] worker_id l now s s' t e f = absurd (ground arith)
  claim_head_finds (v ∷ q) worker_id l now s s' t e f =
      let t_claimed : t ≡ claimed worker_id l now v = ground arith in
      let s_put : s' ≡ record s { tasks = put v.id (claimed worker_id l now v) s.tasks } = sym f in
      let same : t.id ≡ v.id = ap (λ x. x.id) t_claimed ∙ (unfold claimed in refl) in
      (
        claimed worker_id l now v,
        ap (λ x. get t.id x.tasks) s_put
            ∙ ap (λ i. get i (put v.id (claimed worker_id l now v) s.tasks)) same
            ∙ get-put_self v.id (claimed worker_id l now v) s.tasks,
      )

  some_of_returned :
      {o p : Option ReviewTask}
      → ◌≡◌ {A = Outcome (Option ReviewTask)} (returned o) (returned p)
      → o ≡ p
  some_of_returned h = cc

  module _ (canonical_hash : HashInput → String) where
    pub claimed-Has :
        (worker_id : String) (w w' : World) (t : ReviewTask)
        → IsValid w.store
        → (in_memory_queue message).claim_next_task worker_id w ≡ (returned (some t), w')
        → Has t.id w'
    unfolding claim_next_task happen
    claimed-Has worker_id w w' t v e =
        let s = (requeue_expired_tasks w.now w.store).1 in
        let after = ap (λ r. r.1.store) e in
        (
          subst IsValid after (
              happen-IsValid canonical_hash w.now (Event.claim worker_id default_task_lease_seconds)
                w.store v),
          claim_head_finds (queued_tasks s) worker_id default_task_lease_seconds w.now s w'.store t
              (some_of_returned (ap (λ r. r.0) e)) after,
        )

    unfoldable pub in_memory_queue-IsReliable : IsReliable (in_memory_queue message)
    unfolding get_task happen
    in_memory_queue-IsReliable = record {
      IsSane = λ w. IsValid w.store;
      HasTask = Has;
      claim_returns = λ worker_id w. tt;
      claim_finds = λ worker_id w w' t v e. claimed-Has worker_id w w' t v e;
      complete_keeps = λ k r node n w h.
          reported-Has k w (complete_task k r node (some n) w.now w.store)
            (complete_task-IsValid w.store h.0 w.now k r node (some n))
            (λ t g.
              happen-HasTurned canonical_hash w.now (Event.complete k r node (some n)) w.store k t
                h.0 tt g)
            h;
      pause_keeps = λ k st n w h.
          reported-Has k w (pause_task k st (some n) w.now w.store)
            (pause_task-IsValid w.store h.0 w.now k st (some n))
            (λ t g.
              happen-HasTurned canonical_hash w.now (Event.pause k st (some n)) w.store k t h.0 tt
                g)
            h;
      fail_is_definite = λ k node c m n w h. (
        fail-IsDefinite k node c m n w h.1.0 h.1.1,
        reported-Has k w (fail_task k node c m (some n) w.now w.store)
            (fail_task-IsValid w.store h.0 w.now k node c m (some n))
            (λ t g.
              happen-HasTurned canonical_hash w.now (Event.fail k node c m (some n)) w.store k t h.0
                tt g)
            h,
      );
      get_finds = λ k w h. (h.1.0, ap (λ o. returned o) h.1.1);
    }

    -- The agent's run and what others do to the store meanwhile are runs of the store's events.
    abbrev pub ActsByEvents : {A : Type 0} → (ReviewTask → M World A) → Type 0
    ActsByEvents execute =
        (t : ReviewTask) (w : World) → Run canonical_hash w.store (execute t w).1.store

    -- What a pass comes to, by what the claim gave.
    abbrev pub IsPassOf :
        Outcome (Option ReviewTask) × World → Outcome (Option ReviewTask) × World → Type 0
    IsPassOf (raised e, w) after = ⊥
    IsPassOf (returned none, w) after = after ≡ (returned none, w)
    IsPassOf (returned (some t), w) after =
        HasReturned after.0 × (RunsAt t.id t.attempt_count after.1 → ⊥)

    pass_of :
        (claim after : Outcome (Option ReviewTask) × World)
        → HasReturned claim.0
        → HasReturned after.0
        → ((w : World) → claim ≡ (returned none, w) → after ≡ (returned none, w))
        → ((t : ReviewTask) (w : World)
            → claim ≡ (returned (some t), w)
            → RunsAt t.id t.attempt_count after.1
            → ⊥)
        → IsPassOf claim after
    pass_of (returned none, w) after c h idle stopped = idle w refl
    pass_of (returned (some t), w) after c h idle stopped = (h, stopped t w refl)
    pass_of (raised e, w) after c h idle stopped = c

    -- One pass of a worker over the in-memory store. Whatever the agent and the callbacks raise and
    -- whatever happens to the store meanwhile, by events in any order, from a valid store the pass
    -- returns. If the claim gives nothing, nothing is returned and the store is as the claim left
    -- it. Otherwise a task is returned, and the attempt that was claimed runs no more.
    pub run_once-in_memory :
        (callbacks : Callbacks) (execute : ReviewTask → M World Executed) (worker_id : String)
        (w : World)
        → IsValid w.store
        → ActsByEvents execute
        → IsPassOf
            ((in_memory_queue message).claim_next_task worker_id w)
            (run_once (in_memory_queue message) callbacks execute worker_id w)
    unfolding in_memory_queue-IsReliable in_memory_queue-IsFenced
    run_once-in_memory callbacks execute worker_id w v acts =
        let claim = (in_memory_queue message).claim_next_task worker_id w in
        let after = run_once (in_memory_queue message) callbacks execute worker_id w in
        let ends =
          run_once-IsConcluded (in_memory_queue message) (in_memory_queue-IsFenced message)
            callbacks execute worker_id w in
        let returns =
          run_once-Returns (in_memory_queue message) in_memory_queue-IsReliable callbacks execute
            worker_id w v
            (λ t w h.
              let ((u, g, a), v') = Run-HasTurned canonical_hash t.id h.1.0 h.0 (acts t w) h.1.1 in
              (v', (u, g))) in
        let concluded = λ (c : Outcome (Option ReviewTask) × World).
          IsConcluded (in_memory_queue message) (in_memory_queue-IsFenced message) callbacks execute
            c after in
        pass_of claim after tt returns (λ w' e. subst concluded e ends)
          (λ t w' e r. subst concluded e ends returns r)
