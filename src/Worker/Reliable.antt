-- ===== src/Worker/Reliable.antt =====
-- Over a reliable queue no exception leaves a pass of the worker of law_agent/review/worker.py.
use crosscomply_agent.Prelude.{
  ℕ, String, Bool-cases, Option, none, some, ◌≡◌, refl, ◌==◌, ◌!=◌, inl, inr,
}
use crosscomply_agent.Workflow.{ReviewPayload}
use crosscomply_agent.Enterprise.Records.{AgentState, ReviewTask}
use crosscomply_agent.Worker.Queue.{
  Exception, workflow_failed, value_error, other, Outcome, returned, raised, M, ReviewTaskQueue,
  IsDefinite, HasReturned,
}
use crosscomply_agent.Worker.Run.{
  Executed, agent_state, payload, Callbacks, continue, handled, call, done, after_failure,
  current_task, found_or, persist_rounds, persist_failure, finish, finish_or, wait, settle,
  failure_of, run_task, run_claimed, run_once,
}

-- What a queue promises of a task that it has: it keeps it, its claim returns, it takes or refuses
-- a failure with no other exception than ValueError, and it finds the task.
pub record IsReliable (q : ReviewTaskQueue) : Type 1 where
  pub IsSane : q.State → Type 0
  pub HasTask : String → q.State → Type 0
  pub claim_returns : (w : String) (s : q.State) → HasReturned (q.claim_next_task w s).0
  pub claim_finds :
      (w : String) (s s' : q.State) (t : ReviewTask)
      → IsSane s
      → q.claim_next_task w s ≡ (returned (some t), s')
      → HasTask t.id s'
  pub complete_keeps :
      (k : String) (r : ReviewPayload) (node : String) (n : ℕ) (s : q.State)
      → HasTask k s
      → HasTask k (q.complete_task k r node n s).1
  pub pause_keeps :
      (k : String) (st : AgentState) (n : ℕ) (s : q.State)
      → HasTask k s
      → HasTask k (q.pause_task k st n s).1
  pub fail_is_definite :
      (k node c m : String) (n : ℕ) (s : q.State)
      → HasTask k s
      → IsDefinite (q.fail_task k node c m n s).0 × HasTask k (q.fail_task k node c m n s).1
  pub get_finds :
      (k : String) (s : q.State)
      → HasTask k s
      → (t : ReviewTask) × ((q.get_task k s).0 ≡ returned (some t))

module _ (q : ReviewTaskQueue) (law : IsReliable q) (callbacks : Callbacks) where
  open q use {State}

  -- The task is still there.
  abbrev Keeps : String → {A : Type 0} → Outcome A × State → Type 0
  Keeps k r = law.HasTask k r.1

  continue-Keeps :
      (k : String) {A B : Type 0} (f : A → M State B) (r : Outcome A × State)
      → Keeps k r
      → ((a : A) (s : State) → law.HasTask k s → Keeps k (f a s))
      → Keeps k (continue f r)
  continue-Keeps k f (returned a, s) h g = g a s h
  continue-Keeps k f (raised e, s) h g = h

  called-Keeps :
      (k : String) (o : Option Exception) (s : State) → law.HasTask k s → Keeps k (call o s)
  called-Keeps k none s h = h
  called-Keeps k (some e) s h = h

  found-Returns :
      (refusal : Exception) (r : Outcome (Option ReviewTask) × State) (t : ReviewTask)
      → r.0 ≡ returned (some t)
      → HasReturned (continue (found_or q callbacks refusal) r).0
  found-Returns refusal (returned (some u), s) t h = tt
  found-Returns refusal (returned none, s) t h = cc
  found-Returns refusal (raised e, s) t h = cc

  after_failure-Returns :
      (k : String) (rounds : ℕ) (again : M State ReviewTask) (r : Outcome ReviewTask × State)
      → IsDefinite r.0
      → Keeps k r
      → HasReturned (handled (after_failure q callbacks rounds again k) r).0
  unfolding current_task
  after_failure-Returns k rounds again (returned t, s) d h = tt
  after_failure-Returns k rounds again (raised (value_error m), s) d h =
      let (t, found) = law.get_finds k s h in found-Returns (value_error m) (q.get_task k s) t found
  after_failure-Returns k rounds again (raised (workflow_failed x y z), s) d h = absurd d
  after_failure-Returns k rounds again (raised (other x y), s) d h = absurd d

  persisted-Returns :
      (task : ReviewTask) (node c m : String) (s : State)
      → IsDefinite (q.fail_task task.id node c m task.attempt_count s).0
      → Keeps task.id (q.fail_task task.id node c m task.attempt_count s)
      → HasReturned (persist_failure q callbacks task node c m task.attempt_count s).0
  unfolding persist_failure persist_rounds
  persisted-Returns task node c m s d h =
      after_failure-Returns task.id 2 _ (q.fail_task task.id node c m task.attempt_count s) d h

  failure_of-Returns :
      (task : ReviewTask) (e : Exception) (s : State)
      → law.HasTask task.id s
      → HasReturned (failure_of q callbacks task e s).0
  failure_of-Returns task e s h = of_exception e
    where
      persisted :
          (node c m : String)
          → HasReturned (persist_failure q callbacks task node c m task.attempt_count s).0
      persisted node c m =
          let (d, k) = law.fail_is_definite task.id node c m task.attempt_count s h in
          persisted-Returns task node c m s d k

      of_exception : (e : Exception) → HasReturned (failure_of q callbacks task e s).0
      of_exception (workflow_failed x y z) = persisted x y z
      of_exception (value_error m) = persisted _ _ _
      of_exception (other c m) = persisted _ _ _

  module _ (execute : ReviewTask → M State Executed) (task : ReviewTask) where
    finish_or-Keeps :
        (result : Option ReviewPayload) (s : State)
        → law.HasTask task.id s
        → Keeps task.id (finish_or q callbacks task result s)
    unfolding finish
    finish_or-Keeps none s h = h
    finish_or-Keeps (some r) s h = law.complete_keeps task.id r _ task.attempt_count s h

    wait-Keeps :
        (state : AgentState) (s : State)
        → law.HasTask task.id s
        → Keeps task.id (wait q callbacks task state s)
    unfolding wait
    wait-Keeps state s h =
        continue-Keeps task.id _ (q.pause_task task.id state task.attempt_count s)
          (law.pause_keeps task.id state task.attempt_count s h)
          (λ w s1 h1.
            continue-Keeps task.id _ (call (callbacks.on_waiting w) s1)
              (called-Keeps task.id (callbacks.on_waiting w) s1 h1) (λ u s2 h2. h2))

    pub settle-Keeps :
        (e : Executed) (s : State)
        → law.HasTask task.id s
        → Keeps task.id (settle q callbacks task e s)
    unfolding settle
    settle-Keeps (payload r) s h = finish_or-Keeps (some r) s h
    settle-Keeps (agent_state status result state) s h =
        elim (Bool-cases (status == "waiting_input")) [
          | inl e ↦ rw e (wait-Keeps state s h)
          | inr e ↦ elim (Bool-cases (status != "completed")) [
            | inl f ↦ rw (e, f) h
            | inr f ↦ rw (e, f) (finish_or-Keeps result s h)
          ]
        ]

    run_task-Returns :
        (s : State)
        → law.HasTask task.id s
        → ((s : State) → law.HasTask task.id s → Keeps task.id (execute task s))
        → HasReturned (run_task q callbacks execute task s).0
    unfolding run_task
    run_task-Returns s h keep = caught _ (
        continue-Keeps task.id _ (call (callbacks.on_started task) s)
          (called-Keeps task.id (callbacks.on_started task) s h)
          (λ u s1 h1.
            continue-Keeps task.id (settle q callbacks task) (execute task s1) (keep s1 h1)
              settle-Keeps))
      where
        caught :
            (r : Outcome ReviewTask × State)
            → Keeps task.id r
            → HasReturned (handled (failure_of q callbacks task) r).0
        caught (returned t, s) k = tt
        caught (raised e, s) k = failure_of-Returns task e s k

  -- No exception leaves a pass of a worker over a reliable queue, whatever the agent and the
  -- callbacks raise, if the agent's run and what others do meanwhile keep the tasks that the queue
  -- has.
  pub run_once-Returns :
      (execute : ReviewTask → M State Executed) (worker_id : String) (s : State)
      → law.IsSane s
      → ((t : ReviewTask) (s : State) → law.HasTask t.id s → law.HasTask t.id (execute t s).1)
      → HasReturned (run_once q callbacks execute worker_id s).0
  unfolding run_once
  run_once-Returns execute worker_id s sane keep =
      of_claim (q.claim_next_task worker_id s) refl (law.claim_returns worker_id s)
    where
      wrapped :
          (r : Outcome ReviewTask × State)
          → HasReturned r.0
          → HasReturned (continue (λ t. done (some t)) r).0
      wrapped (returned t, s) h = tt
      wrapped (raised e, s) h = h

      of_claim :
          (claim : Outcome (Option ReviewTask) × State)
          → q.claim_next_task worker_id s ≡ claim
          → HasReturned claim.0
          → HasReturned (continue (run_claimed q callbacks execute) claim).0
      of_claim (returned none, s1) e h = tt
      of_claim (returned (some t), s1) e h =
          wrapped (run_task q callbacks execute t s1)
            (run_task-Returns execute t s1 (law.claim_finds worker_id s s1 t sane e) (keep t))
      of_claim (raised x, s1) e h = absurd h
