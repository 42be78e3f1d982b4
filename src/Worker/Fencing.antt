-- ===== src/Worker/Fencing.antt =====
-- A worker of law_agent/review/worker.py leaves no attempt of its own running.
use crosscomply_agent.Prelude.{
  ℕ, zero, suc, String, Bool-cases, Option, none, some, ◌≡◌, refl, ◌==◌, ◌!=◌, inl, inr,
}
use crosscomply_agent.Workflow.{ReviewPayload}
use crosscomply_agent.Enterprise.Records.{ReviewTask}
use crosscomply_agent.Worker.Queue.{
  Exception, workflow_failed, value_error, other, Outcome, returned, raised, M, ReviewTaskQueue,
  IsFenced, IsDefinite, HasReturned,
}
use crosscomply_agent.Worker.Run.{
  Executed, agent_state, payload, Callbacks, continue, handled, call, done, ◌>>◌, go_on,
  after_failure, current_task, found_or, persist_rounds, persist_failure, finish, finish_or, wait,
  settle, failure_of, run_task, run_claimed, run_once,
}

module _ (q : ReviewTaskQueue) (law : IsFenced q) (k : String) (n : ℕ) where
  open q use {State}

  -- If a value is returned, the attempt runs no more.
  abbrev pub Settles : {A : Type 0} → Outcome A × State → Type 0
  Settles r = HasReturned r.0 → law.IsRunningAt k n r.1 → ⊥

  continue-Settles :
      {A B : Type 0} (f : A → M State B) (r : Outcome A × State)
      → ((a : A) (s : State) → Settles (f a s))
      → Settles (continue f r)
  continue-Settles f (returned a, s) h = h a s
  continue-Settles f (raised e, s) h = λ x. absurd x

  handled-Settles :
      {A : Type 0} (handler : Exception → M State A) (r : Outcome A × State)
      → Settles r
      → ((e : Exception) (s : State) → Settles (handler e s))
      → Settles (handled handler r)
  handled-Settles handler (returned a, s) h g = h
  handled-Settles handler (raised e, s) h g = g e s

  module _ (callbacks : Callbacks) where
    found-Settles :
        (refusal : Exception) (r : Outcome (Option ReviewTask) × State)
        → (law.IsRunningAt k n r.1 → ⊥)
        → Settles (continue (found_or q callbacks refusal) r)
    found-Settles refusal (returned none, s) h = λ x. absurd x
    found-Settles refusal (returned (some t), s) h = λ x. h
    found-Settles refusal (raised e, s) h = λ x. absurd x

    go_on-Settles :
        (rounds : ℕ) (again : M State ReviewTask) (e : Exception) (s : State)
        → Settles (again s)
        → Settles (go_on q callbacks rounds again e s)
    go_on-Settles zero again e s h = λ x. absurd x
    go_on-Settles (suc rounds) again e s h = h

    after_failure-Settles :
        (rounds : ℕ) (again : M State ReviewTask) (r : Outcome ReviewTask × State)
        → (IsDefinite r.0 → law.IsRunningAt k n r.1 → ⊥)
        → ((s : State) → Settles (again s))
        → Settles (handled (after_failure q callbacks rounds again k) r)
    unfolding current_task
    after_failure-Settles rounds again (returned t, s) h g = λ x. h x
    after_failure-Settles rounds again (raised (value_error m), s) h g =
        found-Settles (value_error m) (q.get_task k s) (λ x. h tt (law.get_keeps k k n s x))
    after_failure-Settles rounds again (raised (workflow_failed x y z), s) h g =
        go_on-Settles rounds again (workflow_failed x y z) s (g s)
    after_failure-Settles rounds again (raised (other x y), s) h g =
        go_on-Settles rounds again (other x y) s (g s)

    persist_rounds-Settles :
        (rounds : ℕ) (node c m : String) (s : State)
        → Settles (persist_rounds q callbacks rounds k node c m n s)
    unfolding persist_rounds
    persist_rounds-Settles zero node c m s = λ x. absurd x
    persist_rounds-Settles (suc rounds) node c m s =
        after_failure-Settles rounds (persist_rounds q callbacks rounds k node c m n)
          (q.fail_task k node c m n s) (law.fail_settles k node c m n s)
          (persist_rounds-Settles rounds node c m)

    called-Settles :
        (o : Option Exception) (t : ReviewTask) (s : State)
        → (law.IsRunningAt k n s → ⊥)
        → Settles ((call o >> done t) s)
    called-Settles none t s h = λ x. h
    called-Settles (some e) t s h = λ x. absurd x

    waited-Settles :
        (r : Outcome ReviewTask × State)
        → Settles r
        → Settles (continue (λ w. call (callbacks.on_waiting w) >> done w) r)
    waited-Settles (returned w, s) h = called-Settles (callbacks.on_waiting w) w s (h tt)
    waited-Settles (raised e, s) h = λ x. absurd x

module _ (q : ReviewTaskQueue) (law : IsFenced q) (callbacks : Callbacks)
    (execute : ReviewTask → M q.State Executed) where
  -- The attempt that was claimed runs no more.
  abbrev pub Ends : ReviewTask → {A : Type 0} → Outcome A × q.State → Type 0
  Ends task = Settles q law task.id task.attempt_count

  finish_or-Ends :
      (task : ReviewTask) (result : Option ReviewPayload) (s : q.State)
      → Ends task (finish_or q callbacks task result s)
  unfolding finish
  finish_or-Ends task none s = λ x. absurd x
  finish_or-Ends task (some r) s = law.complete_settles task.id r "completed" task.attempt_count s

  settle-Ends :
      (task : ReviewTask) (e : Executed) (s : q.State) → Ends task (settle q callbacks task e s)
  unfolding settle wait
  settle-Ends task (payload r) s = finish_or-Ends task (some r) s
  settle-Ends task (agent_state status result state) s =
      elim (Bool-cases (status == "waiting_input")) [
        | inl e ↦ rw e (
            waited-Settles q law task.id task.attempt_count callbacks
              (q.pause_task task.id state task.attempt_count s)
              (law.pause_settles task.id state task.attempt_count s))
        | inr e ↦ elim (Bool-cases (status != "completed")) [
          | inl f ↦ rw (e, f) (λ x. absurd x)
          | inr f ↦ rw (e, f) (finish_or-Ends task result s)
        ]
      ]

  failure_of-Ends :
      (task : ReviewTask) (e : Exception) (s : q.State)
      → Ends task (failure_of q callbacks task e s)
  unfolding persist_failure
  failure_of-Ends task (workflow_failed x y z) s =
      persist_rounds-Settles q law task.id task.attempt_count callbacks 3 x y z s
  failure_of-Ends task (value_error m) s =
      persist_rounds-Settles q law task.id task.attempt_count callbacks 3 _ _ _ s
  failure_of-Ends task (other c m) s =
      persist_rounds-Settles q law task.id task.attempt_count callbacks 3 _ _ _ s

  run_task-Ends :
      (task : ReviewTask) (s : q.State) → Ends task (run_task q callbacks execute task s)
  unfolding run_task
  run_task-Ends task s =
      handled-Settles q law task.id task.attempt_count (failure_of q callbacks task) _
        (continue-Settles q law task.id task.attempt_count _ (call (callbacks.on_started task) s)
          (λ u s1.
            continue-Settles q law task.id task.attempt_count (settle q callbacks task)
              (execute task s1) (settle-Ends task)))
        (failure_of-Ends task)

  -- What a pass of the worker comes to: nothing was claimed and nothing is returned, or a task was
  -- claimed, and if one is returned the attempt that was claimed runs no more.
  abbrev pub IsConcluded :
      Outcome (Option ReviewTask) × q.State → Outcome (Option ReviewTask) × q.State → Type 0
  IsConcluded (raised e, s) after = after ≡ (raised e, s)
  IsConcluded (returned none, s) after = after ≡ (returned none, s)
  IsConcluded (returned (some task), s) after = Ends task after

  -- One pass of a worker over any queue that keeps its promises. If the claim raises or gives
  -- nothing, that is what the pass does. Otherwise, whatever the agent does, whatever it raises,
  -- whatever the callbacks raise and whatever others do to the queue meanwhile: if the pass
  -- returns, the attempt that it claimed runs no more.
  pub run_once-IsConcluded :
      (worker_id : String) (s : q.State)
      → IsConcluded (q.claim_next_task worker_id s) (run_once q callbacks execute worker_id s)
  unfolding run_once
  run_once-IsConcluded worker_id s = concluded (q.claim_next_task worker_id s)
    where
      ended :
          (task : ReviewTask) (r : Outcome ReviewTask × q.State)
          → Ends task r
          → Ends task (continue (λ t. done (some t)) r)
      ended task (returned t, s) h = h
      ended task (raised e, s) h = λ x. absurd x

      concluded :
          (claim : Outcome (Option ReviewTask) × q.State)
          → IsConcluded claim (continue (run_claimed q callbacks execute) claim)
      concluded (raised e, s) = refl
      concluded (returned none, s) = refl
      concluded (returned (some task), s) =
          ended task (run_task q callbacks execute task s) (run_task-Ends task s)
