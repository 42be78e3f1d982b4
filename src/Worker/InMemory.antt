-- ===== src/Worker/InMemory.antt =====
-- The queue of law_agent/review/worker.py that InMemoryEnterpriseStore is
-- (law_agent/review/enterprise_store.py).
use crosscomply_agent.Prelude.{
  ℕ, suc, ◌+◌, String, Bool, Bool-cases, Option-cases, true, false, not, ◌||◌, Option, none, some,
  ◌≡◌, refl, sym, ap, ◌∙◌, ◌≢◌, ◌⊎◌, inl, inr, arith, get, put, get-put_self, Error, key_error,
  Result, ok, err, item, raise_if, ◌>>=◌, ◌>>◌, List, [], ◌∷◌,
}
use crosscomply_agent.Prelude as P
use crosscomply_agent.Enterprise.Records.{ReviewTask, EnterpriseStore}
use crosscomply_agent.Enterprise.Tasks.{
  default_task_lease_seconds, claim_next_task, is_running, has_no_attempts,
}
use crosscomply_agent.Enterprise.Outcomes.{complete_task, fail_task, pause_task, get_task}
use crosscomply_agent.Worker.Queue.{Exception, other, Outcome, returned, raised, ReviewTaskQueue}

-- The store and the clock.
pub record World : Type 0 where
  pub now : ℕ
  pub store : EnterpriseStore

-- The attempt `n` of the task `k` runs: the task does, it is at that attempt, and has a record of it.
abbrev pub RunsAt : String → ℕ → World → Type 0
RunsAt k n w =
    (t : ReviewTask) × (get k w.store.tasks ≡ some t)
    × (is_running t.status ≡ true)
    × (has_no_attempts t ≡ false)
    × (t.attempt_count ≡ n)

module _ (message : Error → String) where
  abbrev pub exception_of : Error → Exception
  exception_of P.value_error = Exception.value_error (message P.value_error)
  exception_of e = other "KeyError" (message e)

  -- A method of the store, seen from outside.
  abbrev pub report : Result (ReviewTask × EnterpriseStore) → World → Outcome ReviewTask × World
  report (ok (t, s)) w = (returned t, record w { store = s })
  report (err e) w = (raised (exception_of e), w)

  abbrev pub in_memory_queue : ReviewTaskQueue
  in_memory_queue = record {
    State = World;
    claim_next_task = λ worker_id w.
        let (t, s) = claim_next_task worker_id default_task_lease_seconds w.now w.store in
        (returned t, record w { store = s });
    complete_task = λ k r node n w. report (complete_task k r node (some n) w.now w.store) w;
    fail_task = λ k node c m n w. report (fail_task k node c m (some n) w.now w.store) w;
    pause_task = λ k st n w. report (pause_task k st (some n) w.now w.store) w;
    get_task = λ k w. (returned (get_task k w.store), w);
  }
