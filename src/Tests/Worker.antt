-- ===== src/Tests/Worker.antt =====
-- Passes of a worker on concrete inputs (law_agent/review/worker.py).
use crosscomply_agent.Prelude.{String, ◌≡◌, refl, none, some, [], ◌∷◌, Error, Option}
use crosscomply_agent.Enterprise.Records.{ReviewTask, empty_store}
use crosscomply_agent.Enterprise.Events.{Event, happen, Run, start, next}
use crosscomply_agent.Enterprise.Invariant.{Run-IsValid}
use crosscomply_agent.Worker.Queue.{other, Outcome, returned, raised, M}
use crosscomply_agent.Worker.Run.{
  Executed, Callbacks, run_once, run_task, settle, finish, persist_failure, persist_rounds,
  current_task,
}
use crosscomply_agent.Worker.InMemory.{World, in_memory_queue}
use crosscomply_agent.Worker.Stops.{in_memory_queue-IsFenced}
use crosscomply_agent.Worker.Fencing.{IsConcluded, run_once-IsConcluded}
use crosscomply_agent.Worker.Pass.{IsPassOf, run_once-in_memory}
use crosscomply_agent.Tests.Enterprise.{store, digest, contract, waiting, payload}

abbrev pub waiting_run : Run digest empty_store waiting
unfolding store
waiting_run =
    next
      (next
        (next (next start 1 (Event.upload contract "m1" "v1") tt refl) 2
          (Event.freeze "case" ("v1" ∷ []) "ann" "snap") tt refl)
        3 (Event.freeze_intake "case" "snap" "facts" "ann" none "intake") tt refl)
      4 (Event.enqueue "case" "snap" "intake" "model" "{}" "t1") refl refl

abbrev message : Error → String
message e = "refused"

abbrev world : World
world = record { now = 5; store = waiting }

-- `on_started` raises nothing, and the others do.
abbrev callbacks : Callbacks
callbacks = record {
  on_started = λ t. none;
  on_succeeded = λ t. some (other "OSError" "log is full");
  on_failed = λ t. some (other "OSError" "log is full");
  on_waiting = λ t. some (other "OSError" "log is full");
}

-- The agent takes so long that its lease ends and another worker claims the task.
abbrev slow : ReviewTask → M World Executed
slow t w = (
  returned (Executed.payload payload),
  record { now = 9000; store = happen digest 9000 (Event.claim "w2" 10) w.store },
)

abbrev quick : ReviewTask → M World Executed
quick t w = (returned (Executed.payload payload), w)

abbrev failing : ReviewTask → M World Executed
failing t w = (raised (other "TimeoutError" "no answer"), w)

abbrev status_and_message : Outcome (Option ReviewTask) × World → Option (Option String)
status_and_message (returned (some t), w) = some t.error_message
status_and_message (returned none, w) = none
status_and_message (raised e, w) = none

failure_is_recorded :
    status_and_message (run_once (in_memory_queue message) callbacks failing "w1" world)
    ≡ some (some "no answer")
unfolding store run_once run_task settle finish persist_failure persist_rounds current_task
failure_is_recorded = refl

run_once-in_memory_example :
    IsPassOf message digest
      ((in_memory_queue message).claim_next_task "w1" world)
      (run_once (in_memory_queue message) callbacks slow "w1" world)
unfolding store
run_once-in_memory_example =
    run_once-in_memory message digest callbacks slow "w1" world (Run-IsValid digest waiting_run)
      (λ t w. next start 9000 (Event.claim "w2" 10) tt refl)

run_once-IsConcluded_example :
    IsConcluded
      (in_memory_queue message)
      (in_memory_queue-IsFenced message)
      callbacks
      quick
      ((in_memory_queue message).claim_next_task "w1" world)
      (run_once (in_memory_queue message) callbacks quick "w1" world)
run_once-IsConcluded_example =
    run_once-IsConcluded (in_memory_queue message) (in_memory_queue-IsFenced message) callbacks
      quick "w1" world

abbrev in_hand : World
in_hand = ((in_memory_queue message).claim_next_task "w1" world).1
