-- ===== src/Worker/Reported.antt =====
-- What becomes of an exception in a pass of the worker of law_agent/review/worker.py.
use crosscomply_agent.Prelude.{String, Option, none, some, ◌≡◌, ◌≢◌, ◌⊎◌}
use crosscomply_agent.Workflow.{ReviewPayload}
use crosscomply_agent.Enterprise.Records.{ReviewTask}
use crosscomply_agent.Remediation.Tasks.{text_or}
use crosscomply_agent.Worker.Queue.{
  Exception, workflow_failed, value_error, other, Outcome, returned, raised, M, ReviewTaskQueue,
}
use crosscomply_agent.Worker.Run.{Executed, payload, agent_state, Callbacks}

-- What is to be recorded of an exception: a failed workflow names its node, reason and message;
-- any other exception stands under its class, at the task's node or else at the worker's.
abbrev pub Report : Type 0
Report = String × String × String

abbrev pub report_of : ReviewTask → Exception → Report
report_of t (workflow_failed node reason message) = (node, reason, message)
report_of t (value_error message) = (text_or t.current_node "worker", "ValueError", message)
report_of t (other name message) = (text_or t.current_node "worker", name, message)

module _ (q : ReviewTaskQueue) where
  open q use {State}

  -- The report is sent to the queue under the attempt that was claimed. The pass returns the task as
  -- the queue has it then: the failed one, or, where the report is refused, the one that it finds.
  abbrev pub IsReported : ReviewTask → State → Report → Outcome (Option ReviewTask) × State → Type 0
  IsReported task s (node, category, message) r =
      ((u : ReviewTask) × (s1 : State) × (q.fail_task task.id node category message
            task.attempt_count s
          ≡ (returned u, s1))
        × (r ≡ (returned (some u), s1)))
      ⊎ ((refusal : String) × (s1 : State) × (u : ReviewTask) × (s2 : State) × (q.fail_task task.id
              node category message task.attempt_count s
            ≡ (raised (value_error refusal), s1))
          × (q.get_task task.id s1 ≡ (returned (some u), s2))
          × (r ≡ (returned (some u), s2)))

module _ (q : ReviewTaskQueue) (callbacks : Callbacks) where
  open q use {State}

  abbrev pub not_terminal : Exception
  not_terminal = other "RuntimeError" "Agent returned non-terminal status"

  -- How the record of what the agent returned ends in an exception: the queue does not take the
  -- result, or the pause; a pause is not noted; the agent has neither paused nor completed, or has
  -- completed without a result.
  abbrev pub RecordFails : ReviewTask → Executed → State → Exception → State → Type 0
  RecordFails task (payload result) s e s' =
      q.complete_task task.id result "completed" task.attempt_count s ≡ (raised e, s')
  RecordFails task (agent_state status result state) s e s' =
      ((status ≡ "waiting_input")
        × ((q.pause_task task.id state task.attempt_count s ≡ (raised e, s'))
            ⊎ ((u : ReviewTask) × (q.pause_task task.id state task.attempt_count s
                  ≡ (returned u, s'))
                × (callbacks.on_waiting u ≡ some e))))
      ⊎ ((status ≡ "completed")
          × ((r : ReviewPayload) × (result ≡ some r)
              × (q.complete_task task.id r "completed" task.attempt_count s ≡ (raised e, s'))))
      ⊎ ((status ≡ "completed") × (result ≡ none) × (e ≡ not_terminal) × (s' ≡ s))
      ⊎ ((status ≢ "completed") × (status ≢ "waiting_input") × (e ≡ not_terminal) × (s' ≡ s))

  -- How a run of a claimed task ends in an exception: its start is not noted, the agent fails, or
  -- what it returned cannot be recorded.
  abbrev pub Fails :
      (ReviewTask → M State Executed) → ReviewTask → State → Exception → State → Type 0
  Fails execute task s e s' =
      ((callbacks.on_started task ≡ some e) × (s' ≡ s))
      ⊎ (callbacks.on_started task ≡ none)
        × ((execute task s ≡ (raised e, s'))
            ⊎ ((r : Executed) × (s1 : State) × (execute task s ≡ (returned r, s1))
                × RecordFails task r s1 e s'))
