-- ===== src/Worker/Run.antt =====
-- The class ReviewWorker of law_agent/review/worker.py, over any queue.
--
-- A callback acts on other stores than the queue, so that the worker sees only whether it raises.
-- `execute` runs the agent: it may report to the queue, and others use the queue meanwhile.
use crosscomply_agent.Prelude.{ℕ, zero, suc, String, Option, none, some, ◌==◌, ◌!=◌, if◌then◌else◌}
use crosscomply_agent.Workflow.{ReviewPayload}
use crosscomply_agent.Enterprise.Records.{AgentState, ReviewTask}
use crosscomply_agent.Remediation.Tasks.{text_or}
use crosscomply_agent.Worker.Queue.{
  Exception, workflow_failed, value_error, other, Outcome, returned, raised, M, ReviewTaskQueue,
}

-- What `execute` returns: the agent's state, with its status and result, or a result.
pub data Executed : Type 0 where
  agent_state : (status : String) → Option ReviewPayload → AgentState → Executed
  payload : ReviewPayload → Executed

abbrev pub class_name : Exception → String
class_name (workflow_failed node reason message) = "ReviewWorkflowFailed"
class_name (value_error message) = "ValueError"
class_name (other name message) = name

-- `str(exc)`
abbrev pub message_of : Exception → String
message_of (workflow_failed node reason message) = message
message_of (value_error message) = message
message_of (other name message) = message

module _ {State : Type 0} where
  -- The statements that follow run on what this one returned; an exception leaves the block.
  abbrev pub continue : {A B : Type 0} → (A → M State B) → Outcome A × State → Outcome B × State
  continue f (returned a, s) = f a s
  continue f (raised e, s) = (raised e, s)

  infixl 5 ◌>>=◌ ◌>>◌
  abbrev pub ◌>>=◌ : {A B : Type 0} → M State A → (A → M State B) → M State B
  ◌>>=◌ m f s = continue f (m s)

  abbrev pub ◌>>◌ : {B : Type 0} → M State (Unit {0}) → M State B → M State B
  m >> k = m >>= λ _. k

  abbrev pub done : {A : Type 0} → A → M State A
  done a s = (returned a, s)

  abbrev pub throw : {A : Type 0} → Exception → M State A
  throw e s = (raised e, s)

  -- `try: … except …`, with a handler of all exceptions.
  abbrev pub handled :
      {A : Type 0} → (Exception → M State A) → Outcome A × State → Outcome A × State
  handled handler (returned a, s) = (returned a, s)
  handled handler (raised e, s) = handler e s

  abbrev pub catch : {A : Type 0} → M State A → (Exception → M State A) → M State A
  catch m handler s = handled handler (m s)

  -- A callback that may raise.
  abbrev pub call : Option Exception → M State (Unit {0})
  call none = done tt
  call (some e) = throw e

pub record Callbacks : Type 0 where
  pub on_started : ReviewTask → Option Exception
  pub on_succeeded : ReviewTask → Option Exception
  pub on_failed : ReviewTask → Option Exception
  pub on_waiting : ReviewTask → Option Exception

module _ (q : ReviewTaskQueue) (callbacks : Callbacks) where
  open q use {State, claim_next_task, complete_task, fail_task, pause_task, get_task}

  abbrev pub found_or : Exception → Option ReviewTask → M State ReviewTask
  found_or refusal none = throw refusal
  found_or refusal (some task) = done task

  -- After a refusal: the task as it is now.
  unfoldable pub current_task : String → Exception → M State ReviewTask
  current_task task_id refusal = do current ← get_task task_id; found_or refusal current

  -- The loop goes on but in its last round, which raises again.
  abbrev pub go_on : ℕ → M State ReviewTask → Exception → M State ReviewTask
  go_on zero again e = throw e
  go_on (suc rounds) again e = again

  -- What `fail_task` raised, with the rounds that are left and the loop that they make.
  abbrev pub after_failure :
      ℕ → M State ReviewTask → (task_id : String) → Exception → M State ReviewTask
  after_failure rounds again task_id (value_error m) = current_task task_id (value_error m)
  after_failure rounds again task_id (workflow_failed x y z) =
      go_on rounds again (workflow_failed x y z)
  after_failure rounds again task_id (other x y) = go_on rounds again (other x y)

  -- The rounds of the loop that are left; `range(3)` at first. What
  -- `on_failed` raises is logged.
  unfoldable pub persist_rounds :
      ℕ → (task_id failed_node error_category error_message : String) → ℕ → M State ReviewTask
  persist_rounds zero task_id node category message n =
      throw (other "RuntimeError" "fail_task did not return a task")
  persist_rounds (suc rounds) task_id node category message n =
      let again = persist_rounds rounds task_id node category message n in
      catch (fail_task task_id node category message n) (after_failure rounds again task_id)

  unfoldable pub persist_failure :
      ReviewTask → (failed_node error_category error_message : String) → ℕ → M State ReviewTask
  persist_failure task node category message n = persist_rounds 3 task.id node category message n

  -- The result is recorded. What `on_succeeded` raises is logged.
  unfoldable pub finish : ReviewTask → ReviewPayload → M State ReviewTask
  finish task result = complete_task task.id result "completed" task.attempt_count

  abbrev pub finish_or : ReviewTask → Option ReviewPayload → M State ReviewTask
  finish_or task none = throw (other "RuntimeError" "Agent returned non-terminal status")
  finish_or task (some result) = finish task result

  unfoldable pub wait : ReviewTask → AgentState → M State ReviewTask
  wait task state = do
    waiting ← pause_task task.id state task.attempt_count
    call (callbacks.on_waiting waiting)
    done waiting

  unfoldable pub settle : ReviewTask → Executed → M State ReviewTask
  settle task (agent_state status result state) =
      if status == "waiting_input"
      then wait task state
      else if status != "completed"
      then throw (other "RuntimeError" "Agent returned non-terminal status")
      else finish_or task result
  settle task (payload result) = finish task result

  abbrev pub failure_of : ReviewTask → Exception → M State ReviewTask
  failure_of task (workflow_failed node reason message) =
      persist_failure task node reason message task.attempt_count
  failure_of task (value_error message) =
      persist_failure task (text_or task.current_node "worker") "ValueError" message
        task.attempt_count
  failure_of task (other name message) =
      persist_failure task (text_or task.current_node "worker") name message task.attempt_count

  module _ (execute : ReviewTask → M State Executed) where
    -- The claimed task.
    unfoldable pub run_task : ReviewTask → M State ReviewTask
    run_task task =
        catch (do call (callbacks.on_started task); result ← execute task; settle task result)
          (failure_of task)

    abbrev pub run_claimed : Option ReviewTask → M State (Option ReviewTask)
    run_claimed none = done none
    run_claimed (some task) = do result ← run_task task; done (some result)

    unfoldable pub run_once : (worker_id : String) → M State (Option ReviewTask)
    run_once worker_id = do claimed ← claim_next_task worker_id; run_claimed claimed
