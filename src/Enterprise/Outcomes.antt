-- ===== src/Enterprise/Outcomes.antt =====
-- How a claimed task goes on, in law_agent/review/enterprise_store.py: the reports of its worker,
-- the answers of a person, a retry, and the reads.
use text.Mathlib.Text.{is_lt}
use Prim.Native.String.{compare}
use crosscomply_agent.Prelude.{
  item, ℕ, ◌+◌, String, Bool, false, not, ◌&&◌, ◌||◌, Option, none, some, List, [], map, ◌==◌,
  select, get_last?, update_last, get, values, map_values, Result, ok, value_error, if◌then◌else◌,
  raise_if, ◌>>=◌, ◌>>◌,
}
use crosscomply_agent.Prelude.Sort.{sorted}
use crosscomply_agent.Workflow.{ReviewPayload, review_requires_retry, is_text}
use crosscomply_agent.Enterprise.Records.{
  TaskStatus, AttemptStatus, AgentState, TaskAttempt, ReviewTask, EnterpriseStore,
}
use crosscomply_agent.Enterprise.Tasks.{
  default_task_lease_seconds, is_running, is_waiting, is_succeeded, is_failed, is_paused, save,
  has_no_attempts, is_stale, last_action, earlier,
}

abbrev pub close_attempt : AttemptStatus → ℕ → TaskAttempt → TaskAttempt
close_attempt status now a = record a { status = status; finished_at = some now }

unfoldable pub failed_with :
    (failed_node error_category error_message : String) → ℕ → ReviewTask → ReviewTask
failed_with failed_node error_category error_message now t = record t {
  status = TaskStatus.failed;
  lease_expires_at = none;
  current_node = some failed_node;
  error_category = some error_category;
  error_message = some error_message;
  attempts =
      update_last
        (λ a. record a {
          status = AttemptStatus.failed;
          failed_node = some failed_node;
          error_category = some error_category;
          error_message = some error_message;
          finished_at = some now;
        })
        t.attempts;
  updated_at = now;
}

unfoldable pub fail_task :
    (task_id failed_node error_category error_message : String) (expected_attempt : Option ℕ)
    (now : ℕ)
    → EnterpriseStore
    → Result (ReviewTask × EnterpriseStore)
fail_task task_id failed_node error_category error_message expected_attempt now s = do
  task ← item task_id s.tasks
  raise_if (not (is_running task.status) || has_no_attempts task || is_stale expected_attempt task)
      value_error
  ok (save task_id (failed_with failed_node error_category error_message now task) s)

unfoldable pub checkpointed : AgentState → ℕ → ReviewTask → ReviewTask
checkpointed state now t = record t {
  agent_state = some state;
  steps = state.steps;
  current_node = some (last_action state);
  lease_expires_at = some (now + default_task_lease_seconds);
  updated_at = now;
}

unfoldable pub checkpoint_agent :
    (task_id : String) (state : AgentState) (expected_attempt : Option ℕ) (now : ℕ)
    → EnterpriseStore
    → Result (ReviewTask × EnterpriseStore)
checkpoint_agent task_id state expected_attempt now s = do
  task ← item task_id s.tasks
  raise_if (not (is_running task.status) || is_stale expected_attempt task) value_error
  ok (save task_id (checkpointed state now task) s)

unfoldable pub paused : AgentState → ℕ → ReviewTask → ReviewTask
paused state now t = record t {
  agent_state = some state;
  steps = state.steps;
  current_node = some (last_action state);
  status = TaskStatus.waiting_input;
  lease_expires_at = none;
  attempts = update_last (close_attempt AttemptStatus.waiting_input now) t.attempts;
  updated_at = now;
}

unfoldable pub pause_task :
    (task_id : String) (state : AgentState) (expected_attempt : Option ℕ) (now : ℕ)
    → EnterpriseStore
    → Result (ReviewTask × EnterpriseStore)
pause_task task_id state expected_attempt now s = do
  task ← item task_id s.tasks
  raise_if (not (is_running task.status) || has_no_attempts task || is_stale expected_attempt task)
      value_error
  ok (save task_id (paused state now task) s)

-- `(task.agent_state or {}).get("gate_id")`
abbrev pub gate_of : ReviewTask → Option String
gate_of t = elim t.agent_state [ none ↦ none | some state ↦ state.gate_id ]

unfoldable pub recorded : AgentState → ℕ → ReviewTask → ReviewTask
recorded state now t = record t { agent_state = some state; steps = state.steps; updated_at = now }

unfoldable pub record_waiting_input :
    (task_id : String) (state : AgentState) (gate_id : String) (now : ℕ)
    → EnterpriseStore
    → Result (ReviewTask × EnterpriseStore)
record_waiting_input task_id state gate_id now s = do
  task ← item task_id s.tasks
  raise_if (not (is_waiting task.status) || not (is_text (gate_of task) gate_id)) value_error
  ok (save task_id (recorded state now task) s)

unfoldable pub resumed : AgentState → ℕ → ReviewTask → ReviewTask
resumed state now t = record t {
  status = TaskStatus.queued;
  agent_state = some state;
  steps = state.steps;
  current_node = some "human_input";
  updated_at = now;
}

unfoldable pub resume_task :
    (task_id : String) (state : AgentState) (now : ℕ)
    → EnterpriseStore
    → Result (ReviewTask × EnterpriseStore)
resume_task task_id state now s = do
  task ← item task_id s.tasks
  raise_if (not (is_waiting task.status)) value_error
  ok (save task_id (resumed state now task) s)

-- `task.result or {}`
abbrev pub result_of : ReviewTask → ReviewPayload
result_of t = elim t.result [
  | some payload ↦ payload
  | none ↦ record {
    review_result = none;
    web_impact = none;
    freshness_hold = false;
    semantic_grounding = none;
    evidence_self_check = none;
  }
]

-- The condition under which a finished review starts again from nothing.
unfoldable pub is_restart : ReviewTask → Bool
is_restart t = is_succeeded t.status && review_requires_retry (result_of t)

unfoldable pub retried : ℕ → ReviewTask → ReviewTask
retried now t =
    let kept = record t { status = TaskStatus.queued; lease_expires_at = none; updated_at = now } in
    if is_restart t
    then record kept { agent_state = none; steps = []; current_node = none }
    else kept

unfoldable pub retry_task :
    (task_id : String) (now : ℕ) → EnterpriseStore → Result (ReviewTask × EnterpriseStore)
retry_task task_id now s = do
  task ← item task_id s.tasks
  raise_if (not (is_failed task.status) && not (is_restart task)) value_error
  ok (save task_id (retried now task) s)

unfoldable pub completed : ReviewPayload → String → ℕ → ReviewTask → ReviewTask
completed result final_node now t = record t {
  status = TaskStatus.succeeded;
  lease_expires_at = none;
  current_node = some final_node;
  result = some result;
  attempts = update_last (close_attempt AttemptStatus.succeeded now) t.attempts;
  updated_at = now;
}

unfoldable pub complete_task :
    (task_id : String) (result : ReviewPayload) (final_node : String) (expected_attempt : Option ℕ)
    (now : ℕ)
    → EnterpriseStore
    → Result (ReviewTask × EnterpriseStore)
complete_task task_id result final_node expected_attempt now s = do
  task ← item task_id s.tasks
  raise_if (not (is_running task.status) || has_no_attempts task || is_stale expected_attempt task)
      value_error
  ok (save task_id (completed result final_node now task) s)

-- Whether `supersede_waiting_tasks` closes a task.
abbrev pub is_outdated : String → ReviewTask → Bool
is_outdated case_id t = t.case_id == case_id && is_waiting t.status

abbrev pub supersede_attempt : ℕ → TaskAttempt → TaskAttempt
supersede_attempt now a =
    if is_paused a.status then close_attempt AttemptStatus.superseded now a else a

unfoldable pub superseded : String → ℕ → ReviewTask → ReviewTask
superseded case_id now t =
    if is_outdated case_id t
    then record t {
      status = TaskStatus.superseded;
      lease_expires_at = none;
      updated_at = now;
      attempts = update_last (supersede_attempt now) t.attempts;
    }
    else t

-- The identifiers of the tasks that were closed, sorted, and the store after it.
unfoldable pub supersede_waiting_tasks :
    String → ℕ → EnterpriseStore → List String × EnterpriseStore
supersede_waiting_tasks case_id now s = (
  sorted (λ i j. is_lt (compare i j))
      (map (λ t. t.id) (select (is_outdated case_id) (values s.tasks))),
  record s { tasks = map_values (superseded case_id now) s.tasks },
)

unfoldable pub get_task : String → EnterpriseStore → Option ReviewTask
get_task task_id s = get task_id s.tasks

-- `max` over `(created_at, id)`: the last of a sorted list, whose keys differ.
unfoldable pub get_latest_task : String → EnterpriseStore → Option ReviewTask
get_latest_task case_id s =
    get_last? (sorted earlier (select (λ t. t.case_id == case_id) (values s.tasks)))
