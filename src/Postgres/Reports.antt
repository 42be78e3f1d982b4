-- ===== src/Postgres/Reports.antt =====
-- What a worker reports to PostgreSQL (law_agent/review/enterprise_store.py).
use crosscomply_agent.Prelude.{
  ℕ, ◌+◌, String, Bool, true, ◌&&◌, Option, none, some, List, [], ◌∷◌, ◌++◌, map, nat_eq, ltb, any,
  select, get, put, Result, ok, err, value_error, key_error, if◌then◌else◌,
}
use crosscomply_agent.Workflow.{ReviewPayload, is_text}
use crosscomply_agent.Enterprise.Records.{
  TaskStatus, AttemptStatus, AgentStep, AgentState, TaskAttempt, ReviewTask,
}
use crosscomply_agent.Enterprise.Tasks.{
  default_task_lease_seconds, is_running, is_waiting, is_open, last_action,
}
use crosscomply_agent.Enterprise.Outcomes.{close_attempt}
use crosscomply_agent.Postgres.Rows.{TaskRow, PgTask, review_task, Tables}

-- `UPDATE review_tasks … WHERE id = … AND test RETURNING *`, what follows it on the same task, and
-- `_raise_invalid_state` where no row was returned.
abbrev pub update_one :
    String → (TaskRow → Bool) → (PgTask → PgTask) → Tables → Result (ReviewTask × Tables)
update_one k test f d = elim (get k d) [
  | none ↦ err key_error
  | some t ↦ if test t.row then ok (review_task (f t), put k (f t) d) else err value_error
]

-- `%s::int IS NULL OR attempt_count = %s`
abbrev pub is_expected : Option ℕ → TaskRow → Bool
is_expected none r = true
is_expected (some n) r = nat_eq r.attempt_count n

abbrev pub is_running_as : Option ℕ → TaskRow → Bool
is_running_as expected r = is_running r.status && is_expected expected r

-- `UPDATE review_task_attempts … WHERE task_id = … AND attempt_number = n AND status = 'running'`
abbrev pub update_attempt : ℕ → (TaskAttempt → TaskAttempt) → List TaskAttempt → List TaskAttempt
update_attempt n f = map (λ a. if nat_eq a.attempt_number n && is_open a.status then f a else a)

unfoldable pub failed_row :
    (failed_node error_category error_message : String) → ℕ → PgTask → PgTask
failed_row failed_node error_category error_message now t = record t {
  row = record t.row {
    status = TaskStatus.failed;
    current_node = some failed_node;
    error_category = some error_category;
    error_message = some error_message;
    lease_expires_at = none;
    updated_at = now;
  };
  attempts =
      update_attempt t.row.attempt_count
        (λ a. record a {
          status = AttemptStatus.failed;
          failed_node = some failed_node;
          error_category = some error_category;
          error_message = some error_message;
          finished_at = some now;
        })
        t.attempts;
}

unfoldable pub fail_task :
    (task_id failed_node error_category error_message : String) (expected_attempt : Option ℕ)
    (now : ℕ)
    → Tables
    → Result (ReviewTask × Tables)
fail_task task_id failed_node error_category error_message expected_attempt now =
    update_one task_id (is_running_as expected_attempt)
      (failed_row failed_node error_category error_message now)

-- `COALESCE(MAX(step_number), 0)`
abbrev pub max_step : List AgentStep → ℕ
max_step [] = 0
max_step (x ∷ xs) = let m = max_step xs in if ltb m x.number then x.number else m

-- `INSERT … ON CONFLICT (task_id, step_number) DO NOTHING`
abbrev pub insert_step : AgentStep → List AgentStep → List AgentStep
insert_step x log = if any (λ y. nat_eq y.number x.number) log then log else log ++ x ∷ []

abbrev pub insert_steps : List AgentStep → List AgentStep → List AgentStep
insert_steps [] log = log
insert_steps (x ∷ xs) log = insert_steps xs (insert_step x log)

-- A checkpoint inserts the steps above the greatest that is logged.
abbrev pub insert_new_steps : List AgentStep → List AgentStep → List AgentStep
insert_new_steps xs log = insert_steps (select (λ x. ltb (max_step log) x.number) xs) log

unfoldable pub checkpointed_row : AgentState → ℕ → PgTask → PgTask
checkpointed_row state now t = record t {
  row = record t.row {
    agent_state_json = some state;
    current_node = some (last_action state);
    lease_expires_at = some (now + default_task_lease_seconds);
    updated_at = now;
  };
  steps = insert_new_steps state.steps t.steps;
}

unfoldable pub checkpoint_agent :
    (task_id : String) (state : AgentState) (expected_attempt : Option ℕ) (now : ℕ)
    → Tables
    → Result (ReviewTask × Tables)
checkpoint_agent task_id state expected_attempt now =
    update_one task_id (is_running_as expected_attempt) (checkpointed_row state now)

unfoldable pub paused_row : AgentState → ℕ → PgTask → PgTask
paused_row state now t = record t {
  row = record t.row {
    status = TaskStatus.waiting_input;
    agent_state_json = some state;
    current_node = some (last_action state);
    lease_expires_at = none;
    updated_at = now;
  };
  steps = insert_steps state.steps t.steps;
  attempts =
      update_attempt t.row.attempt_count (close_attempt AttemptStatus.waiting_input now) t.attempts;
}

unfoldable pub pause_task :
    (task_id : String) (state : AgentState) (expected_attempt : Option ℕ) (now : ℕ)
    → Tables
    → Result (ReviewTask × Tables)
pause_task task_id state expected_attempt now =
    update_one task_id (is_running_as expected_attempt) (paused_row state now)

-- `agent_state_json->>'gate_id'`
abbrev pub gate_of_row : TaskRow → Option String
gate_of_row r = elim r.agent_state_json [ none ↦ none | some state ↦ state.gate_id ]

unfoldable pub recorded_row : AgentState → ℕ → PgTask → PgTask
recorded_row state now t = record t {
  row = record t.row { agent_state_json = some state; updated_at = now };
}

unfoldable pub record_waiting_input :
    (task_id : String) (state : AgentState) (gate_id : String) (now : ℕ)
    → Tables
    → Result (ReviewTask × Tables)
record_waiting_input task_id state gate_id now =
    update_one task_id (λ r. is_waiting r.status && is_text (gate_of_row r) gate_id)
      (recorded_row state now)

unfoldable pub completed_row : ReviewPayload → String → ℕ → PgTask → PgTask
completed_row result final_node now t = record t {
  row = record t.row {
    status = TaskStatus.succeeded;
    current_node = some final_node;
    result_json = some result;
    error_category = none;
    error_message = none;
    lease_expires_at = none;
    updated_at = now;
  };
  attempts =
      update_attempt t.row.attempt_count (close_attempt AttemptStatus.succeeded now) t.attempts;
}

unfoldable pub complete_task :
    (task_id : String) (result : ReviewPayload) (final_node : String) (expected_attempt : Option ℕ)
    (now : ℕ)
    → Tables
    → Result (ReviewTask × Tables)
complete_task task_id result final_node expected_attempt now =
    update_one task_id (is_running_as expected_attempt) (completed_row result final_node now)
