-- ===== src/Worker/Queue.antt =====
-- The protocol ReviewTaskQueue of law_agent/review/worker.py, and what a worker relies on.
use crosscomply_agent.Prelude.{ℕ, String, Option}
use crosscomply_agent.Workflow.{ReviewPayload}
use crosscomply_agent.Enterprise.Records.{AgentState, ReviewTask}

-- An exception: ReviewWorkflowFailed with its fields, ValueError, or another class.
pub data Exception : Type 0 where
  workflow_failed : (failed_node reason message : String) → Exception
  value_error : (message : String) → Exception
  other : (class_name message : String) → Exception

pub data Outcome {ℓ} (A : Type ℓ) : Type ℓ where
  returned : A → Outcome A
  raised : Exception → Outcome A

-- What a statement that may raise does to a state.
abbrev pub M : Type 0 → Type 0 → Type 0
M State A = State → Outcome A × State

-- A worker always names the attempt that it was given.
pub record ReviewTaskQueue : Type 1 where
  pub State : Type 0
  pub claim_next_task : (worker_id : String) → M State (Option ReviewTask)
  pub complete_task :
      (task_id : String) → ReviewPayload → (final_node : String) → ℕ → M State ReviewTask
  pub fail_task :
      (task_id failed_node error_category error_message : String) → ℕ → M State ReviewTask
  pub pause_task : (task_id : String) → AgentState → ℕ → M State ReviewTask
  pub get_task : (task_id : String) → M State (Option ReviewTask)

-- An outcome that leaves no doubt: the method returned, or refused with ValueError.
abbrev pub IsDefinite {ℓ} : {A : Type ℓ} → Outcome A → Type 0
IsDefinite (returned a) = Unit
IsDefinite (raised (value_error m)) = Unit
IsDefinite (raised (workflow_failed n r m)) = ⊥
IsDefinite (raised (other c m)) = ⊥

abbrev pub HasReturned {ℓ} : {A : Type ℓ} → Outcome A → Type 0
HasReturned (returned a) = Unit
HasReturned (raised e) = ⊥

-- The attempt `n` of a task may run at a state or not. It runs no more after its result or its
-- pause was taken, nor after its failure was taken or refused; reading a task changes nothing.
pub record IsFenced (q : ReviewTaskQueue) : Type 1 where
  pub IsRunningAt : String → ℕ → q.State → Type 0
  pub complete_settles :
      (k : String) (r : ReviewPayload) (node : String) (n : ℕ) (s : q.State)
      → HasReturned (q.complete_task k r node n s).0
      → IsRunningAt k n (q.complete_task k r node n s).1
      → ⊥
  pub pause_settles :
      (k : String) (st : AgentState) (n : ℕ) (s : q.State)
      → HasReturned (q.pause_task k st n s).0
      → IsRunningAt k n (q.pause_task k st n s).1
      → ⊥
  pub fail_settles :
      (k node c m : String) (n : ℕ) (s : q.State)
      → IsDefinite (q.fail_task k node c m n s).0
      → IsRunningAt k n (q.fail_task k node c m n s).1
      → ⊥
  pub get_keeps :
      (j k : String) (n : ℕ) (s : q.State) → IsRunningAt k n (q.get_task j s).1 → IsRunningAt k n s
