-- ===== src/Postgres/Queue.antt =====
-- The queue in PostgreSQL (law_agent/review/enterprise_store.py): how tasks are claimed, taken
-- back and read.
use crosscomply_agent.Prelude.{
  ℕ, ◌+◌, String, Bool, false, not, ◌&&◌, ◌||◌, Option, none, some, List, [], ◌∷◌, ◌++◌, ◌==◌,
  nat_eq, ltb, leb, select, get_last?, length, get, put, values, map_values, if◌then◌else◌,
  option_map,
}
use crosscomply_agent.Prelude.Sort.{sorted}
use crosscomply_agent.Enterprise.Records.{TaskStatus, AttemptStatus, ReviewTask}
use crosscomply_agent.Enterprise.Tasks.{is_queued, is_running, is_open}
use crosscomply_agent.Postgres.Rows.{TaskRow, PgTask, review_task, Tables}
use crosscomply_agent.Postgres.Reports.{update_attempt}

-- `MAX_TASK_AUTO_ATTEMPTS`
abbrev pub max_task_auto_attempts : ℕ
max_task_auto_attempts = 5

-- `UPDATE review_tasks … WHERE test`, and what it brings to the other rows of the same tasks.
abbrev pub update_where : (TaskRow → Bool) → (PgTask → PgTask) → Tables → Tables
update_where test f = map_values (λ t. if test t.row then f t else t)

-- `status = 'running' AND lease_expires_at < now()`
abbrev pub has_expired : ℕ → TaskRow → Bool
has_expired now r = elim r.lease_expires_at [
  | none ↦ false
  | some lease ↦ is_running r.status && ltb lease now
]

abbrev pub is_exhausted : TaskRow → Bool
is_exhausted r = leb max_task_auto_attempts r.attempt_count

unfoldable pub lease_lost_row : ℕ → PgTask → PgTask
lease_lost_row now t = record t {
  row = record t.row {
    status = if is_exhausted t.row then TaskStatus.failed else TaskStatus.queued;
    current_node = some "worker_lease";
    error_category = some "worker_lease_expired";
    error_message =
        some (if is_exhausted t.row then "多次自动重排仍未完成，已停止自动重试，需人工处理" else "worker 租约过期，任务已自动重新排队");
    lease_expires_at = none;
    updated_at = now;
  };
  attempts =
      update_attempt t.row.attempt_count
        (λ a. record a {
          status = AttemptStatus.failed;
          failed_node = some "worker_lease";
          error_category = some "worker_lease_expired";
          error_message = some "worker 租约过期，任务已自动重新排队";
          finished_at = some now;
        })
        t.attempts;
}

-- The rows of attempts that the second UPDATE returns, counted.
abbrev pub attempts_taken : ℕ → List PgTask → ℕ
attempts_taken now [] = 0
attempts_taken now (t ∷ ts) =
    let rest = attempts_taken now ts in
    let taken =
      length (
        select (λ a. nat_eq a.attempt_number t.row.attempt_count && is_open a.status) t.attempts) in
    if has_expired now t.row then taken + rest else rest

unfoldable pub requeue_expired_tasks : ℕ → Tables → ℕ × Tables
requeue_expired_tasks now d =
    (attempts_taken now (values d), update_where (has_expired now) (lease_lost_row now) d)

unfoldable pub claimed_row : String → ℕ → ℕ → PgTask → PgTask
claimed_row worker_id lease_seconds now t = record t {
  row = record t.row {
    status = TaskStatus.running;
    attempt_count = t.row.attempt_count + 1;
    error_category = none;
    error_message = none;
    lease_expires_at = some (now + lease_seconds);
    updated_at = now;
  };
  attempts =
      t.attempts
      ++ record {
        attempt_number = t.row.attempt_count + 1;
        worker_id = worker_id;
        status = AttemptStatus.running;
        failed_node = none;
        error_category = none;
        error_message = none;
        started_at = now;
        finished_at = none;
      }
        ∷ [];
}

-- The first candidate is claimed. Without one the transaction commits what it took back.
unfoldable pub claim_first :
    List PgTask → (worker_id : String) (lease_seconds now : ℕ) → Tables → Option ReviewTask × Tables
claim_first [] worker_id lease_seconds now d = (none, d)
claim_first (t ∷ _) worker_id lease_seconds now d =
    let t' = claimed_row worker_id lease_seconds now t in (some (review_task t'), put t.row.id t' d)

-- `precedes` is the order that the database's collation gives to identifiers.
module _ (precedes : String → String → Bool) where
  -- `ORDER BY created_at, id`
  abbrev pub is_before : PgTask → PgTask → Bool
  is_before a b =
      ltb a.row.created_at b.row.created_at
      || nat_eq a.row.created_at b.row.created_at && precedes a.row.id b.row.id

  -- `is_locked` holds of the rows that another transaction has locked, which are skipped.
  unfoldable pub candidates : (is_locked : TaskRow → Bool) → Tables → List PgTask
  candidates is_locked d =
      sorted is_before (select (λ t. is_queued t.row.status && not (is_locked t.row)) (values d))

  unfoldable pub claim_next_task :
      (is_locked : TaskRow → Bool) (worker_id : String) (lease_seconds now : ℕ)
      → Tables
      → Option ReviewTask × Tables
  claim_next_task is_locked worker_id lease_seconds now d =
      let d' = (requeue_expired_tasks now d).1 in
      claim_first (candidates is_locked d') worker_id lease_seconds now d'

  -- `ORDER BY created_at DESC, id DESC LIMIT 1`
  unfoldable pub get_latest_task : String → Tables → Option ReviewTask
  get_latest_task case_id d =
      option_map review_task
        (get_last? (sorted is_before (select (λ t. t.row.case_id == case_id) (values d))))

unfoldable pub get_task : String → Tables → Option ReviewTask
get_task task_id d = option_map review_task (get task_id d)
