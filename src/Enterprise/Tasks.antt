-- ===== src/Enterprise/Tasks.antt =====
-- The review tasks of `InMemoryEnterpriseStore` in law_agent/review/enterprise_store.py.
--
-- Each method is a function of the store. `now` is the clock's reading while the method holds the
-- lock and `new_id` the identifier that `uuid4` gives it. A method that raises leaves the store as
-- it was. The task that Python hands out is the stored object; here it is a copy.
use text.Mathlib.Text.{is_lt}
use Prim.Native.String.{compare}
use crosscomply_agent.Prelude.{
  item, ℕ, ◌+◌, ◌*◌, String, Bool, true, false, not, ◌&&◌, ◌||◌, Option, none, some, List, [], ◌∷◌,
  ◌++◌, ◌==◌, ◌!=◌, nat_eq, ltb, leb, any, select, get_last?, update_last, get, put, values,
  map_values, Result, ok, value_error, if◌then◌else◌, raise_if, ◌>>=◌, ◌>>◌, length,
}
use crosscomply_agent.Prelude.Sort.{sorted}
use crosscomply_agent.Enterprise.Records.{
  TaskStatus, AttemptStatus, AgentState, TaskAttempt, ReviewTask, IntakeSnapshot, EnterpriseStore,
  HashInput,
}

abbrev pub default_task_lease_seconds : ℕ
default_task_lease_seconds = 30 * 60

abbrev pub is_queued : TaskStatus → Bool
is_queued TaskStatus.queued = true
is_queued _ = false

abbrev pub is_running : TaskStatus → Bool
is_running TaskStatus.running = true
is_running _ = false

abbrev pub is_waiting : TaskStatus → Bool
is_waiting TaskStatus.waiting_input = true
is_waiting _ = false

abbrev pub is_succeeded : TaskStatus → Bool
is_succeeded TaskStatus.succeeded = true
is_succeeded _ = false

abbrev pub is_failed : TaskStatus → Bool
is_failed TaskStatus.failed = true
is_failed _ = false

-- `status in {"queued", "running", "waiting_input"}`
abbrev pub is_active : TaskStatus → Bool
is_active s = is_queued s || is_running s || is_waiting s

abbrev pub is_open : AttemptStatus → Bool
is_open AttemptStatus.running = true
is_open _ = false

abbrev pub is_paused : AttemptStatus → Bool
is_paused AttemptStatus.waiting_input = true
is_paused _ = false

-- The object behind a key is changed, and returned.
abbrev pub save : String → ReviewTask → EnterpriseStore → ReviewTask × EnterpriseStore
save k t s = (t, record s { tasks = put k t s.tasks })

-- `not task.attempts`
abbrev pub has_no_attempts : ReviewTask → Bool
has_no_attempts t = elim t.attempts [ [] ↦ true | _ ∷ _ ↦ false ]

-- `expected_attempt is not None and task.attempt_count != expected_attempt`
abbrev pub is_stale : Option ℕ → ReviewTask → Bool
is_stale none t = false
is_stale (some n) t = not (nat_eq t.attempt_count n)

-- `steps[-1].get("action") if steps else "agent_decision"`
abbrev pub last_action : AgentState → String
last_action state = elim (get_last? state.steps) [
  | none ↦ "agent_decision"
  | some step ↦ step.action
]

-- The task as it is enqueued.
abbrev pub new_task :
    (case_id material_snapshot_id intake_snapshot_id model_id data_boundary_summary key
      new_id : String)
    (now : ℕ)
    → ReviewTask
new_task case_id material_snapshot_id intake_snapshot_id model_id data_boundary_summary key new_id
      now =
    record {
      id = new_id;
      case_id = case_id;
      material_snapshot_id = material_snapshot_id;
      intake_snapshot_id = intake_snapshot_id;
      idempotency_key = key;
      model_id = model_id;
      data_boundary_summary = data_boundary_summary;
      status = TaskStatus.queued;
      current_node = none;
      error_category = none;
      error_message = none;
      attempt_count = 0;
      result = none;
      agent_state = none;
      steps = [];
      attempts = [];
      lease_expires_at = none;
      created_at = now;
      updated_at = now;
    }

abbrev pub is_active_of : String → ReviewTask → Bool
is_active_of case_id t = t.case_id == case_id && is_active t.status

-- The task that stands under the key already, or the new one if no task of its case is active.
unfoldable pub task_or_new :
    Option String → ReviewTask → EnterpriseStore → Result (ReviewTask × EnterpriseStore)
task_or_new (some existing_id) new s = do task ← item existing_id s.tasks; ok (task, s)
task_or_new none new s = do
  raise_if (any (is_active_of new.case_id) (values s.tasks)) value_error
  ok (
    new,
    record s {
      tasks = put new.id new s.tasks;
      task_by_key = put new.idempotency_key new.id s.task_by_key;
    },
  )

-- The frozen facts are missing, of another case, or of another material snapshot.
abbrev pub is_foreign : (case_id material_snapshot_id : String) → Option IntakeSnapshot → Bool
is_foreign case_id material_snapshot_id none = true
is_foreign case_id material_snapshot_id (some i) =
    i.case_id != case_id || i.material_snapshot_id != material_snapshot_id

module _ (canonical_hash : HashInput → String) where
  -- The task of these inputs, which is returned again if they were enqueued before.
  unfoldable pub enqueue_review_task :
      (case_id material_snapshot_id intake_snapshot_id model_id data_boundary_summary
        new_id : String)
      (now : ℕ)
      → EnterpriseStore
      → Result (ReviewTask × EnterpriseStore)
  enqueue_review_task case_id material_snapshot_id intake_snapshot_id model_id data_boundary_summary
        new_id now s =
      do
        raise_if
            (is_foreign case_id material_snapshot_id (get intake_snapshot_id s.intake_snapshots))
            value_error
        let key = canonical_hash (
            HashInput.task case_id material_snapshot_id intake_snapshot_id model_id
              data_boundary_summary)
        task_or_new (get key s.task_by_key)
            (new_task case_id material_snapshot_id intake_snapshot_id model_id data_boundary_summary
              key new_id now)
            s

-- Whether the loop of `_requeue_expired_tasks_locked` takes a task back from its worker.
abbrev pub is_expired : ℕ → ReviewTask → Bool
is_expired now t = elim t.lease_expires_at [
  | none ↦ false
  | some lease ↦ is_running t.status && leb lease now
]

abbrev pub lease_lost : ℕ → TaskAttempt → TaskAttempt
lease_lost now a =
    if is_open a.status
    then record a {
      status = AttemptStatus.failed;
      failed_node = some "worker_lease";
      error_category = some "worker_lease_expired";
      error_message = some "worker 租约过期，任务已自动重新排队";
      finished_at = some now;
    }
    else a

unfoldable pub requeue_task : ℕ → ReviewTask → ReviewTask
requeue_task now t =
    if is_expired now t
    then record t {
      status = TaskStatus.queued;
      current_node = some "worker_lease";
      error_category = some "worker_lease_expired";
      error_message = some "worker 租约过期，任务已自动重新排队";
      lease_expires_at = none;
      updated_at = now;
      attempts = update_last (lease_lost now) t.attempts;
    }
    else t

-- The count of the tasks that were taken back, and the store after it.
unfoldable pub requeue_expired_tasks : ℕ → EnterpriseStore → ℕ × EnterpriseStore
requeue_expired_tasks now s = (
  length (select (is_expired now) (values s.tasks)),
  record s { tasks = map_values (requeue_task now) s.tasks },
)

-- The key `(created_at, id)` of `a` is smaller than that of `b`.
abbrev pub earlier : ReviewTask → ReviewTask → Bool
earlier a b =
    ltb a.created_at b.created_at || nat_eq a.created_at b.created_at && is_lt (compare a.id b.id)

unfoldable pub claimed : String → ℕ → ℕ → ReviewTask → ReviewTask
claimed worker_id lease_seconds now t = record t {
  status = TaskStatus.running;
  attempt_count = t.attempt_count + 1;
  error_category = none;
  error_message = none;
  lease_expires_at = some (now + lease_seconds);
  attempts =
      t.attempts
      ++ record {
        attempt_number = t.attempt_count + 1;
        worker_id = worker_id;
        status = AttemptStatus.running;
        failed_node = none;
        error_category = none;
        error_message = none;
        started_at = now;
        finished_at = none;
      }
        ∷ [];
  updated_at = now;
}

abbrev pub queued_tasks : EnterpriseStore → List ReviewTask
queued_tasks s = sorted earlier (select (λ t. is_queued t.status) (values s.tasks))

-- The first of the sorted queue is claimed.
unfoldable pub claim_head :
    List ReviewTask
    → (worker_id : String) (lease_seconds now : ℕ) → EnterpriseStore
    → Option ReviewTask × EnterpriseStore
claim_head [] worker_id lease_seconds now s = (none, s)
claim_head (t ∷ _) worker_id lease_seconds now s =
    let t' = claimed worker_id lease_seconds now t in
    (some t', record s { tasks = put t.id t' s.tasks })

unfoldable pub claim_next_task :
    (worker_id : String) (lease_seconds now : ℕ)
    → EnterpriseStore
    → Option ReviewTask × EnterpriseStore
claim_next_task worker_id lease_seconds now s =
    let s' = (requeue_expired_tasks now s).1 in
    claim_head (queued_tasks s') worker_id lease_seconds now s'
