-- ===== src/Remediation/Plans.antt =====
-- Remediation plans, in law_agent/review/case_store.py.
use crosscomply_agent.Prelude.{
  ℕ, ◌+◌, String, Bool, true, false, not, ◌&&◌, ◌||◌, Option, none, some, List, [], ◌∷◌, ◌==◌,
  is_none, truthy, find, select, any, Dict, get, put, item, values, map_values, Result, ok,
  value_error, raise_if, ◌>>=◌, ◌>>◌, if◌then◌else◌,
}
use crosscomply_agent.Workflow.Strip.{strip}
use crosscomply_agent.Remediation.Records.{
  PlanStatus, RemediationStatus, RemediationPlan, RemediationTask, RemediationEvent,
  RemediationStore, TaskData, PlanView,
}
use crosscomply_agent.Remediation.Tasks.{
  get_or, text_or, option_or, is_task_completed, new_remediation_task, put_task,
  is_outdated_version, get_remediation_plan,
}

-- The tasks of a plan.
abbrev pub tasks_of : String → RemediationStore → List RemediationTask
tasks_of plan_id s = select (λ t. t.plan_id == plan_id) (values s.tasks)

-- `self.get_remediation_plan(case_id) or plan`
abbrev pub plan_answer : String → RemediationPlan → RemediationStore → PlanView × RemediationStore
plan_answer identifier p s =
    (get_or (get_remediation_plan identifier s) (record { plan = p; tasks = []; events = [] }), s)

-- `create_remediation_task` for each of the given tasks, under the identifiers it would draw.
abbrev pub add_tasks :
    (plan_id case_id : String) → List (TaskData × String) → ℕ → RemediationStore → RemediationStore
add_tasks plan_id case_id [] now s = s
add_tasks plan_id case_id ((given, new_id) ∷ rest) now s =
    add_tasks plan_id case_id rest now
      (put_task (new_remediation_task plan_id case_id given new_id now) s)

unfoldable pub create_remediation_plan :
    (case_id created_by : String) (no_remediation_reason : Option String)
    → List (TaskData × String)
    → (new_id : String) (now : ℕ) → RemediationStore
    → Result (PlanView × RemediationStore)
create_remediation_plan case_id created_by no_remediation_reason tasks new_id now s = do
  raise_if (any (λ p. p.case_id == case_id) (values s.plans)) value_error
  let plan : RemediationPlan = record {
    id = new_id;
    case_id = case_id;
    created_by = created_by;
    status = PlanStatus.draft;
    no_remediation_reason = no_remediation_reason;
    version = 1;
    created_at = now;
    updated_at = now;
  }
  ok (
      plan_answer case_id plan
        (add_tasks new_id case_id tasks now (record s { plans = put new_id plan s.plans })))

-- `plan.update(status=…, version=plan["version"] + 1, updated_at=…)`
unfoldable pub plan_moved : PlanStatus → ℕ → RemediationPlan → RemediationPlan
plan_moved status now p = record p { status = status; version = p.version + 1; updated_at = now }

abbrev pub has_no_tasks : List RemediationTask → Bool
has_no_tasks [] = true
has_no_tasks (t ∷ ts) = false

unfoldable pub activate_remediation_plan :
    (identifier : String) (expected_version : Option ℕ) (now : ℕ)
    → RemediationStore
    → Result (PlanView × RemediationStore)
activate_remediation_plan identifier expected_version now s = do
  plan ← item identifier s.plans
  raise_if (is_outdated_version expected_version plan.version) value_error
  let tasks = tasks_of identifier s
  raise_if (has_no_tasks tasks && strip (text_or plan.no_remediation_reason "") == "") value_error
  raise_if (any (λ t. not (truthy t.assignee_id) || not (truthy t.due_date)) tasks) value_error
  let after =
      plan_moved (if has_no_tasks tasks then PlanStatus.completed else PlanStatus.active) now plan
  ok (plan_answer plan.case_id after (record s { plans = put identifier after s.plans }))

unfoldable pub cancel_remediation_plan :
    (identifier : String) (now : ℕ) → RemediationStore → Result (PlanView × RemediationStore)
cancel_remediation_plan identifier now s = do
  plan ← item identifier s.plans
  let after = plan_moved PlanStatus.cancelled now plan
  ok (plan_answer plan.case_id after (record s { plans = put identifier after s.plans }))

-- A task of the plan is current and not completed.
unfoldable pub has_open_task : String → RemediationStore → Bool
has_open_task plan_id s =
    any (λ t. t.is_current && not (is_task_completed t.status)) (tasks_of plan_id s)

abbrev pub open_status : String → RemediationStore → PlanStatus
open_status plan_id s = if has_open_task plan_id s then PlanStatus.active else PlanStatus.completed

-- A task of a plan that is synchronised again is no more current, unless it is named again.
abbrev pub retired : String → ℕ → RemediationTask → RemediationTask
retired plan_id now t =
    if t.plan_id == plan_id
    then record t { is_current = false; version = t.version + 1; updated_at = now }
    else t

-- `existing_by_key`: the task that has a source key, by its identifier; a later task wins.
abbrev pub keys_of : String → Dict RemediationTask → Dict String → Dict String
keys_of plan_id [] found = found
keys_of plan_id ((k, t) ∷ d) found = keys_of plan_id d (
    if t.plan_id == plan_id && truthy t.source_key
    then put (text_or t.source_key "") k found
    else found)

-- The task takes over what the new given say, and is open again if it was completed.
unfoldable pub refreshed : TaskData → ℕ → RemediationTask → RemediationTask
refreshed given now t = record t {
  title = given.title;
  description = get_or given.description t.description;
  acceptance_criteria = get_or given.acceptance_criteria t.acceptance_criteria;
  source_recommendation_index =
      get_or given.source_recommendation_index t.source_recommendation_index;
  source_recommendation = get_or given.source_recommendation t.source_recommendation;
  source_review_result_id = get_or given.source_review_result_id t.source_review_result_id;
  source_issue_id = get_or given.source_issue_id t.source_issue_id;
  priority = get_or given.priority t.priority;
  task_kind = get_or given.task_kind t.task_kind;
  answer_type = get_or given.answer_type t.answer_type;
  phase = get_or given.phase t.phase;
  blocking = get_or given.blocking t.blocking;
  assignee_id = option_or given.assignee_id t.assignee_id;
  due_date = option_or given.due_date t.due_date;
  is_current = true;
  status = if is_task_completed t.status then RemediationStatus.unstarted else t.status;
  version = t.version + 1;
  updated_at = now;
}

-- A task with the given's source key is refreshed, and else a new one is added.
abbrev pub sync_task :
    Option RemediationTask
    → (existing_id plan_id case_id : String) → TaskData
    → (new_id : String) (now : ℕ) → RemediationStore
    → RemediationStore
sync_task none existing_id plan_id case_id given new_id now s =
    put_task (new_remediation_task plan_id case_id given new_id now) s
sync_task (some t) existing_id plan_id case_id given new_id now s = record s {
  tasks = put existing_id (refreshed given now t) s.tasks;
}

abbrev pub sync_tasks :
    (existing_by_key : Dict String) (plan_id case_id : String)
    → List (TaskData × String)
    → ℕ
    → RemediationStore
    → RemediationStore
sync_tasks existing plan_id case_id [] now s = s
sync_tasks existing plan_id case_id ((given, new_id) ∷ rest) now s =
    let existing_id = get_or (get (text_or given.source_key "") existing) "" in
    sync_tasks existing plan_id case_id rest now (
      sync_task
        (if is_none (get (text_or given.source_key "") existing)
          then none
          else get existing_id s.tasks)
        existing_id plan_id case_id given new_id now s)

-- The plan that is synchronised: that of the case, whose tasks are retired first, or a new one.
unfoldable pub plan_for :
    Option RemediationPlan
    → (case_id created_by : String) (no_remediation_reason : Option String) (new_id : String)
      (now : ℕ)
    → RemediationStore
    → RemediationPlan × RemediationStore
plan_for (some p) case_id created_by reason new_id now s =
    (p, record s { tasks = map_values (retired p.id now) s.tasks })
plan_for none case_id created_by reason new_id now s =
    let plan : RemediationPlan = record {
      id = new_id;
      case_id = case_id;
      created_by = created_by;
      status = PlanStatus.active;
      no_remediation_reason = reason;
      version = 1;
      created_at = now;
      updated_at = now;
    } in
    (plan, record s { plans = put new_id plan s.plans })

unfoldable pub sync_guided_remediation_plan :
    (case_id created_by : String) (no_remediation_reason : Option String)
    → List (TaskData × String)
    → (new_id : String) (now : ℕ) → RemediationStore
    → PlanView × RemediationStore
sync_guided_remediation_plan case_id created_by reason tasks new_id now s =
    let (plan, s1) =
      plan_for (find (λ p. p.case_id == case_id) (values s.plans)) case_id created_by reason new_id
        now s in
    let s2 = sync_tasks (keys_of plan.id s1.tasks []) plan.id case_id tasks now s1 in
    let after = record (plan_moved (open_status plan.id s2) now plan) {
      no_remediation_reason = reason;
    } in
    plan_answer case_id after (record s2 { plans = put plan.id after s2.plans })

unfoldable pub list_remediation_events : String → RemediationStore → List RemediationEvent
list_remediation_events identifier s = select (λ e. e.plan_id == identifier) s.events
