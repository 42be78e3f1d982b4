-- ===== src/Remediation/Tasks.antt =====
-- Remediation tasks and the views on them, in law_agent/review/case_store.py.
use text.Mathlib.Text.{is_lt}
use Prim.Native.Char.{code}
use Prim.Native.String.{compare, ◌∷◌ as ◌&◌, [] as empty}
use crosscomply_agent.Prelude.{
  ℕ, ◌+◌, String, Bool, true, false, not, ◌&&◌, ◌||◌, Option, none, some, List, map, ◌==◌, nat_eq,
  ltb, truthy, find, select, option_map, get, put, item, values, Result, ok, value_error, raise_if,
  ◌>>=◌, ◌>>◌, if◌then◌else◌,
}
use crosscomply_agent.Prelude.Sort.{sorted}
use crosscomply_agent.Remediation.Records.{
  RemediationStatus, RemediationPlan, RemediationTask, RemediationSubmission, RemediationStore,
  TaskData, SubmissionView, TaskView, PlanView,
}

-- `d.get(key, default)`
abbrev pub get_or {ℓ} : {A : Type ℓ} → Option A → A → A
get_or none default = default
get_or (some a) default = a

-- `a or b` on a text that may be absent or empty.
abbrev pub text_or : Option String → String → String
text_or none b = b
text_or (some a) b = if a == "" then b else a

abbrev pub option_or : Option String → Option String → Option String
option_or a b = if truthy a then a else b

abbrev pub is_task_completed : RemediationStatus → Bool
is_task_completed RemediationStatus.completed = true
is_task_completed _ = false

abbrev pub is_task_unstarted : RemediationStatus → Bool
is_task_unstarted RemediationStatus.unstarted = true
is_task_unstarted _ = false

abbrev pub is_task_in_progress : RemediationStatus → Bool
is_task_in_progress RemediationStatus.in_progress = true
is_task_in_progress _ = false

abbrev pub is_fact_confirmation : String → Bool
is_fact_confirmation kind = kind == "fact_confirmation"

-- The new row of `create_remediation_task`.
abbrev pub new_remediation_task :
    (plan_id case_id : String) → TaskData → (new_id : String) → ℕ → RemediationTask
new_remediation_task plan_id case_id given new_id now = record {
  id = text_or given.id new_id;
  plan_id = plan_id;
  case_id = case_id;
  title = given.title;
  description = get_or given.description "";
  acceptance_criteria = get_or given.acceptance_criteria "";
  source_recommendation_index = get_or given.source_recommendation_index none;
  source_recommendation = get_or given.source_recommendation none;
  source_review_result_id = get_or given.source_review_result_id none;
  source_issue_id = get_or given.source_issue_id none;
  task_kind = get_or given.task_kind "control_remediation";
  answer_type =
      text_or given.answer_type
        (if is_fact_confirmation (get_or given.task_kind "") then "choice" else "control_status");
  phase = get_or given.phase "pre_approval";
  blocking = get_or given.blocking false;
  source_key = given.source_key;
  is_current = true;
  assignee_id = given.assignee_id;
  priority = get_or given.priority "medium";
  due_date = given.due_date;
  status = RemediationStatus.unstarted;
  version = 1;
  created_at = now;
  updated_at = now;
}

abbrev pub put_task : RemediationTask → RemediationStore → RemediationStore
put_task t s = record s { tasks = put t.id t s.tasks }

unfoldable pub create_remediation_task :
    (plan_id case_id : String)
    → TaskData
    → (new_id : String) (now : ℕ) → RemediationStore
    → Result (RemediationTask × RemediationStore)
create_remediation_task plan_id case_id given new_id now s = do
  plan ← item plan_id s.plans
  let task = new_remediation_task plan_id case_id given new_id now
  ok (task, put_task task s)

-- The fields that an update names.
pub record TaskUpdate : Type 0 where
  pub title : Option String
  pub description : Option String
  pub acceptance_criteria : Option String
  pub assignee_id : Option (Option String)
  pub priority : Option String
  pub due_date : Option (Option String)

-- `expected_version is not None and expected_version != version`
abbrev pub is_outdated_version : Option ℕ → ℕ → Bool
is_outdated_version none version = false
is_outdated_version (some n) version = not (nat_eq n version)

unfoldable pub updated : TaskUpdate → ℕ → RemediationTask → RemediationTask
updated u now t = record t {
  title = get_or u.title t.title;
  description = get_or u.description t.description;
  acceptance_criteria = get_or u.acceptance_criteria t.acceptance_criteria;
  assignee_id = get_or u.assignee_id t.assignee_id;
  priority = get_or u.priority t.priority;
  due_date = get_or u.due_date t.due_date;
  version = t.version + 1;
  updated_at = now;
}

unfoldable pub update_remediation_task :
    (identifier : String)
    → TaskUpdate
    → (expected_version : Option ℕ) (now : ℕ) → RemediationStore
    → Result (RemediationTask × RemediationStore)
update_remediation_task identifier u expected_version now s = do
  task ← item identifier s.tasks
  raise_if (is_outdated_version expected_version task.version) value_error
  ok (updated u now task, record s { tasks = put identifier (updated u now task) s.tasks })

-- `task.update(status=…, version=task["version"] + 1, updated_at=…)`
unfoldable pub moved : RemediationStatus → ℕ → RemediationTask → RemediationTask
moved status now t = record t { status = status; version = t.version + 1; updated_at = now }

unfoldable pub start_remediation_task :
    (identifier : String) (now : ℕ) → RemediationStore → Result (RemediationTask × RemediationStore)
start_remediation_task identifier now s = do
  task ← item identifier s.tasks
  raise_if (not (is_task_unstarted task.status)) value_error
  let started = moved RemediationStatus.in_progress now task
  ok (started, record s { tasks = put identifier started s.tasks })

abbrev pub view_submission : RemediationStore → RemediationSubmission → SubmissionView
view_submission s x = record {
  submission = x;
  evidence = select (λ e. e.submission_id == x.id) (values s.evidence);
}

abbrev pub view_task : RemediationStore → RemediationTask → TaskView
view_task s t = record {
  task = t;
  submissions = map (view_submission s) (select (λ x. x.task_id == t.id) (values s.submissions));
}

abbrev pub view_plan : RemediationStore → RemediationPlan → PlanView
view_plan s p = record {
  plan = p;
  tasks = map (view_task s) (select (λ t. t.plan_id == p.id) (values s.tasks));
  events = select (λ e. e.plan_id == p.id) s.events;
}

unfoldable pub get_remediation_task : String → RemediationStore → Option TaskView
get_remediation_task identifier s = option_map (view_task s) (get identifier s.tasks)

unfoldable pub get_remediation_submission : String → RemediationStore → Option SubmissionView
get_remediation_submission identifier s =
    option_map (view_submission s) (get identifier s.submissions)

-- `text.startswith(prefix)`
abbrev pub starts_with : (prefix text : String) → Bool
starts_with empty text = true
starts_with (c & p) empty = false
starts_with (c & p) (d & t) = nat_eq (code c) (code d) && starts_with p t

-- The plan that an identifier names: its own, or that of a case.
abbrev pub plan_named : String → RemediationStore → Option RemediationPlan
plan_named identifier s =
    if starts_with "remediation_plan_" identifier
    then get identifier s.plans
    else find (λ p. p.case_id == identifier) (values s.plans)

unfoldable pub get_remediation_plan : String → RemediationStore → Option PlanView
get_remediation_plan identifier s = option_map (view_plan s) (plan_named identifier s)

-- The key `(due_date or "9999-12-31", created_at)` of `a` is smaller than that of `b`.
abbrev pub is_due_before : RemediationTask → RemediationTask → Bool
is_due_before a b =
    let x = text_or a.due_date "9999-12-31" in
    let y = text_or b.due_date "9999-12-31" in
    is_lt (compare x y) || x == y && ltb a.created_at b.created_at

abbrev pub status_name : RemediationStatus → String
status_name RemediationStatus.unstarted = "open"
status_name RemediationStatus.in_progress = "in_progress"
status_name RemediationStatus.pending_review = "pending_review"
status_name RemediationStatus.completed = "completed"

-- A filter that is not given passes everything.
abbrev pub passes : Option String → Option String → Bool
passes filter value = not (truthy filter) || text_or value "" == text_or filter ""

unfoldable pub list_remediation_tasks :
    (case_id assignee_id status : Option String) → RemediationStore → List RemediationTask
list_remediation_tasks case_id assignee_id status s = sorted is_due_before (
    select
      (λ t.
        passes case_id (some t.case_id)
        && passes assignee_id t.assignee_id
        && passes status (some (status_name t.status)))
      (values s.tasks))
