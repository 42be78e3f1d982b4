-- ===== src/Remediation/Versions/Methods.antt =====
-- Each method of law_agent/review/case_store.py on remediation raises the versions of the tasks
-- that it changes.
use mathlib.Core.Path.{subst}
use crosscomply_agent.Prelude.{
  item-get, ℕ, String, Bool, true, false, not, Option, none, some, List, [], ◌≡◌, sym, get, put,
  find, ◌==◌, ok, item, raise_if, arith, value_error, Dict, if◌then◌else◌, values, any,
}
use crosscomply_agent.Remediation.Records.{
  RemediationTask, RemediationPlan, RemediationStatus, RemediationSubmission, RemediationStore,
  TaskData,
}
use crosscomply_agent.Remediation.Tasks.{
  TaskUpdate, create_remediation_task, update_remediation_task, start_remediation_task, text_or,
  updated, moved, new_remediation_task, is_outdated_version, is_task_unstarted, is_task_in_progress,
}
use crosscomply_agent.Remediation.Plans.{
  create_remediation_plan, activate_remediation_plan, cancel_remediation_plan,
  sync_guided_remediation_plan, retired, plan_for, keys_of,
}
use crosscomply_agent.Remediation.Submissions.{
  create_remediation_submission, review_remediation_submission, settle_plan, assess, assess_pending,
  settle_if, assessed, reviewed, is_not_reviewable,
}
use crosscomply_agent.Remediation.Events.{remediation_after, remediation_after_bind}
use crosscomply_agent.Remediation.Versions.{
  IsLater, Differ, put-IsLater, put_new-IsLater, map_values-IsLater, add_tasks-IsLater,
  sync_tasks-IsLater,
}

-- Settling a plan changes no task.
pub settle_if-tasks :
    (b : Bool) (p : String) (now : ℕ) (s s' : RemediationStore)
    → settle_if b p now s ≡ ok s'
    → s'.tasks ≡ s.tasks
unfolding settle_plan
settle_if-tasks true p now s s' h = ground (arith, h)
settle_if-tasks false p now s s' h = ground (arith, h)

module _ (k : String) (t : RemediationTask) where
  abbrev pub Holds : RemediationStore → Type 0
  Holds s = IsLater k t s.tasks

  pub plan-Holds :
      (c by : String) (r : Option String) (ts : List (TaskData × String)) (id : String) (now : ℕ)
      (s : RemediationStore)
      → Differ k t ts
      → Holds s
      → Holds (remediation_after s (create_remediation_plan c by r ts id now s))
  unfolding create_remediation_plan
  plan-Holds c by r ts id now s f h =
      remediation_after_bind Holds s
        (raise_if (any (λ p. p.case_id == c) (values s.plans)) value_error) _ h
        λ _ _. add_tasks-IsLater k t id c ts now _ f h

  pub activate-tasks :
      (i : String) (e : Option ℕ) (now : ℕ) (s : RemediationStore)
      → (remediation_after s (activate_remediation_plan i e now s)).tasks ≡ s.tasks
  unfolding activate_remediation_plan
  activate-tasks i e now s = ground arith

  pub cancel-tasks :
      (i : String) (now : ℕ) (s : RemediationStore)
      → (remediation_after s (cancel_remediation_plan i now s)).tasks ≡ s.tasks
  unfolding cancel_remediation_plan
  cancel-tasks i now s = ground arith

  pub add-Holds :
      (p c : String) (g : TaskData) (id : String) (now : ℕ) (s : RemediationStore)
      → (text_or g.id id == k) ≡ false
      → Holds s
      → Holds (remediation_after s (create_remediation_task p c g id now s))
  unfolding create_remediation_task
  add-Holds p c g id now s f h =
      remediation_after_bind Holds s (item p s.plans) _ h
        λ _ _. put_new-IsLater k t _ (new_remediation_task p c g id now) s.tasks f h

  plan_for-Holds :
      (o : Option RemediationPlan) (c by : String) (r : Option String) (id : String) (now : ℕ)
      (s : RemediationStore)
      → Holds s
      → Holds (plan_for o c by r id now s).1
  unfolding plan_for
  plan_for-Holds (some p) c by r id now s h =
      map_values-IsLater k t (retired p.id now) s.tasks (λ v. ground arith) h
  plan_for-Holds none c by r id now s h = h

  pub sync-Holds :
      (c by : String) (r : Option String) (ts : List (TaskData × String)) (id : String) (now : ℕ)
      (s : RemediationStore)
      → Differ k t ts
      → Holds s
      → Holds (sync_guided_remediation_plan c by r ts id now s).1
  unfolding sync_guided_remediation_plan
  sync-Holds c by r ts id now s f h =
      let x = plan_for (find (λ p. p.case_id == c) (values s.plans)) c by r id now s in
      sync_tasks-IsLater k t (keys_of x.0.id x.1.tasks []) x.0.id c ts now x.1 f
        (plan_for-Holds _ c by r id now s h)

  -- A task that is moved to another status.
  moved-Holds :
      (j : String) (v : RemediationTask) (st : RemediationStatus) (now : ℕ)
      (d : Dict RemediationTask)
      → get j d ≡ some v
      → IsLater k t d
      → IsLater k t (put j (moved st now v) d)
  unfolding moved
  moved-Holds j v st now d g h = put-IsLater k t j v _ d g (omega arith) h

  pub update-Holds :
      (i : String) (u : TaskUpdate) (e : Option ℕ) (now : ℕ) (s : RemediationStore)
      → Holds s
      → Holds (remediation_after s (update_remediation_task i u e now s))
  unfolding update_remediation_task updated
  update-Holds i u e now s h = remediation_after_bind Holds s (item i s.tasks) _ h λ v found.
      remediation_after_bind Holds s (raise_if (is_outdated_version e v.version) value_error) _ h
        λ _ _. put-IsLater k t i v _ s.tasks (item-get i s.tasks v found) (omega arith) h

  pub begin-Holds :
      (i : String) (now : ℕ) (s : RemediationStore)
      → Holds s
      → Holds (remediation_after s (start_remediation_task i now s))
  unfolding start_remediation_task
  begin-Holds i now s h = remediation_after_bind Holds s (item i s.tasks) _ h λ v found.
      remediation_after_bind Holds s (raise_if (not (is_task_unstarted v.status)) value_error) _ h
        λ _ _.
          moved-Holds i v RemediationStatus.in_progress now s.tasks (item-get i s.tasks v found) h

  pub submit-Holds :
      (i by n : String) (c : Option String) (es : List (String × String)) (id : String) (now : ℕ)
      (s : RemediationStore)
      → Holds s
      → Holds (remediation_after s (create_remediation_submission i by n c es id now s))
  unfolding create_remediation_submission
  submit-Holds i by n c es id now s h =
      remediation_after_bind Holds s (item i s.tasks) _ h λ v found.
        remediation_after_bind Holds s (raise_if (not (is_task_in_progress v.status)) value_error) _
          h
          λ _ _.
            moved-Holds i v RemediationStatus.pending_review now s.tasks
              (item-get i s.tasks v found) h

  pub assess-Holds :
      (b : Bool) (i : String) (r : Bool) (now : ℕ) (x : RemediationSubmission)
      (s : RemediationStore)
      → Holds s
      → Holds (remediation_after s (assess_pending b i r now x s))
  unfolding assess
  assess-Holds false i r now x s h = h
  assess-Holds true i r now x s h =
      remediation_after_bind Holds s (item x.task_id s.tasks) _ h λ v found.
        remediation_after_bind Holds s
          (settle_plan v.plan_id now (record s {
            submissions = put i (record x { status = (assessed r v x).0 }) s.submissions;
            tasks = put x.task_id (moved (assessed r v x).1 now v) s.tasks;
          }))
          _ h
          λ s' e. subst (IsLater k t) (sym (settle_if-tasks true v.plan_id now _ s' e)) (
            moved-Holds x.task_id v (assessed r v x).1 now s.tasks
              (item-get x.task_id s.tasks v found) h)

  pub review-Holds :
      (i d by : String) (n : Option String) (now : ℕ) (s : RemediationStore)
      → Holds s
      → Holds (remediation_after s (review_remediation_submission i d by n now s))
  unfolding review_remediation_submission
  review-Holds i d by n now s h =
      remediation_after_bind Holds s
        (raise_if (is_not_reviewable (get i s.submissions)) value_error) _ h
        λ _ _. remediation_after_bind Holds s (item i s.submissions) _ h λ x _.
          remediation_after_bind Holds s (item x.task_id s.tasks) _ h λ v found.
            let st =
              if d == "accepted"
              then RemediationStatus.completed
              else RemediationStatus.in_progress in
            remediation_after_bind Holds s
              (settle_if (d == "accepted") v.plan_id now (record s {
                submissions = put i (reviewed (d == "accepted") by n now x) s.submissions;
                tasks = put x.task_id (moved st now v) s.tasks;
              }))
              _ h
              λ s' e.
                subst (IsLater k t) (sym (settle_if-tasks (d == "accepted") v.plan_id now _ s' e))
                  (moved-Holds x.task_id v st now s.tasks (item-get x.task_id s.tasks v found) h)
