-- ===== src/Remediation/Versions.antt =====
-- The versions of remediation tasks (law_agent/review/case_store.py).
pub mod Methods
use mathlib.Core.Path.{subst}
use crosscomply_agent.Prelude.{
  item-get, ℕ, ◌+◌, ◌<◌, String, Bool, true, false, not, ◌&&◌, ◌||◌, Option, none, some, List, [],
  ◌∷◌, ◌≡◌, refl, sym, ap, ◌∙◌, ◌⊎◌, inl, inr, get, put, get-put, get-map_values, map_values, find,
  is_none, eq_iff, ◌==◌, Result, ok, err, ◌>>=◌, ◌>>◌, item, raise_if, arith, value_error, Dict,
  Bool-cases, Option-cases, All, if◌then◌else◌, values, nat_eq, truthy, any,
}
use crosscomply_agent.Workflow.Strip.{strip}
use crosscomply_agent.Remediation.Records.{
  RemediationTask, RemediationPlan, RemediationStatus, RemediationSubmission, RemediationStore,
  TaskData,
}
use crosscomply_agent.Remediation.Tasks.{
  TaskUpdate, create_remediation_task, update_remediation_task, start_remediation_task, text_or,
  get_or, updated, moved, put_task, new_remediation_task, is_outdated_version, is_task_unstarted,
  is_task_in_progress,
}
use crosscomply_agent.Remediation.Plans.{
  create_remediation_plan, activate_remediation_plan, cancel_remediation_plan,
  sync_guided_remediation_plan, add_tasks, sync_task, sync_tasks, refreshed, retired, plan_for,
  keys_of, plan_moved, open_status,
}
use crosscomply_agent.Remediation.Submissions.{
  create_remediation_submission, apply_agent_remediation_assessment, review_remediation_submission,
  add_remediation_event, settle_plan, assess, assess_pending, settle_if, assessed, reviewed,
  is_not_reviewable,
}
use crosscomply_agent.Remediation.Events.{
  Event, happen, remediation_after, remediation_after_bind, AreNew, IsFresh, Run, start, next,
}

-- The task under `k`, which was `t`, is `t` still or has a later version.
abbrev pub IsLater : String → RemediationTask → Dict RemediationTask → Type 0
IsLater k t d = (u : RemediationTask) × (get k d ≡ some u) × ((u ≡ t) ⊎ (t.version < u.version))

module _ (k : String) (t : RemediationTask) where
  later_than :
      (v w u : RemediationTask)
      → v.version < w.version
      → v ≡ u
      → (u ≡ t) ⊎ (t.version < u.version)
      → t.version < w.version
  later_than v w u l same (inl e) = omega (arith, l, ap (λ x. x.version) (same ∙ e))
  later_than v w u l same (inr m) = omega (arith, l, m, ap (λ x. x.version) same)

  pub put-IsLater :
      (j : String) (v w : RemediationTask) (d : Dict RemediationTask)
      → get j d ≡ some v
      → v.version < w.version
      → IsLater k t d
      → IsLater k t (put j w d)
  put-IsLater j v w d g l (u, h, c) = elim (Bool-cases (j == k)) [
    | inl e ↦
        let same : v ≡ u = cc (sym g ∙ ap (λ i. get i d) ((eq_iff j k).0 e) ∙ h) in
        (w, get-put j k w d ∙ rw e refl, inr (later_than v w u l same c))
    | inr e ↦ (u, get-put j k w d ∙ rw e h, c)
  ]

  pub put_new-IsLater :
      (j : String) (w : RemediationTask) (d : Dict RemediationTask)
      → (j == k) ≡ false
      → IsLater k t d
      → IsLater k t (put j w d)
  put_new-IsLater j w d e (u, h, c) = (u, get-put j k w d ∙ rw e h, c)

  pub map_values-IsLater :
      (f : RemediationTask → RemediationTask) (d : Dict RemediationTask)
      → ((v : RemediationTask) → (f v ≡ v) ⊎ (v.version < (f v).version))
      → IsLater k t d
      → IsLater k t (map_values f d)
  map_values-IsLater f d grows (u, h, c) = (
    f u,
    get-map_values f k d u h,
    elim (grows u) [
      | inl e ↦ subst (λ w. (w ≡ t) ⊎ (t.version < w.version)) (sym e) c
      | inr l ↦ inr (later_than u (f u) u l refl c)
    ],
  )

  -- The new identifiers are not `k`.
  abbrev pub Differ : List (TaskData × String) → Type 0
  Differ ts = All (λ g. (text_or g.0.id g.1 == k) ≡ false) ts

  pub add_tasks-IsLater :
      (p c : String) (ts : List (TaskData × String)) (now : ℕ) (s : RemediationStore)
      → Differ ts
      → IsLater k t s.tasks
      → IsLater k t (add_tasks p c ts now s).tasks
  add_tasks-IsLater p c [] now s f h = h
  add_tasks-IsLater p c ((g, id) ∷ ts) now s f h =
      add_tasks-IsLater p c ts now (put_task (new_remediation_task p c g id now) s) f.1
        (put_new-IsLater _ (new_remediation_task p c g id now) s.tasks f.0 h)

  sync_task-IsLater :
      (o : Option RemediationTask) (i p c : String) (g : TaskData) (id : String) (now : ℕ)
      (s : RemediationStore)
      → ((v : RemediationTask) → o ≡ some v → get i s.tasks ≡ some v)
      → (text_or g.id id == k) ≡ false
      → IsLater k t s.tasks
      → IsLater k t (sync_task o i p c g id now s).tasks
  unfolding refreshed
  sync_task-IsLater none i p c g id now s found f h =
      put_new-IsLater _ (new_remediation_task p c g id now) s.tasks f h
  sync_task-IsLater (some v) i p c g id now s found f h =
      put-IsLater i v (refreshed g now v) s.tasks (found v refl) (omega arith) h

  pub sync_tasks-IsLater :
      (ex : Dict String) (p c : String) (ts : List (TaskData × String)) (now : ℕ)
      (s : RemediationStore)
      → Differ ts
      → IsLater k t s.tasks
      → IsLater k t (sync_tasks ex p c ts now s).tasks
  sync_tasks-IsLater ex p c [] now s f h = h
  sync_tasks-IsLater ex p c ((g, id) ∷ ts) now s f h =
      let i = get_or (get (text_or g.source_key "") ex) "" in
      let o = if is_none (get (text_or g.source_key "") ex) then none else get i s.tasks in
      sync_tasks-IsLater ex p c ts now (sync_task o i p c g id now s) f.1
        (sync_task-IsLater o i p c g id now s (λ v e. ground (arith, e)) f.0 h)
