-- ===== src/Enterprise/Validity.antt =====
-- What a valid store of tasks is, and that the methods on single tasks, the requeue and the
-- superseding keep it so (law_agent/review/enterprise_store.py).
use mathlib.Core.Path.{subst}
use crosscomply_agent.Prelude.{
  item, ℕ, String, Bool, false, not, ◌&&◌, ◌≡◌, refl, ◌∙◌, sym, ap, Option, some, All, get, put,
  values, All-put, All-get, All-map_values, IsKeyed, IsKeyed-put, IsKeyed-map_values, IsKeyed-get,
  HasDistinctKeys, HasDistinctKeys-put, HasDistinctKeys-map_values, Result, ok, value_error,
  raise_if, ◌>>=◌, ◌>>◌, arith, Bool-cases, Option-cases, ◌⊎◌, inl, inr,
}
use crosscomply_agent.Workflow.{ReviewPayload}
use crosscomply_agent.Enterprise.Records.{AgentState, ReviewTask, EnterpriseStore}
use crosscomply_agent.Enterprise.Tasks.{save, requeue_task, requeue_expired_tasks, is_failed}
use crosscomply_agent.Enterprise.Outcomes.{
  fail_task, checkpoint_agent, pause_task, record_waiting_input, resume_task, retry_task,
  complete_task, supersede_waiting_tasks, superseded, failed_with, checkpointed, paused, recorded,
  resumed, retried, completed, is_restart,
}
use crosscomply_agent.Enterprise.Soundness.{
  IsSound, failed_with-IsSound, completed-IsSound, paused-IsSound, checkpointed-IsSound,
  recorded-IsSound, resumed-IsSound, retried-IsSound, superseded-IsSound, requeue_task-IsSound,
}
use crosscomply_agent.Enterprise.Events.{store_after}

pub record IsValid (s : EnterpriseStore) : Type 0 where
  pub sound : All IsSound (values s.tasks)
  pub keyed : IsKeyed (λ (t : ReviewTask). t.id) s.tasks
  pub distinct : HasDistinctKeys s.tasks

-- The common shape of the methods on one task: look it up, guard, change it in place.
abbrev pub change_task :
    String
    → (ReviewTask → Bool)
    → (ReviewTask → ReviewTask)
    → EnterpriseStore
    → Result (ReviewTask × EnterpriseStore)
change_task k bad f s = do
  task ← item k s.tasks
  raise_if (bad task) value_error
  ok (save k (f task) s)

pub put-IsValid :
    (k : String) (t : ReviewTask) (s : EnterpriseStore)
    → IsValid s
    → IsSound t
    → t.id ≡ k
    → IsValid (record s { tasks = put k t s.tasks })
put-IsValid k t s v h e = record {
  sound = All-put IsSound k t s.tasks h v.sound;
  keyed = IsKeyed-put (λ u. u.id) k t s.tasks e v.keyed;
  distinct = HasDistinctKeys-put k t s.tasks v.distinct;
}

module _ (k : String) (bad : ReviewTask → Bool) (f : ReviewTask → ReviewTask)
    (s : EnterpriseStore) where
  -- It raises and leaves the store, or it finds a task that passes the guard, and stores the new one.
  pub change_task-cases :
      (store_after s (change_task k bad f s) ≡ s)
      ⊎ ((t : ReviewTask) × (get k s.tasks ≡ some t)
          × (bad t ≡ false)
          × (change_task k bad f s ≡ ok (save k (f t) s)))
  change_task-cases = elim (Option-cases (get k s.tasks)) [
    | inl e ↦ inl (ground (arith, e))
    | inr (t, e) ↦ elim (Bool-cases (bad t)) [
      | inl b ↦ inl (ground (arith, e, b))
      | inr b ↦ inr (t, e, b, ground (arith, e, b))
    ]
  ]

  pub change_task-IsValid :
      ((t : ReviewTask) → (f t).id ≡ t.id)
      → ((t : ReviewTask) → IsSound t → bad t ≡ false → IsSound (f t))
      → IsValid s
      → IsValid (store_after s (change_task k bad f s))
  change_task-IsValid same keep v = elim change_task-cases [
    | inl e ↦ subst IsValid (sym e) v
    | inr (t, e, b, r) ↦ subst IsValid (sym (ap (store_after s) r)) (
        put-IsValid k (f t) s v (keep t (All-get IsSound k s.tasks t v.sound e) b)
          (same t ∙ IsKeyed-get (λ u. u.id) k s.tasks t v.keyed e))
  ]

module _ (s : EnterpriseStore) (v : IsValid s) (now : ℕ) where
  pub fail_task-IsValid :
      (k n c m : String) (e : Option ℕ) → IsValid (store_after s (fail_task k n c m e now s))
  unfolding fail_task
  fail_task-IsValid k n c m e =
      change_task-IsValid k _ (failed_with n c m now) s (λ t. unfold failed_with in refl)
        (λ t h b. failed_with-IsSound t h now n c m (ground arith)) v

  pub complete_task-IsValid :
      (k : String) (r : ReviewPayload) (n : String) (e : Option ℕ)
      → IsValid (store_after s (complete_task k r n e now s))
  unfolding complete_task
  complete_task-IsValid k r n e =
      change_task-IsValid k _ (completed r n now) s (λ t. unfold completed in refl)
        (λ t h b. completed-IsSound t h now r n (ground arith)) v

  pub pause_task-IsValid :
      (k : String) (st : AgentState) (e : Option ℕ)
      → IsValid (store_after s (pause_task k st e now s))
  unfolding pause_task
  pause_task-IsValid k st e =
      change_task-IsValid k _ (paused st now) s (λ t. unfold paused in refl)
        (λ t h b. paused-IsSound t h now st (ground arith)) v

  pub checkpoint_agent-IsValid :
      (k : String) (st : AgentState) (e : Option ℕ)
      → IsValid (store_after s (checkpoint_agent k st e now s))
  unfolding checkpoint_agent
  checkpoint_agent-IsValid k st e =
      change_task-IsValid k _ (checkpointed st now) s (λ t. unfold checkpointed in refl)
        (λ t h b. checkpointed-IsSound t h now st (ground arith)) v

  pub record_waiting_input-IsValid :
      (k : String) (st : AgentState) (g : String)
      → IsValid (store_after s (record_waiting_input k st g now s))
  unfolding record_waiting_input
  record_waiting_input-IsValid k st g =
      change_task-IsValid k _ (recorded st now) s (λ t. unfold recorded in refl)
        (λ t h b. recorded-IsSound t h now st) v

  pub resume_task-IsValid :
      (k : String) (st : AgentState) → IsValid (store_after s (resume_task k st now s))
  unfolding resume_task
  resume_task-IsValid k st =
      change_task-IsValid k _ (resumed st now) s (λ t. unfold resumed in refl)
        (λ t h b. resumed-IsSound t h now st (ground arith)) v

  pub retry_task-IsValid : (k : String) → IsValid (store_after s (retry_task k now s))
  unfolding retry_task
  retry_task-IsValid k =
      change_task-IsValid k (λ t. not (is_failed t.status) && not (is_restart t)) (retried now) s
        (λ t. unfold retried in ground arith)
        (λ t h b. retried-IsSound t h now (unfold is_restart in ground arith)) v

  pub supersede_waiting_tasks-IsValid : (c : String) → IsValid (supersede_waiting_tasks c now s).1
  unfolding supersede_waiting_tasks
  supersede_waiting_tasks-IsValid c = record {
    sound =
        All-map_values IsSound (superseded c now) s.tasks (λ t h. superseded-IsSound t h now c)
          v.sound;
    keyed =
        IsKeyed-map_values (λ t. t.id) (superseded c now) s.tasks
          (λ t. unfold superseded in ground arith) v.keyed;
    distinct = HasDistinctKeys-map_values (superseded c now) s.tasks v.distinct;
  }

  pub requeue_expired_tasks-IsValid : IsValid (requeue_expired_tasks now s).1
  unfolding requeue_expired_tasks
  requeue_expired_tasks-IsValid = record {
    sound =
        All-map_values IsSound (requeue_task now) s.tasks (λ t h. requeue_task-IsSound t h now)
          v.sound;
    keyed =
        IsKeyed-map_values (λ t. t.id) (requeue_task now) s.tasks
          (λ t. unfold requeue_task in ground arith) v.keyed;
    distinct = HasDistinctKeys-map_values (requeue_task now) s.tasks v.distinct;
  }
