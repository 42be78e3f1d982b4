-- ===== src/Enterprise/Events.antt =====
-- What can happen to the store of law_agent/review/enterprise_store.py, as one event for each of
-- its methods, and the runs in which events follow one another in any order.
use crosscomply_agent.Prelude.{
  ℕ, String, Option, none, List, ◌≡◌, get, Result, ok, err, ◌>>=◌, refl,
}
use crosscomply_agent.Workflow.{ReviewPayload}
use crosscomply_agent.Enterprise.Records.{AgentState, EnterpriseStore, HashInput}
use crosscomply_agent.Enterprise.Tasks.{enqueue_review_task, requeue_expired_tasks, claim_next_task}
use crosscomply_agent.Enterprise.Outcomes.{
  fail_task, checkpoint_agent, pause_task, record_waiting_input, resume_task, retry_task,
  complete_task, supersede_waiting_tasks,
}
use crosscomply_agent.Enterprise.Materials.{
  MaterialUpload, create_material_version, create_material_snapshot, create_intake_snapshot,
}

pub data Event : Type 0 where
  upload : MaterialUpload → (new_material_id new_version_id : String) → Event
  freeze : (case_id : String) → List String → (created_by new_id : String) → Event
  freeze_intake :
      (case_id material_snapshot_id intake created_by : String)
      → Option String
      → (new_id : String) → Event
  enqueue :
      (case_id material_snapshot_id intake_snapshot_id model_id boundary new_id : String) → Event
  requeue : Event
  claim : (worker_id : String) (lease_seconds : ℕ) → Event
  fail : (task_id node category message : String) → Option ℕ → Event
  checkpoint : (task_id : String) → AgentState → Option ℕ → Event
  pause : (task_id : String) → AgentState → Option ℕ → Event
  answer : (task_id : String) → AgentState → (gate_id : String) → Event
  resume : (task_id : String) → AgentState → Event
  retry : (task_id : String) → Event
  complete : (task_id : String) → ReviewPayload → (node : String) → Option ℕ → Event
  supersede : (case_id : String) → Event

-- A method that raises leaves the store as it was.
abbrev pub store_after {ℓ} :
    {A : Type ℓ} → EnterpriseStore → Result (A × EnterpriseStore) → EnterpriseStore
store_after s (ok (a, t)) = t
store_after s (err e) = s

-- What holds of the store as it is, and of the store after the rest of a block, holds after the block.
pub store_after_bind {ℓ κ ℓ'} :
    {A : Type ℓ} {B : Type κ} (P : EnterpriseStore → Type ℓ') (s : EnterpriseStore) (m : Result A)
    (f : A → Result (B × EnterpriseStore))
    → P s
    → ((a : A) → m ≡ ok a → P (store_after s (f a)))
    → P (store_after s (m >>= f))
store_after_bind P s (ok a) f h k = k a refl
store_after_bind P s (err e) f h k = h

module _ (canonical_hash : HashInput → String) where
  unfoldable pub happen : ℕ → Event → EnterpriseStore → EnterpriseStore
  happen now (upload u m v) s = (create_material_version u m v now s).1
  happen now (freeze c vs by id) s =
      store_after s (create_material_snapshot canonical_hash c vs by id now s)
  happen now (freeze_intake c m i by ref id) s =
      store_after s (create_intake_snapshot canonical_hash c m i by ref id now s)
  happen now (enqueue c m i model b id) s =
      store_after s (enqueue_review_task canonical_hash c m i model b id now s)
  happen now requeue s = (requeue_expired_tasks now s).1
  happen now (claim w l) s = (claim_next_task w l now s).1
  happen now (fail k n c m e) s = store_after s (fail_task k n c m e now s)
  happen now (checkpoint k st e) s = store_after s (checkpoint_agent k st e now s)
  happen now (pause k st e) s = store_after s (pause_task k st e now s)
  happen now (answer k st g) s = store_after s (record_waiting_input k st g now s)
  happen now (resume k st) s = store_after s (resume_task k st now s)
  happen now (retry k) s = store_after s (retry_task k now s)
  happen now (complete k r n e) s = store_after s (complete_task k r n e now s)
  happen now (supersede c) s = (supersede_waiting_tasks c now s).1

  -- `uuid4` gives a task an identifier that no task of the store has.
  abbrev pub IsFresh : Event → EnterpriseStore → Type 0
  IsFresh (enqueue _ _ _ _ _ id) s = get id s.tasks ≡ none
  IsFresh _ s = Unit

  -- The store `t` is reached from `s` by events at any times, each with a fresh identifier.
  pub data Run (s : EnterpriseStore) : EnterpriseStore → Type 0 where
    start : Run s s
    next :
        {t u : EnterpriseStore}
        → Run s t
        → (now : ℕ) (e : Event) → IsFresh e t
        → u ≡ happen now e t
        → Run s u
