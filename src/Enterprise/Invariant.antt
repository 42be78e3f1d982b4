-- ===== src/Enterprise/Invariant.antt =====
-- Every task of the store is sound and stands under its identifier, whatever happens to the store.
use mathlib.Core.Path.{subst}
use crosscomply_agent.Prelude.{
  item, ℕ, String, true, ◌≡◌, refl, sym, Option, none, some, List, [], ◌∷◌, All, get, values,
  All-put, IsKeyed-put, HasDistinctKeys-put, ok, value_error, raise_if, any,
}
use crosscomply_agent.Prelude.Sort.{All-sorted, All-select}
use crosscomply_agent.Enterprise.Records.{
  MaterialSnapshot, IntakeSnapshot, ReviewTask, EnterpriseStore, HashInput, empty_store,
}
use crosscomply_agent.Enterprise.Tasks.{
  enqueue_review_task, requeue_expired_tasks, claimed, claim_head, task_or_new, new_task,
  is_active_of, is_foreign, claim_next_task, is_queued, queued_tasks, earlier,
}
use crosscomply_agent.Enterprise.Materials.{
  create_material_version, create_material_snapshot, create_intake_snapshot, snapshot_or_new,
  intake_or_new, case_snapshot, is_empty, versions_of, reject_multiple_versions,
}
use crosscomply_agent.Enterprise.Soundness.{IsSound, claimed-IsSound}
use crosscomply_agent.Enterprise.Events.{
  Event, happen, Run, start, next, store_after, store_after_bind,
}
use crosscomply_agent.Enterprise.Validity.{
  IsValid, put-IsValid, fail_task-IsValid, complete_task-IsValid, pause_task-IsValid,
  checkpoint_agent-IsValid, record_waiting_input-IsValid, resume_task-IsValid, retry_task-IsValid,
  supersede_waiting_tasks-IsValid, requeue_expired_tasks-IsValid,
}

-- The head of the queue is a sound task of the store that is queued.
queued_tasks-IsSound :
    (s : EnterpriseStore)
    → IsValid s
    → All (λ t. IsSound t × (is_queued t.status ≡ true)) (queued_tasks s)
queued_tasks-IsSound s v =
    All-sorted earlier (λ t. IsSound t × (is_queued t.status ≡ true)) _
      (All-select IsSound (λ t. is_queued t.status) (values s.tasks) v.sound)

claim_from :
    (q : List ReviewTask) (w : String) (l now : ℕ) (s : EnterpriseStore)
    → All (λ t. IsSound t × (is_queued t.status ≡ true)) q
    → IsValid s
    → IsValid (claim_head q w l now s).1
unfolding claim_head
claim_from [] w l now s h v = v
claim_from (t ∷ q) w l now s h v =
    put-IsValid t.id (claimed w l now t) s v (claimed-IsSound t h.0.0 now w l h.0.1)
      (unfold claimed in refl)

claim_next_task-IsValid :
    (w : String) (l now : ℕ) (s : EnterpriseStore)
    → IsValid s
    → IsValid (claim_next_task w l now s).1
unfolding claim_next_task
claim_next_task-IsValid w l now s v =
    let v' = requeue_expired_tasks-IsValid s v now in
    claim_from (queued_tasks (requeue_expired_tasks now s).1) w l now _ (queued_tasks-IsSound _ v')
      v'

task_or_new-IsValid :
    (o : Option String) (t : ReviewTask) (s : EnterpriseStore)
    → IsSound t
    → IsValid s
    → IsValid (store_after s (task_or_new o t s))
unfolding task_or_new
task_or_new-IsValid (some k) t s h v =
    store_after_bind IsValid s (item k s.tasks) (λ u. ok (u, s)) v (λ u e. v)
task_or_new-IsValid none t s h v =
    store_after_bind IsValid s
      (raise_if (any (is_active_of t.case_id) (values s.tasks)) value_error) _ v
      (λ _ e. record {
        sound = All-put IsSound t.id t s.tasks h v.sound;
        keyed = IsKeyed-put (λ u. u.id) t.id t s.tasks refl v.keyed;
        distinct = HasDistinctKeys-put t.id t s.tasks v.distinct;
      })

new_task-IsSound :
    (c m i model b key id : String) (now : ℕ) → IsSound (new_task c m i model b key id now)
new_task-IsSound c m i model b key id now = record {
  counted = refl;
  numbered = tt;
  closed = tt;
  ended = tt;
  agrees = tt;
}

snapshot_or_new-IsValid :
    (o : Option String) (x : MaterialSnapshot) (s : EnterpriseStore)
    → IsValid s
    → IsValid (store_after s (snapshot_or_new o x s))
snapshot_or_new-IsValid (some k) x s v =
    store_after_bind IsValid s (item k s.snapshots) (λ u. ok (u, s)) v (λ u e. v)
snapshot_or_new-IsValid none x s v = record {
  sound = v.sound;
  keyed = v.keyed;
  distinct = v.distinct;
}

intake_or_new-IsValid :
    (o : Option IntakeSnapshot) (x : IntakeSnapshot) (s : EnterpriseStore)
    → IsValid s
    → IsValid (intake_or_new o x s).1
intake_or_new-IsValid (some k) x s v = v
intake_or_new-IsValid none x s v = record {
  sound = v.sound;
  keyed = v.keyed;
  distinct = v.distinct;
}

module _ (canonical_hash : HashInput → String) (s : EnterpriseStore) (v : IsValid s) (now : ℕ) where
  create_material_snapshot-IsValid :
      (c : String) (vs : List String) (by id : String)
      → IsValid (store_after s (create_material_snapshot canonical_hash c vs by id now s))
  unfolding create_material_snapshot
  create_material_snapshot-IsValid c vs by id =
      store_after_bind IsValid s (raise_if (is_empty vs) value_error) _ v λ _ _.
        store_after_bind IsValid s (versions_of c vs s) _ v λ rows _.
          store_after_bind IsValid s (reject_multiple_versions [] rows) _ v
            λ _ _. snapshot_or_new-IsValid _ _ s v

  enqueue_review_task-IsValid :
      (c m i model b id : String)
      → IsValid (store_after s (enqueue_review_task canonical_hash c m i model b id now s))
  unfolding enqueue_review_task
  enqueue_review_task-IsValid c m i model b id =
      store_after_bind IsValid s (raise_if (is_foreign c m (get i s.intake_snapshots)) value_error)
        _ v λ _ _. task_or_new-IsValid _ _ s (new_task-IsSound c m i model b _ id now) v

  create_intake_snapshot-IsValid :
      (c m i by : String) (ref : Option String) (id : String)
      → IsValid (store_after s (create_intake_snapshot canonical_hash c m i by ref id now s))
  unfolding create_intake_snapshot
  create_intake_snapshot-IsValid c m i by ref id =
      store_after_bind IsValid s (case_snapshot c (get m s.snapshots)) _ v
        λ x _. intake_or_new-IsValid _ _ s v

module _ (canonical_hash : HashInput → String) where
  -- Whatever happens to the store, its tasks stay sound.
  pub happen-IsValid :
      (now : ℕ) (e : Event) (s : EnterpriseStore)
      → IsValid s
      → IsValid (happen canonical_hash now e s)
  unfolding happen
  happen-IsValid now (Event.upload u m i) s v =
      unfold create_material_version in
      record { sound = v.sound; keyed = v.keyed; distinct = v.distinct }
  happen-IsValid now (Event.freeze c vs by id) s v =
      create_material_snapshot-IsValid canonical_hash s v now c vs by id
  happen-IsValid now (Event.freeze_intake c m i by ref id) s v =
      create_intake_snapshot-IsValid canonical_hash s v now c m i by ref id
  happen-IsValid now (Event.enqueue c m i model b id) s v =
      enqueue_review_task-IsValid canonical_hash s v now c m i model b id
  happen-IsValid now Event.requeue s v = requeue_expired_tasks-IsValid s v now
  happen-IsValid now (Event.claim w l) s v = claim_next_task-IsValid w l now s v
  happen-IsValid now (Event.fail k n c m e) s v = fail_task-IsValid s v now k n c m e
  happen-IsValid now (Event.checkpoint k st e) s v = checkpoint_agent-IsValid s v now k st e
  happen-IsValid now (Event.pause k st e) s v = pause_task-IsValid s v now k st e
  happen-IsValid now (Event.answer k st g) s v = record_waiting_input-IsValid s v now k st g
  happen-IsValid now (Event.resume k st) s v = resume_task-IsValid s v now k st
  happen-IsValid now (Event.retry k) s v = retry_task-IsValid s v now k
  happen-IsValid now (Event.complete k r n e) s v = complete_task-IsValid s v now k r n e
  happen-IsValid now (Event.supersede c) s v = supersede_waiting_tasks-IsValid s v now c

  -- In every store that is reached from the empty one, by any methods in any order at any times,
  -- each task stands under its identifier, counts its attempts, numbers them from 1 and has ended all
  -- but the last one. A task in the queue has no attempt or a last one that does not run; any other
  -- task has the status of its last attempt. A task has a lease exactly while it runs.
  pub Run-IsValid : {s : EnterpriseStore} → Run canonical_hash empty_store s → IsValid s
  Run-IsValid start = record { sound = tt; keyed = tt; distinct = tt }
  Run-IsValid (next {t = t} r now e fresh eq) =
      subst IsValid (sym eq) (happen-IsValid now e t (Run-IsValid r))
