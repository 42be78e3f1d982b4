-- ===== src/Enterprise/Idempotence.antt =====
-- Asking for the same thing twice: the frozen inputs and the task of the first call are returned.
use crosscomply_agent.Prelude.{
  ℕ, String, ◌≡◌, refl, ◌∙◌, ap, Option, none, some, List, [], ◌∷◌, get, get-put_self, get_pair,
  get_pair-put_pair_self, ok, value_error, >>=-eq-ok, ◌>>=◌, raise_if, arith,
}
use crosscomply_agent.Enterprise.Records.{ReviewTask, EnterpriseStore, HashInput, MaterialSnapshot}
use crosscomply_agent.Enterprise.Tasks.{enqueue_review_task, task_or_new, new_task, is_foreign}
use crosscomply_agent.Enterprise.Materials.{
  create_material_snapshot, snapshot_or_new, versions_of, reject_multiple_versions, is_empty,
}

task_or_new_twice :
    (o : Option String) (key : String) (v w t : ReviewTask) (s s' : EnterpriseStore)
    → o ≡ get key s.task_by_key
    → v.idempotency_key ≡ key
    → task_or_new o v s ≡ ok (t, s')
    → (task_or_new (get key s'.task_by_key) w s' ≡ ok (t, s'))
      × (s'.intake_snapshots ≡ s.intake_snapshots)
unfolding task_or_new
task_or_new_twice (some i) key v w t s s' e k h = ground (arith, e)
task_or_new_twice none key v w t s s' e k h =
    ground
      (arith, e, get-put_self v.idempotency_key v.id s.task_by_key, get-put_self v.id v s.tasks)

module _ (canonical_hash : HashInput → String) where
  -- A task that was enqueued, or found, is returned again for the same inputs, at any later time
  -- and whatever identifier it would have got, and the second call leaves the store as it is.
  pub enqueue_review_task_idem :
      (c m i model b id id' : String) (now now' : ℕ) (s s' : EnterpriseStore) (t : ReviewTask)
      → enqueue_review_task canonical_hash c m i model b id now s ≡ ok (t, s')
      → enqueue_review_task canonical_hash c m i model b id' now' s' ≡ ok (t, s')
  unfolding enqueue_review_task
  enqueue_review_task_idem c m i model b id id' now now' s s' t h =
      let key = canonical_hash (HashInput.task c m i model b) in
      let (_, allowed, found) =
        >>=-eq-ok (raise_if (is_foreign c m (get i s.intake_snapshots)) value_error) _ h in
      let (again, same) =
        task_or_new_twice (get key s.task_by_key) key (new_task c m i model b key id now)
          (new_task c m i model b key id' now') t s s' refl refl found in
      let allowed' : raise_if (is_foreign c m (get i s'.intake_snapshots)) value_error ≡ ok tt =
        ap (λ d. raise_if (is_foreign c m (get i d)) value_error) same ∙ allowed in
      rw (allowed', ◌>>=◌) again

snapshot_or_new_twice :
    (o : Option String) (x y found : MaterialSnapshot) (s s' : EnterpriseStore)
    → o ≡ get_pair x.case_id x.fingerprint s.snapshot_by_fingerprint
    → snapshot_or_new o x s ≡ ok (found, s')
    → (snapshot_or_new (get_pair x.case_id x.fingerprint s'.snapshot_by_fingerprint) y s'
        ≡ ok (found, s'))
      × (s'.material_versions ≡ s.material_versions)
snapshot_or_new_twice (some i) x y found s s' e h = ground (arith, e)
snapshot_or_new_twice none x y found s s' e h = ground (
  arith,
  e,
  get_pair-put_pair_self x.case_id x.fingerprint x.id s.snapshot_by_fingerprint,
  get-put_self x.id x s.snapshots,
)

versions_of_same :
    (c : String) (ids : List String) (s s' : EnterpriseStore)
    → s'.material_versions ≡ s.material_versions
    → versions_of c ids s' ≡ versions_of c ids s
unfolding versions_of
versions_of_same c [] s s' e = refl
versions_of_same c (i ∷ ids) s s' e = ground (arith, versions_of_same c ids s s' e, ap (get i) e)

module _ (canonical_hash : HashInput → String) where
  -- A material snapshot that was created, or found, is returned again for the same versions.
  pub create_material_snapshot_idem :
      (c : String) (ids : List String) (by id by' id' : String) (now now' : ℕ)
      (s s' : EnterpriseStore) (x : MaterialSnapshot)
      → create_material_snapshot canonical_hash c ids by id now s ≡ ok (x, s')
      → create_material_snapshot canonical_hash c ids by' id' now' s' ≡ ok (x, s')
  unfolding create_material_snapshot
  create_material_snapshot_idem c ids by id by' id' now now' s s' x h =
      let (_, some_ids, h1) = >>=-eq-ok (raise_if (is_empty ids) value_error) _ h in
      let (rows, looked, h2) = >>=-eq-ok (versions_of c ids s) _ h1 in
      let (_, single, h3) = >>=-eq-ok (reject_multiple_versions [] rows) _ h2 in
      let (again, same) = snapshot_or_new_twice _ _ _ x s s' refl h3 in
      rw (some_ids, ◌>>=◌)
        (rw (versions_of_same c ids s s' same ∙ looked, ◌>>=◌) (rw (single, ◌>>=◌) again))
