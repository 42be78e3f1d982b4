-- ===== src/Enterprise/Retry.antt =====
-- What `retry_task` of law_agent/review/enterprise_store.py does not look at.
use crosscomply_agent.Prelude.{
  ℕ, String, true, false, ◌==◌, ◌≡◌, ◌∙◌, sym, ap, some, get, put, get-put, get-put_self, ok, arith,
  Bool-cases, inl, inr, eq_iff, eq_refl,
}
use crosscomply_agent.Enterprise.Records.{TaskStatus, ReviewTask, EnterpriseStore}
use crosscomply_agent.Enterprise.Tasks.{is_active_of}
use crosscomply_agent.Enterprise.Outcomes.{retry_task, retried}

-- A failed task and an active one stand under different keys.
keys_differ :
    (k j : String) (t u : ReviewTask) (s : EnterpriseStore)
    → get k s.tasks ≡ some t
    → t.status ≡ TaskStatus.failed
    → get j s.tasks ≡ some u
    → is_active_of t.case_id u ≡ true
    → (k == j) ≡ false
keys_differ k j t u s g f h a = elim (Bool-cases (k == j)) [
  | inl e ↦
      let same : u ≡ t = cc (sym h ∙ ap (λ i. get i s.tasks) (sym ((eq_iff k j).0 e)) ∙ g) in
      absurd (ground (arith, ap (λ (x : ReviewTask). x.status) same))
  | inr e ↦ e
]

-- A retry does not look at the other tasks of the case: a failed task that is retried while another
-- task of its case is active becomes active beside it.
pub retry_task_beside_active :
    (k j : String) (t u : ReviewTask) (now : ℕ) (s : EnterpriseStore)
    → get k s.tasks ≡ some t
    → t.status ≡ TaskStatus.failed
    → get j s.tasks ≡ some u
    → is_active_of t.case_id u ≡ true
    → (t' : ReviewTask) × (s' : EnterpriseStore) × (retry_task k now s ≡ ok (t', s'))
      × (get k s'.tasks ≡ some t')
      × (is_active_of t.case_id t' ≡ true)
      × (get j s'.tasks ≡ some u)
unfolding retry_task retried
retry_task_beside_active k j t u now s g f h a = (
  retried now t,
  record s { tasks = put k (retried now t) s.tasks },
  ground (arith, g),
  get-put_self k _ s.tasks,
  ground (arith, eq_refl t.case_id),
  get-put k j _ s.tasks ∙ rw (keys_differ k j t u s g f h a) h,
)
