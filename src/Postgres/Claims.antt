-- ===== src/Postgres/Claims.antt =====
-- PostgreSQL hands out the task that the in-memory store does, if no row is locked and no lease has
-- ended (law_agent/review/enterprise_store.py).
use text.Mathlib.Text.{is_lt}
use Prim.Native.String.{compare}
use crosscomply_agent.Prelude.{
  ℕ, ◌<◌, ◌≡◌, refl, sym, ap, ◌∙◌, inl, inr, String, Bool, Bool-cases, true, false, not, ◌&&◌,
  Option, none, some, List, [], ◌∷◌, map, arith, ltb, leb, Dict, put, values, map_values, select,
  All,
}
use crosscomply_agent.Prelude.Sort.{insert, sorted}
use crosscomply_agent.Enterprise.Records.{ReviewTask, EnterpriseStore}
use crosscomply_agent.Enterprise.Tasks.{
  is_running, is_queued, earlier, queued_tasks, claim_head, claimed, is_expired,
}
use crosscomply_agent.Enterprise.Tasks as E
use crosscomply_agent.Postgres.Rows.{
  TaskRow, PgTask, review_task, Tables, view, view-put, with_tasks,
}
use crosscomply_agent.Postgres.Queue.{
  update_where, has_expired, lease_lost_row, requeue_expired_tasks, claimed_row, claim_first,
  candidates, claim_next_task,
}

module _ {ℓ κ} {A : Type ℓ} {B : Type κ} (f : A → B) where
  -- A test of the images that is a test of the elements.
  select-map :
      (test : B → Bool) (test' : A → Bool) (xs : List A)
      → ((x : A) → test (f x) ≡ test' x)
      → select test (map f xs) ≡ map f (select test' xs)
  select-map test test' [] same = refl
  select-map test test' (x ∷ xs) same = elim (Bool-cases (test' x)) [
    | inl e ↦
        let here : test (f x) ≡ true = same x ∙ e in
        rw (e, here) (ap (λ ys. f x ∷ ys) (select-map test test' xs same))
    | inr e ↦
        let here : test (f x) ≡ false = same x ∙ e in rw (e, here) (select-map test test' xs same)
  ]

  insert-map :
      (before : B → B → Bool) (x : A) (xs : List A)
      → insert before (f x) (map f xs) ≡ map f (insert (λ a b. before (f a) (f b)) x xs)
  insert-map before x [] = refl
  insert-map before x (y ∷ ys) = elim (Bool-cases (before (f y) (f x))) [
    | inl e ↦ rw e (ap (λ zs. f y ∷ zs) (insert-map before x ys))
    | inr e ↦ rw e refl
  ]

  sorted-map :
      (before : B → B → Bool) (xs : List A)
      → sorted before (map f xs) ≡ map f (sorted (λ a b. before (f a) (f b)) xs)
  sorted-map before [] = refl
  sorted-map before (x ∷ xs) =
      ap (insert before (f x)) (sorted-map before xs)
      ∙ insert-map before x (sorted (λ a b. before (f a) (f b)) xs)

map_values-same {ℓ} :
    {V : Type ℓ} (f : V → V) (d : Dict V) → All (λ v. f v ≡ v) (values d) → map_values f d ≡ d
map_values-same f [] h = refl
map_values-same f ((k, v) ∷ d) h =
    ap (λ w. (k, w) ∷ map_values f d) h.0 ∙ ap (λ e. (k, v) ∷ e) (map_values-same f d h.1)

values-view : (d : Tables) → values (view d) ≡ map review_task (values d)
values-view [] = refl
values-view ((k, t) ∷ d) = ap (λ ts. review_task t ∷ ts) (values-view d)

-- The lease of a running task has not ended.
abbrev pub IsOnTime : ℕ → PgTask → Type 0
IsOnTime now t = elim t.row.lease_expires_at [
  | none ↦ Unit
  | some lease ↦ is_running t.row.status ≡ true → now < lease
]

abbrev pub AreOnTime : ℕ → Tables → Type 0
AreOnTime now d = All (IsOnTime now) (values d)

not-expired :
    (now : ℕ) (t : PgTask)
    → IsOnTime now t
    → (is_expired now (review_task t) ≡ false) × (has_expired now t.row ≡ false)
unfolding review_task
not-expired now t h = of_lease t.row.lease_expires_at refl
  where
    of_lease :
        (lease : Option ℕ)
        → t.row.lease_expires_at ≡ lease
        → (is_expired now (review_task t) ≡ false) × (has_expired now t.row ≡ false)
    of_lease none e = rw e (refl, refl)
    of_lease (some l) e = elim (Bool-cases (is_running t.row.status)) [
      | inl r ↦
          let early : now < l = (rw e at h) r in
          let p : leb l now ≡ false = ground arith in
          let q : ltb l now ≡ false = ground arith in rw (e, r, p, q) (refl, refl)
      | inr r ↦ rw (e, r) (refl, refl)
    ]

module _ (now : ℕ) where
  requeue_view-same :
      (d : Tables) → AreOnTime now d → map_values (E.requeue_task now) (view d) ≡ view d
  unfolding E.requeue_task
  requeue_view-same [] h = refl
  requeue_view-same ((k, t) ∷ d) h =
      let (p, q) = not-expired now t h.0 in
      rw p (ap (λ e. (k, review_task t) ∷ e) (requeue_view-same d h.1))

  pub requeue-same :
      (d : Tables) → AreOnTime now d → update_where (has_expired now) (lease_lost_row now) d ≡ d
  requeue-same [] h = refl
  requeue-same ((k, t) ∷ d) h =
      let (p, q) = not-expired now t h.0 in rw q (ap (λ e. (k, t) ∷ e) (requeue-same d h.1))

abbrev pub as_claim :
    EnterpriseStore → Option ReviewTask × Tables → Option ReviewTask × EnterpriseStore
as_claim s (t, d) = (t, with_tasks s d)

claim_first-Agrees :
    (ts : List PgTask) (w : String) (l now : ℕ) (s : EnterpriseStore) (d : Tables)
    → claim_head (map review_task ts) w l now (with_tasks s d)
      ≡ as_claim s (claim_first ts w l now d)
unfolding claim_head claim_first review_task claimed claimed_row
claim_first-Agrees [] w l now s d = refl
claim_first-Agrees (t ∷ ts) w l now s d =
    ap (λ u. (some u, record s { tasks = put t.row.id u (view d) })) agrees
    ∙ ap (λ v. (some (review_task (claimed_row w l now t)), record s { tasks = v }))
        (sym (view-put t.row.id (claimed_row w l now t) d))
  where
    agrees : claimed w l now (review_task t) ≡ review_task (claimed_row w l now t)
    agrees = refl

-- The order of the identifiers is that of their characters, and no row is locked.
abbrev pub by_characters : String → String → Bool
by_characters i j = is_lt (compare i j)

abbrev pub unlocked : TaskRow → Bool
unlocked r = false

queued-Agree :
    (s : EnterpriseStore) (d : Tables)
    → queued_tasks (with_tasks s d) ≡ map review_task (candidates by_characters unlocked d)
unfolding candidates review_task
queued-Agree s d =
    ap (λ ts. sorted earlier (select (λ t. is_queued t.status) ts)) (values-view d)
    ∙ ap (sorted earlier) (
        select-map review_task (λ t. is_queued t.status)
          (λ t. is_queued t.row.status && not (unlocked t.row)) (values d) (λ t. same_status t))
    ∙ sorted-map review_task earlier
        (select (λ t. is_queued t.row.status && not (unlocked t.row)) (values d))
  where
    same_status :
        (t : PgTask)
        → is_queued (review_task t).status ≡ (is_queued t.row.status && not (unlocked t.row))
    same_status t = ground arith

-- A claim has the same outcome in both stores, if no lease has ended, and identifiers are compared
-- by their characters, and no other transaction has locked a row.
pub claim_next_task-Agrees :
    (w : String) (l now : ℕ) (s : EnterpriseStore) (d : Tables)
    → AreOnTime now d
    → E.claim_next_task w l now (with_tasks s d)
      ≡ as_claim s (claim_next_task by_characters unlocked w l now d)
unfolding E.claim_next_task claim_next_task E.requeue_expired_tasks requeue_expired_tasks
claim_next_task-Agrees w l now s d h =
    ap (λ v. claim_head (queued_tasks (record s { tasks = v })) w l now (record s { tasks = v }))
      (requeue_view-same now d h)
    ∙ ap (λ q. claim_head q w l now (with_tasks s d)) (queued-Agree s d)
    ∙ claim_first-Agrees (candidates by_characters unlocked d) w l now s d
    ∙ ap (λ e. as_claim s (claim_first (candidates by_characters unlocked e) w l now e))
        (sym (requeue-same now d h))
