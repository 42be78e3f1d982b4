-- ===== src/Postgres/Updates.antt =====
-- What an UPDATE keeps of the rows of the queue (law_agent/review/enterprise_store.py).
use crosscomply_agent.Prelude.{
  String, Bool, true, Option-cases, Bool-cases, ◌≡◌, inl, inr, get, values, All, All-put, All-get,
  All-map_values, if◌then◌else◌,
}
use crosscomply_agent.Postgres.Rows.{TaskRow, PgTask, Tables}
use crosscomply_agent.Postgres.Reports.{update_one}
use crosscomply_agent.Postgres.Queue.{update_where}
use crosscomply_agent.Postgres.Events.{tables_after}

-- If the picked row gains what all are to have, and the others have it, all have it.
pub update_one-All :
    (P Q : PgTask → Type 0) (k : String) (test : TaskRow → Bool) (f : PgTask → PgTask) (d : Tables)
    → ((t : PgTask) → test t.row ≡ true → P t → Q (f t))
    → All P (values d)
    → All Q (values d)
    → All Q (values (tables_after d (update_one k test f d)))
update_one-All P Q k test f d keep h g = elim (Option-cases (get k d)) [
  | inl e ↦ rw (e, update_one, tables_after) g
  | inr (t, e) ↦ elim (Bool-cases (test t.row)) [
    | inl p ↦
        rw (e, p, update_one, tables_after) (All-put Q k (f t) d (keep t p (All-get P k d t h e)) g)
    | inr p ↦ rw (e, p, update_one, tables_after) g
  ]
]

pub update_where-All :
    (P : PgTask → Type 0) (test : TaskRow → Bool) (f : PgTask → PgTask) (d : Tables)
    → ((t : PgTask) → P t → P (f t))
    → All P (values d)
    → All P (values (update_where test f d))
update_where-All P test f d keep h =
    All-map_values P (λ t. if test t.row then f t else t) d
      (λ t c. elim (Bool-cases (test t.row)) [ inl e ↦ rw e (keep t c) | inr e ↦ rw e c ]) h
