-- ===== src/Postgres/Cap.antt =====
-- PostgreSQL starts a task a bounded number of times (law_agent/review/enterprise_store.py).
use crosscomply_agent.Prelude.{
  ℕ, suc, ◌+◌, ◌≤◌, ◌<◌, String, true, false, [], ◌∷◌, ◌≡◌, refl, sym, ap, ◌∙◌, arith, values, All,
}
use crosscomply_agent.Enterprise.Tasks.{is_queued}
use crosscomply_agent.Postgres.Rows.{PgTask, Tables}
use crosscomply_agent.Postgres.Queue.{max_task_auto_attempts, lease_lost_row, claimed_row}

-- With `n` releases so far, a task was started at most `n` times more than the limit, and a task
-- that is queued can be started once more.
pub record IsCapped (n : ℕ) (t : PgTask) : Type 0 where
  pub within : t.row.attempt_count ≤ max_task_auto_attempts + n
  pub spare : is_queued t.row.status ≡ true → t.row.attempt_count < max_task_auto_attempts + n

abbrev pub AreCapped : ℕ → Tables → Type 0
AreCapped n d = All (IsCapped n) (values d)

-- A change that leaves the count, and does not queue the task.
pub settled-IsCapped :
    (n : ℕ) (t u : PgTask)
    → u.row.attempt_count ≡ t.row.attempt_count
    → is_queued u.row.status ≡ false
    → IsCapped n t
    → IsCapped n u
settled-IsCapped n t u e q c = record {
  within = let w = c.within in omega (arith, e, w);
  spare = λ h. cc;
}

pub kept-IsCapped :
    (n : ℕ) (t u : PgTask)
    → u.row.attempt_count ≡ t.row.attempt_count
    → u.row.status ≡ t.row.status
    → IsCapped n t
    → IsCapped n u
kept-IsCapped n t u e q c = record {
  within = let w = c.within in omega (arith, e, w);
  spare = λ h. let s = c.spare (ap is_queued (sym q) ∙ h) in omega (arith, e, s);
}

-- A release may queue any task.
pub released-IsCapped :
    (n : ℕ) (t u : PgTask)
    → u.row.attempt_count ≡ t.row.attempt_count
    → IsCapped n t
    → IsCapped (suc n) u
released-IsCapped n t u e c = record {
  within = let w = c.within in omega (arith, e, w);
  spare = λ h. let w = c.within in omega (arith, e, w);
}

pub AreCapped-suc : (n : ℕ) (d : Tables) → AreCapped n d → AreCapped (suc n) d
AreCapped-suc n [] h = tt
AreCapped-suc n ((k, t) ∷ d) h = (released-IsCapped n t t refl h.0, AreCapped-suc n d h.1)

-- A taken task has room for one more start, or is not queued.
pub lease_lost_row-IsCapped :
    (n now : ℕ) (t : PgTask) → IsCapped n t → IsCapped n (lease_lost_row now t)
unfolding lease_lost_row
lease_lost_row-IsCapped n now t c = record { within = c.within; spare = λ h. ground arith }

pub claimed_row-IsCapped :
    (n : ℕ) (w : String) (l now : ℕ) (t : PgTask)
    → is_queued t.row.status ≡ true
    → IsCapped n t
    → IsCapped n (claimed_row w l now t)
unfolding claimed_row
claimed_row-IsCapped n w l now t q c = record {
  within = let s = c.spare q in omega (arith, s);
  spare = λ h. cc;
}
