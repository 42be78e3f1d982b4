-- ===== src/Enterprise/Turns/Laws.antt =====
-- What the machine of one task never does, over any number of steps, and so no run of the store.
use crosscomply_agent.Prelude.{
  ℕ, ◌≤◌, ◌<◌, String, Bool, true, false, not, ◌&&◌, ◌||◌, ◌≡◌, ◌∙◌, ap, some, get, err,
  value_error, arith,
}
use crosscomply_agent.Workflow.{ReviewPayload, review_requires_retry}
use crosscomply_agent.Enterprise.Records.{
  TaskStatus, AgentState, ReviewTask, EnterpriseStore, HashInput,
}
use crosscomply_agent.Enterprise.Tasks.{is_succeeded, claimed, requeue_task}
use crosscomply_agent.Enterprise.Outcomes.{
  fail_task, checkpoint_agent, pause_task, complete_task, superseded, failed_with, checkpointed,
  paused, recorded, resumed, retried, completed, is_restart, result_of,
}
use crosscomply_agent.Enterprise.Events.{Run}
use crosscomply_agent.Enterprise.Validity.{IsValid}
use crosscomply_agent.Enterprise.Turns.{
  Turn, Turns, rest, more, claims, expires, fails, checkpoints, pauses, answers, resumes, retries,
  completes, supersedes,
}
use crosscomply_agent.Enterprise.Turns.Happen.{Run-HasTurned}

-- No step takes an attempt back.
Turn-attempt_count : {t u : ReviewTask} → Turn t u → t.attempt_count ≤ u.attempt_count
Turn-attempt_count (claims w l now q e) = unfold claimed in ground (arith, e)
Turn-attempt_count (expires now e) = unfold requeue_task in ground (arith, e)
Turn-attempt_count (fails n c m x now r b e) = unfold failed_with in ground (arith, e)
Turn-attempt_count (checkpoints st x now r b e) = unfold checkpointed in ground (arith, e)
Turn-attempt_count (pauses st x now r b e) = unfold paused in ground (arith, e)
Turn-attempt_count (answers st now r e) = unfold recorded in ground (arith, e)
Turn-attempt_count (resumes st now r e) = unfold resumed in ground (arith, e)
Turn-attempt_count (retries now r e) = unfold retried in ground (arith, e)
Turn-attempt_count (completes r n x now i b e) = unfold completed in ground (arith, e)
Turn-attempt_count (supersedes c now e) = unfold superseded in ground (arith, e)

Turns-attempt_count : {t u : ReviewTask} → Turns t u → t.attempt_count ≤ u.attempt_count
Turns-attempt_count (rest e) = ground (arith, e)
Turns-attempt_count (more a b) = omega (arith, Turns-attempt_count a, Turn-attempt_count b)

-- What a worker reports of a task, under the attempt that it was given.
abbrev pub Refused : String → ℕ → EnterpriseStore → Type 0
Refused k n s =
    (now : ℕ)
    → ((r : ReviewPayload) (node : String)
        → complete_task k r node (some n) now s ≡ err value_error)
      × ((node c m : String) → fail_task k node c m (some n) now s ≡ err value_error)
      × ((st : AgentState) → checkpoint_agent k st (some n) now s ≡ err value_error)
      × ((st : AgentState) → pause_task k st (some n) now s ≡ err value_error)

Refused-of_later :
    (k : String) (n : ℕ) (s : EnterpriseStore) (u : ReviewTask)
    → get k s.tasks ≡ some u
    → n < u.attempt_count
    → Refused k n s
unfolding complete_task fail_task checkpoint_agent pause_task
Refused-of_later k n s u h l now = (
  λ r node. ground (arith, h),
  λ node c m. ground (arith, h),
  λ st. ground (arith, h),
  λ st. ground (arith, h),
)

-- A worker that lost its task cannot touch it again. Once a task of a valid store has gone beyond
-- the attempt `n`, then after any run from there every report that names the attempt `n`, be it
-- the result, a failure, a checkpoint or a pause, is refused and leaves the store as it is.
pub stale_reports-Refused :
    (canonical_hash : HashInput → String) {s u : EnterpriseStore} (k : String) (t : ReviewTask)
    (n : ℕ)
    → IsValid s
    → get k s.tasks ≡ some t
    → n < t.attempt_count
    → Run canonical_hash s u
    → Refused k n u
stale_reports-Refused hash {u} k t n v h l r =
    let ((w, g, a), _) = Run-HasTurned hash k t v r h in
    Refused-of_later k n u w g (omega (arith, Turns-attempt_count a))

-- A task that is closed: superseded, or finished with a review that nothing asks to run again.
abbrev pub is_superseded : TaskStatus → Bool
is_superseded TaskStatus.superseded = true
is_superseded _ = false

abbrev pub is_closed : ReviewTask → Bool
is_closed t =
    is_superseded t.status || is_succeeded t.status && not (review_requires_retry (result_of t))

Turn-closed : {t u : ReviewTask} → is_closed t ≡ true → Turn t u → u ≡ t
Turn-closed h (claims w l now q e) = absurd (ground arith)
Turn-closed h (expires now e) = e ∙ (unfold requeue_task in ground arith)
Turn-closed h (fails n c m x now r b e) = absurd (ground arith)
Turn-closed h (checkpoints st x now r b e) = absurd (ground arith)
Turn-closed h (pauses st x now r b e) = absurd (ground arith)
Turn-closed h (answers st now r e) = absurd (ground arith)
Turn-closed h (resumes st now r e) = absurd (ground arith)
Turn-closed h (retries now r e) = absurd (unfold is_restart in ground arith)
Turn-closed h (completes r n x now i b e) = absurd (ground arith)
Turn-closed h (supersedes c now e) = e ∙ (unfold superseded in ground arith)

Turns-closed : {t u : ReviewTask} → is_closed t ≡ true → Turns t u → u ≡ t
Turns-closed h (rest e) = e
Turns-closed h (more a b) = let e = Turns-closed h a in Turn-closed (ap is_closed e ∙ h) b ∙ e

-- A closed task is kept for ever: after any run from a valid store a superseded task, and one that
-- succeeded with a review that need not be run again, is the same record, its result included.
pub closed_task_is_kept :
    (canonical_hash : HashInput → String) {s u : EnterpriseStore} (k : String) (t : ReviewTask)
    → IsValid s
    → get k s.tasks ≡ some t
    → is_closed t ≡ true
    → Run canonical_hash s u
    → get k u.tasks ≡ some t
closed_task_is_kept hash k t v h c r =
    let ((w, g, a), _) = Run-HasTurned hash k t v r h in g ∙ ap some (Turns-closed c a)
