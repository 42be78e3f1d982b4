-- ===== src/Enterprise/Soundness.antt =====
-- A review task and the log of its attempts tell one story, and every change of a task keeps it so.
use crosscomply_agent.Prelude.{
  ℕ, true, false, ◌≡◌, refl, ◌∙◌, sym, Option, none, some, All, length, get_last?, update_last,
  get_last?-append, get_last?-update_last, length-append, arith, String, Bool-cases, inl, inr,
}
use crosscomply_agent.Workflow.{ReviewPayload}
use crosscomply_agent.Enterprise.Attempts.{
  IsNumbered, IsClosedBefore, HasEnd, IsOver, KeepsLog, KeepsLog-update_last, IsNumbered-append,
  IsClosedBefore-append, ended-append,
}
use crosscomply_agent.Enterprise.Records.{
  TaskStatus, AttemptStatus, AgentState, TaskAttempt, ReviewTask,
}
use crosscomply_agent.Enterprise.Tasks.{
  is_open, is_queued, is_running, is_waiting, lease_lost, is_expired, requeue_task, claimed,
}
use crosscomply_agent.Enterprise.Outcomes.{
  failed_with, checkpointed, paused, recorded, resumed, retried, completed, superseded, is_restart,
  is_outdated, supersede_attempt,
}

-- What a task's status says of its lease and of its last attempt.
abbrev pub StatusAgrees : TaskStatus → Option ℕ → Option TaskAttempt → Type 0
StatusAgrees TaskStatus.running (some lease) (some a) = a.status ≡ AttemptStatus.running
StatusAgrees TaskStatus.waiting_input none (some a) = a.status ≡ AttemptStatus.waiting_input
StatusAgrees TaskStatus.succeeded none (some a) = a.status ≡ AttemptStatus.succeeded
StatusAgrees TaskStatus.failed none (some a) = a.status ≡ AttemptStatus.failed
StatusAgrees TaskStatus.superseded none (some a) = a.status ≡ AttemptStatus.superseded
StatusAgrees TaskStatus.queued none (some a) = is_open a.status ≡ false
StatusAgrees TaskStatus.queued none none = Unit
StatusAgrees _ _ _ = ⊥

pub record IsSound (t : ReviewTask) : Type 0 where
  pub counted : t.attempt_count ≡ length t.attempts
  pub numbered : IsNumbered 1 t.attempts
  pub closed : IsClosedBefore t.attempts
  pub ended : All HasEnd t.attempts
  pub agrees : StatusAgrees t.status t.lease_expires_at (get_last? t.attempts)

-- The attempt that a running task is at.
pub running_last :
    (st : TaskStatus) (lease : Option ℕ) (o : Option TaskAttempt)
    → StatusAgrees st lease o
    → is_running st ≡ true
    → (a : TaskAttempt) × (o ≡ some a) × (a.status ≡ AttemptStatus.running)
running_last TaskStatus.running (some l) (some a) h r = (a, refl, h)
running_last TaskStatus.running none o h r = elim h [ ]
running_last TaskStatus.running (some l) none h r = elim h [ ]
running_last st l o h r = absurd (ground arith)

waiting_last :
    (st : TaskStatus) (lease : Option ℕ) (o : Option TaskAttempt)
    → StatusAgrees st lease o
    → is_waiting st ≡ true
    → (a : TaskAttempt) × (o ≡ some a) × (a.status ≡ AttemptStatus.waiting_input)
waiting_last TaskStatus.waiting_input none (some a) h r = (a, refl, h)
waiting_last TaskStatus.waiting_input (some l) o h r = elim h [ ]
waiting_last TaskStatus.waiting_input none none h r = elim h [ ]
waiting_last st l o h r = absurd (ground arith)

-- A task that is not running can wait in the queue: its last attempt is over.
not_running_over :
    (st : TaskStatus) (lease : Option ℕ) (o : Option TaskAttempt)
    → StatusAgrees st lease o
    → is_running st ≡ false
    → StatusAgrees TaskStatus.queued none o
not_running_over TaskStatus.queued none none h r = tt
not_running_over TaskStatus.queued none (some a) h r = h
not_running_over TaskStatus.waiting_input none (some a) h r = rw h
not_running_over TaskStatus.succeeded none (some a) h r = rw h
not_running_over TaskStatus.failed none (some a) h r = rw h
not_running_over TaskStatus.superseded none (some a) h r = rw h
not_running_over TaskStatus.running l o h r = absurd (ground arith)
not_running_over TaskStatus.queued (some l) o h r = elim h [ ]
not_running_over TaskStatus.waiting_input none none h r = elim h [ ]
not_running_over TaskStatus.succeeded none none h r = elim h [ ]
not_running_over TaskStatus.failed none none h r = elim h [ ]
not_running_over TaskStatus.superseded none none h r = elim h [ ]
not_running_over _ (some l) o h r = elim h [ ]

running_agrees :
    (st : TaskStatus) (lease : ℕ) (o : Option TaskAttempt) (a : TaskAttempt)
    → is_running st ≡ true
    → o ≡ some a
    → a.status ≡ AttemptStatus.running
    → StatusAgrees st (some lease) o
running_agrees TaskStatus.running lease o a r e live = rw e live
running_agrees st lease o a r e live = absurd (ground arith)

waiting_agrees :
    (st : TaskStatus) (lease : Option ℕ) (o : Option TaskAttempt)
    → StatusAgrees st lease o
    → is_waiting st ≡ true
    → StatusAgrees TaskStatus.queued lease o
waiting_agrees TaskStatus.waiting_input none (some a) h r = rw h
waiting_agrees TaskStatus.waiting_input (some l) o h r = elim h [ ]
waiting_agrees TaskStatus.waiting_input none none h r = elim h [ ]
waiting_agrees st l o h r = absurd (ground arith)

queued_agrees :
    (st : TaskStatus) (lease : Option ℕ) (o : Option TaskAttempt)
    → StatusAgrees st lease o
    → is_queued st ≡ true
    → StatusAgrees TaskStatus.queued none o
queued_agrees TaskStatus.queued none o h r = h
queued_agrees TaskStatus.queued (some l) o h r = elim h [ ]
queued_agrees st l o h r = absurd (ground arith)

queued-IsOver : (o : Option TaskAttempt) → StatusAgrees TaskStatus.queued none o → IsOver o
queued-IsOver none h = tt
queued-IsOver (some a) h = h

module _ (t : ReviewTask) (h : IsSound t) where
  -- A change of the task that gives its last attempt an end.
  ends_last :
      (f : TaskAttempt → TaskAttempt) (u : ReviewTask)
      → KeepsLog t.attempts (update_last f t.attempts)
      → u.attempts ≡ update_last f t.attempts
      → u.attempt_count ≡ t.attempt_count
      → StatusAgrees u.status u.lease_expires_at (get_last? (update_last f t.attempts))
      → IsSound u
  ends_last f u k e c agrees = record {
    counted = rw e (c ∙ h.counted ∙ sym k.same_length);
    numbered = rw e (k.numbered h.numbered);
    closed = rw e (k.closed h.closed);
    ended = rw e (k.ended h.ended);
    agrees = rw e agrees;
  }

  -- A change of the task that leaves the log of its attempts.
  leaves_log :
      (u : ReviewTask)
      → u.attempts ≡ t.attempts
      → u.attempt_count ≡ t.attempt_count
      → StatusAgrees u.status u.lease_expires_at (get_last? t.attempts)
      → IsSound u
  leaves_log u e c agrees = record {
    counted = rw e (c ∙ h.counted);
    numbered = rw e h.numbered;
    closed = rw e h.closed;
    ended = rw e h.ended;
    agrees = rw e agrees;
  }

  module _ (now : ℕ) where
    pub failed_with-IsSound :
        (node category message : String)
        → is_running t.status ≡ true
        → IsSound (failed_with node category message now t)
    unfolding failed_with
    failed_with-IsSound node category message r =
        let (a, last, live) = running_last t.status t.lease_expires_at _ h.agrees r in
        ends_last _ (failed_with node category message now t)
          (KeepsLog-update_last _ t.attempts (λ _. refl) (λ _ _. refl)) refl refl
          (rw (get_last?-update_last _ t.attempts a last) refl)

    pub completed-IsSound :
        (result : ReviewPayload) (node : String)
        → is_running t.status ≡ true
        → IsSound (completed result node now t)
    unfolding completed
    completed-IsSound result node r =
        let (a, last, live) = running_last t.status t.lease_expires_at _ h.agrees r in
        ends_last _ (completed result node now t)
          (KeepsLog-update_last _ t.attempts (λ _. refl) (λ _ _. refl)) refl refl
          (rw (get_last?-update_last _ t.attempts a last) refl)

    pub paused-IsSound :
        (state : AgentState) → is_running t.status ≡ true → IsSound (paused state now t)
    unfolding paused
    paused-IsSound state r =
        let (a, last, live) = running_last t.status t.lease_expires_at _ h.agrees r in
        ends_last _ (paused state now t)
          (KeepsLog-update_last _ t.attempts (λ _. refl) (λ _ _. refl)) refl refl
          (rw (get_last?-update_last _ t.attempts a last) refl)

    pub checkpointed-IsSound :
        (state : AgentState) → is_running t.status ≡ true → IsSound (checkpointed state now t)
    unfolding checkpointed
    checkpointed-IsSound state r =
        let (a, last, live) = running_last t.status t.lease_expires_at _ h.agrees r in
        leaves_log (checkpointed state now t) refl refl (running_agrees t.status _ _ a r last live)

    pub recorded-IsSound : (state : AgentState) → IsSound (recorded state now t)
    unfolding recorded
    recorded-IsSound state = leaves_log (recorded state now t) refl refl h.agrees

    pub resumed-IsSound :
        (state : AgentState) → is_waiting t.status ≡ true → IsSound (resumed state now t)
    unfolding resumed
    resumed-IsSound state r =
        leaves_log (resumed state now t) refl refl (waiting_agrees t.status _ _ h.agrees r)

    pub retried-IsSound : is_running t.status ≡ false → IsSound (retried now t)
    unfolding retried
    retried-IsSound r = elim (Bool-cases (is_restart t)) [
      | inl e ↦ rw e (leaves_log _ refl refl (not_running_over t.status _ _ h.agrees r))
      | inr e ↦ rw e (leaves_log _ refl refl (not_running_over t.status _ _ h.agrees r))
    ]

    pub superseded-IsSound : (case_id : String) → IsSound (superseded case_id now t)
    unfolding superseded
    superseded-IsSound case_id = elim (Bool-cases (is_outdated case_id t)) [
      | inl e ↦
          let (a, last, live) =
            waiting_last t.status t.lease_expires_at _ h.agrees (ground arith) in
          rw e (
            ends_last _ _
              (KeepsLog-update_last (supersede_attempt now) t.attempts (λ b. ground arith)
                (λ b k. ground arith))
              refl refl
              (rw (get_last?-update_last (supersede_attempt now) t.attempts a last) (rw live)))
      | inr e ↦ rw e h
    ]

    pub requeue_task-IsSound : IsSound (requeue_task now t)
    unfolding requeue_task
    requeue_task-IsSound = elim (Bool-cases (is_expired now t)) [
      | inl e ↦
          let (a, last, live) =
            running_last t.status t.lease_expires_at _ h.agrees (ground arith) in
          rw e (
            ends_last _ _
              (KeepsLog-update_last (lease_lost now) t.attempts (λ b. ground arith)
                (λ b k. ground arith))
              refl refl (rw (get_last?-update_last (lease_lost now) t.attempts a last) (rw live)))
      | inr e ↦ rw e h
    ]

    pub claimed-IsSound :
        (worker_id : String) (lease_seconds : ℕ)
        → is_queued t.status ≡ true
        → IsSound (claimed worker_id lease_seconds now t)
    unfolding claimed
    claimed-IsSound worker_id lease_seconds q =
        let over = queued_agrees t.status _ _ h.agrees q in
        record {
          counted = omega (arith, h.counted, length-append {0} t.attempts _);
          numbered = IsNumbered-append 1 t.attempts _ h.numbered (omega (arith, h.counted));
          closed = IsClosedBefore-append t.attempts _ h.closed (queued-IsOver _ over);
          ended = ended-append t.attempts _ h.ended refl;
          agrees = rw get_last?-append refl;
        }
