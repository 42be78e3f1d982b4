-- ===== src/Remediation/Kept.antt =====
-- What events keep of a submission that was reviewed (law_agent/review/case_store.py).
use mathlib.Core.Path.{subst}
use crosscomply_agent.Prelude.{
  item-get, ℕ, String, Bool, true, false, not, Option, none, some, List, [], ◌∷◌, ◌≡◌, refl, sym,
  ap, ◌∙◌, inl, inr, Dict, get, put, get-put, eq_iff, ◌==◌, item, ok, raise_if, arith, value_error,
  Bool-cases, if◌then◌else◌, find, values, any, is_none,
}
use crosscomply_agent.Remediation.Records.{
  RemediationStatus, RemediationTask, RemediationPlan, RemediationSubmission, RemediationStore,
  TaskData,
}
use crosscomply_agent.Remediation.Tasks.{
  create_remediation_task, update_remediation_task, start_remediation_task, moved, put_task,
  text_or, get_or, new_remediation_task, is_task_in_progress,
}
use crosscomply_agent.Remediation.Plans.{
  create_remediation_plan, activate_remediation_plan, cancel_remediation_plan,
  sync_guided_remediation_plan, add_tasks, sync_tasks, sync_task, plan_for, keys_of,
}
use crosscomply_agent.Remediation.Submissions.{
  create_remediation_submission, apply_agent_remediation_assessment, review_remediation_submission,
  add_remediation_event, assess, assess_pending, assessed, reviewed, settle_plan, settle_if,
  is_not_reviewable, is_pending_review,
}
use crosscomply_agent.Remediation.Events.{
  Event, happen, remediation_after, remediation_after_bind, Run, start, next,
}

-- A new submission draws an identifier that no submission has.
abbrev pub IsNewSubmission : Event → RemediationStore → Type 0
IsNewSubmission (Event.submit _ _ _ _ _ id) s = get id s.submissions ≡ none
IsNewSubmission _ s = Unit

unfoldable pub AreNewSubmissions : {s u : RemediationStore} → Run s u → Type 0
AreNewSubmissions start = Unit
AreNewSubmissions (next {t = t} r now e f eq) = AreNewSubmissions r × IsNewSubmission e t

-- Settling a plan changes no submission.
pub settle_if-submissions :
    (b : Bool) (p : String) (now : ℕ) (s s' : RemediationStore)
    → settle_if b p now s ≡ ok s'
    → s'.submissions ≡ s.submissions
unfolding settle_plan
settle_if-submissions true p now s s' h = ground (arith, h)
settle_if-submissions false p now s s' h = ground (arith, h)

passed : (b : Bool) {u : Unit {0}} → raise_if b value_error ≡ ok u → b ≡ false
passed true h = cc
passed false h = refl

add_tasks-submissions :
    (p c : String) (ts : List (TaskData × String)) (now : ℕ) (s : RemediationStore)
    → (add_tasks p c ts now s).submissions ≡ s.submissions
add_tasks-submissions p c [] now s = refl
add_tasks-submissions p c ((g, id) ∷ ts) now s =
    add_tasks-submissions p c ts now (put_task (new_remediation_task p c g id now) s)

sync_task-submissions :
    (o : Option RemediationTask) (i p c : String) (g : TaskData) (id : String) (now : ℕ)
    (s : RemediationStore)
    → (sync_task o i p c g id now s).submissions ≡ s.submissions
sync_task-submissions none i p c g id now s = refl
sync_task-submissions (some t) i p c g id now s = refl

sync_tasks-submissions :
    (ex : Dict String) (p c : String) (ts : List (TaskData × String)) (now : ℕ)
    (s : RemediationStore)
    → (sync_tasks ex p c ts now s).submissions ≡ s.submissions
sync_tasks-submissions ex p c [] now s = refl
sync_tasks-submissions ex p c ((g, id) ∷ ts) now s =
    let i = get_or (get (text_or g.source_key "") ex) "" in
    let o = if is_none (get (text_or g.source_key "") ex) then none else get i s.tasks in
    sync_tasks-submissions ex p c ts now (sync_task o i p c g id now s)
    ∙ sync_task-submissions o i p c g id now s

plan_for-submissions :
    (o : Option RemediationPlan) (c by : String) (r : Option String) (id : String) (now : ℕ)
    (s : RemediationStore)
    → (plan_for o c by r id now s).1.submissions ≡ s.submissions
unfolding plan_for
plan_for-submissions (some p) c by r id now s = refl
plan_for-submissions none c by r id now s = refl

module _ (i : String) (x : RemediationSubmission) (closed : is_not_reviewable (some x) ≡ true) where
  -- The submission is stored as it was.
  abbrev pub Stands : RemediationStore → Type 0
  Stands s = get i s.submissions ≡ some x

  -- The methods that leave the submissions.
  kept : (s s' : RemediationStore) → s'.submissions ≡ s.submissions → Stands s → Stands s'
  kept s s' e h = ap (get i) e ∙ h

  put-Stands :
      (j : String) (y : RemediationSubmission) (s s' : RemediationStore)
      → (j == i) ≡ false
      → s'.submissions ≡ put j y s.submissions
      → Stands s
      → Stands s'
  put-Stands j y s s' other e h = ap (get i) e ∙ get-put j i y s.submissions ∙ rw other h

  -- A submission that may be reviewed is another one.
  other_than :
      (j : String) (y : RemediationSubmission) (s : RemediationStore)
      → get j s.submissions ≡ some y
      → is_not_reviewable (some y) ≡ false
      → Stands s
      → (j == i) ≡ false
  other_than j y s g o h = elim (Bool-cases (j == i)) [
    | inr e ↦ e
    | inl e ↦
        let same : some y ≡ some x = sym g ∙ ap (λ k. get k s.submissions) ((eq_iff j i).0 e) ∙ h in
        absurd (ground (arith, same, o, closed))
  ]

  plan-Stands :
      (c by : String) (r : Option String) (ts : List (TaskData × String)) (id : String) (now : ℕ)
      (s : RemediationStore)
      → Stands s
      → Stands (remediation_after s (create_remediation_plan c by r ts id now s))
  unfolding create_remediation_plan
  plan-Stands c by r ts id now s h =
      remediation_after_bind Stands s
        (raise_if (any (λ p. p.case_id == c) (values s.plans)) value_error) _ h
        λ _ _. ap (get i) (add_tasks-submissions id c ts now _) ∙ h

  sync-Stands :
      (c by : String) (r : Option String) (ts : List (TaskData × String)) (id : String) (now : ℕ)
      (s : RemediationStore)
      → Stands s
      → Stands (sync_guided_remediation_plan c by r ts id now s).1
  unfolding sync_guided_remediation_plan
  sync-Stands c by r ts id now s h =
      let x = plan_for (find (λ p. p.case_id == c) (values s.plans)) c by r id now s in
      ap (get i) (
        sync_tasks-submissions (keys_of x.0.id x.1.tasks []) x.0.id c ts now x.1
        ∙ plan_for-submissions (find (λ p. p.case_id == c) (values s.plans)) c by r id now s)
      ∙ h

  assess_pending-Stands :
      (b : Bool) (j : String) (r : Bool) (now : ℕ) (y : RemediationSubmission)
      (s : RemediationStore)
      → is_pending_review y.status ≡ b
      → get j s.submissions ≡ some y
      → Stands s
      → Stands (remediation_after s (assess_pending b j r now y s))
  unfolding assess
  assess_pending-Stands false j r now y s e g h = h
  assess_pending-Stands true j r now y s e g h =
      let other = other_than j y s g (ground (arith, e)) h in
      remediation_after_bind Stands s (item y.task_id s.tasks) _ h λ t _.
        remediation_after_bind Stands s
          (settle_plan t.plan_id now (record s {
            submissions = put j (record y { status = (assessed r t y).0 }) s.submissions;
            tasks = put y.task_id (moved (assessed r t y).1 now t) s.tasks;
          }))
          _ h
          λ s' f.
            put-Stands j (record y { status = (assessed r t y).0 }) s s' other
              (settle_if-submissions true t.plan_id now _ s' f) h

  review-Stands :
      (j d by : String) (n : Option String) (now : ℕ) (s : RemediationStore)
      → Stands s
      → Stands (remediation_after s (review_remediation_submission j d by n now s))
  unfolding review_remediation_submission
  review-Stands j d by n now s h =
      remediation_after_bind Stands s
        (raise_if (is_not_reviewable (get j s.submissions)) value_error) _ h
        λ _ open_. remediation_after_bind Stands s (item j s.submissions) _ h λ y found.
          let g = item-get j s.submissions y found in
          let reviewable : is_not_reviewable (some y) ≡ false =
            ap is_not_reviewable (sym g) ∙ passed (is_not_reviewable (get j s.submissions)) open_ in
          let other = other_than j y s g reviewable h in
          remediation_after_bind Stands s (item y.task_id s.tasks) _ h λ t _.
            remediation_after_bind Stands s
              (settle_if (d == "accepted") t.plan_id now (record s {
                submissions = put j (reviewed (d == "accepted") by n now y) s.submissions;
                tasks =
                    put y.task_id
                      (moved
                        (if d == "accepted"
                          then RemediationStatus.completed
                          else RemediationStatus.in_progress)
                        now t)
                      s.tasks;
              }))
              _ h
              λ s' f.
                put-Stands j (reviewed (d == "accepted") by n now y) s s' other
                  (settle_if-submissions (d == "accepted") t.plan_id now _ s' f) h

  submit-Stands :
      (k by n : String) (c : Option String) (es : List (String × String)) (id : String) (now : ℕ)
      (s : RemediationStore)
      → get id s.submissions ≡ none
      → Stands s
      → Stands (remediation_after s (create_remediation_submission k by n c es id now s))
  unfolding create_remediation_submission
  submit-Stands k by n c es id now s new h =
      let other : (id == i) ≡ false = ground (arith, eq_iff id i, new, h) in
      remediation_after_bind Stands s (item k s.tasks) _ h λ t _.
        remediation_after_bind Stands s (raise_if (not (is_task_in_progress t.status)) value_error)
          _ h λ _ _. get-put id i _ s.submissions ∙ rw other h

  happen-Stands :
      (now : ℕ) (e : Event) (s : RemediationStore)
      → IsNewSubmission e s
      → Stands s
      → Stands (happen now e s)
  unfolding happen
  happen-Stands now (Event.plan c by r ts id) s f h = plan-Stands c by r ts id now s h
  happen-Stands now (Event.activate k e) s f h =
      kept s (remediation_after s (activate_remediation_plan k e now s))
        (unfold activate_remediation_plan in ground arith) h
  happen-Stands now (Event.cancel k) s f h =
      kept s (remediation_after s (cancel_remediation_plan k now s))
        (unfold cancel_remediation_plan in ground arith) h
  happen-Stands now (Event.add p c g id) s f h =
      kept s (remediation_after s (create_remediation_task p c g id now s))
        (unfold create_remediation_task in ground arith) h
  happen-Stands now (Event.sync c by r ts id) s f h = sync-Stands c by r ts id now s h
  happen-Stands now (Event.assess k a) s f h =
      unfold apply_agent_remediation_assessment in
      remediation_after_bind Stands s (item k s.submissions) _ h λ y found.
        assess_pending-Stands (is_pending_review y.status) k (a == "resolved") now y s refl
          (item-get k s.submissions y found) h
  happen-Stands now (Event.update k u e) s f h =
      kept s (remediation_after s (update_remediation_task k u e now s))
        (unfold update_remediation_task in ground arith) h
  happen-Stands now (Event.begin k) s f h =
      kept s (remediation_after s (start_remediation_task k now s))
        (unfold start_remediation_task in ground arith) h
  happen-Stands now (Event.submit k by n c es id) s f h = submit-Stands k by n c es id now s f h
  happen-Stands now (Event.review k d by n) s f h = review-Stands k d by n now s h
  happen-Stands now (Event.record_event p a t b k id) s f h = unfold add_remediation_event in h

  pub Run-Stands :
      {s u : RemediationStore} (r : Run s u) → AreNewSubmissions r → Stands s → Stands u
  unfolding AreNewSubmissions
  Run-Stands start f h = h
  Run-Stands (next {t = t} r now e f eq) g h =
      subst Stands (sym eq) (happen-Stands now e t g.1 (Run-Stands r g.0 h))
