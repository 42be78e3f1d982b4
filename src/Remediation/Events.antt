-- ===== src/Remediation/Events.antt =====
-- One event for each method of law_agent/review/case_store.py that changes the remediation of a
-- case, and the runs in which they follow one another in any order.
use crosscomply_agent.Prelude.{
  ℕ, String, Option, none, List, ◌≡◌, refl, get, Result, ok, err, ◌>>=◌, All,
}
use crosscomply_agent.Remediation.Records.{RemediationStore, TaskData}
use crosscomply_agent.Remediation.Tasks.{
  TaskUpdate, create_remediation_task, update_remediation_task, start_remediation_task, text_or,
}
use crosscomply_agent.Remediation.Plans.{
  create_remediation_plan, activate_remediation_plan, cancel_remediation_plan,
  sync_guided_remediation_plan,
}
use crosscomply_agent.Remediation.Submissions.{
  create_remediation_submission, apply_agent_remediation_assessment, review_remediation_submission,
  add_remediation_event,
}

pub data Event : Type 0 where
  plan :
      (case_id created_by : String)
      → Option String
      → List (TaskData × String)
      → (new_id : String) → Event
  activate : (identifier : String) → Option ℕ → Event
  cancel : (identifier : String) → Event
  add : (plan_id case_id : String) → TaskData → (new_id : String) → Event
  sync :
      (case_id created_by : String)
      → Option String
      → List (TaskData × String)
      → (new_id : String) → Event
  assess : (identifier assessment_status : String) → Event
  update : (identifier : String) → TaskUpdate → Option ℕ → Event
  begin : (identifier : String) → Event
  submit :
      (task_id submitted_by note : String)
      → Option String
      → List (String × String)
      → (new_id : String) → Event
  review : (identifier decision reviewed_by : String) → Option String → Event
  record_event :
      (plan_id actor_id event_type payload : String) → Option String → (new_id : String) → Event

-- A method that raises leaves the store as it was.
abbrev pub remediation_after {ℓ} :
    {A : Type ℓ} → RemediationStore → Result (A × RemediationStore) → RemediationStore
remediation_after s (ok (a, t)) = t
remediation_after s (err e) = s

pub remediation_after_bind {ℓ κ ℓ'} :
    {A : Type ℓ} {B : Type κ} (P : RemediationStore → Type ℓ') (s : RemediationStore) (m : Result A)
    (f : A → Result (B × RemediationStore))
    → P s
    → ((a : A) → m ≡ ok a → P (remediation_after s (f a)))
    → P (remediation_after s (m >>= f))
remediation_after_bind P s (ok a) f h k = k a refl
remediation_after_bind P s (err e) f h k = h

unfoldable pub happen : ℕ → Event → RemediationStore → RemediationStore
happen now (plan c by r ts id) s = remediation_after s (create_remediation_plan c by r ts id now s)
happen now (activate k e) s = remediation_after s (activate_remediation_plan k e now s)
happen now (cancel k) s = remediation_after s (cancel_remediation_plan k now s)
happen now (add p c g id) s = remediation_after s (create_remediation_task p c g id now s)
happen now (sync c by r ts id) s = (sync_guided_remediation_plan c by r ts id now s).1
happen now (assess k a) s = remediation_after s (apply_agent_remediation_assessment k a now s)
happen now (update k u e) s = remediation_after s (update_remediation_task k u e now s)
happen now (begin k) s = remediation_after s (start_remediation_task k now s)
happen now (submit k by n c es id) s =
    remediation_after s (create_remediation_submission k by n c es id now s)
happen now (review k d by n) s = remediation_after s (review_remediation_submission k d by n now s)
happen now (record_event p a t b k id) s = (add_remediation_event p a t b k id now s).1

-- The identifiers of the tasks that are added are those of no task.
abbrev pub AreNew : List (TaskData × String) → RemediationStore → Type 0
AreNew ts s = All (λ g. get (text_or g.0.id g.1) s.tasks ≡ none) ts

abbrev pub IsFresh : Event → RemediationStore → Type 0
IsFresh (plan _ _ _ ts _) s = AreNew ts s
IsFresh (add _ _ g id) s = get (text_or g.id id) s.tasks ≡ none
IsFresh (sync _ _ _ ts _) s = AreNew ts s
IsFresh _ s = Unit

-- The store `t` is reached from `s` by events at any times, each with fresh identifiers.
pub data Run (s : RemediationStore) : RemediationStore → Type 0 where
  start : Run s s
  next :
      {t u : RemediationStore}
      → Run s t
      → (now : ℕ) (e : Event) → IsFresh e t
      → u ≡ happen now e t
      → Run s u
