-- ===== src/Remediation/Reviews.antt =====
-- Reviews of submissions by people and by the agent (law_agent/review/case_store.py).
use crosscomply_agent.Prelude.{
  item-get, ℕ, String, Bool, true, false, some, ◌≡◌, refl, sym, ap, ◌∙◌, inl, inr, get, put,
  get-put, eq_iff, ◌==◌, item, arith, Bool-cases,
}
use crosscomply_agent.Remediation.Records.{
  RemediationStatus, RemediationTask, RemediationSubmission, RemediationStore,
}
use crosscomply_agent.Remediation.Tasks.{is_fact_confirmation, is_task_completed, moved}
use crosscomply_agent.Remediation.Submissions.{
  apply_agent_remediation_assessment, assess, assess_pending, assessed, settle_plan,
  is_pending_review,
}
use crosscomply_agent.Remediation.Events.{remediation_after, remediation_after_bind}
use crosscomply_agent.Remediation.Versions.Methods.{settle_if-tasks}

abbrev pub StaysOpen : String → RemediationStore → Type 0
StaysOpen j s =
    (t : RemediationTask) × (get j s.tasks ≡ some t) × (is_task_completed t.status ≡ false)

assessed-open :
    (r : Bool) (t : RemediationTask) (x : RemediationSubmission)
    → is_fact_confirmation t.task_kind ≡ false
    → is_task_completed (assessed r t x).1 ≡ false
unfolding assessed
assessed-open r t x h = ground (arith, h)

put-StaysOpen :
    (j : String) (t : RemediationTask) (k : String) (v : RemediationTask) (st : RemediationStatus)
    (now : ℕ) (s s' : RemediationStore)
    → get j s.tasks ≡ some t
    → is_task_completed t.status ≡ false
    → get k s.tasks ≡ some v
    → (v ≡ t → is_task_completed st ≡ false)
    → s'.tasks ≡ put k (moved st now v) s.tasks
    → StaysOpen j s'
unfolding moved
put-StaysOpen j t k v st now s s' g o f keep e = elim (Bool-cases (k == j)) [
  | inl same ↦
      let one : v ≡ t = cc (sym f ∙ ap (λ i. get i s.tasks) ((eq_iff k j).0 same) ∙ g) in
      (moved st now v, ap (get j) e ∙ get-put k j _ s.tasks ∙ rw same refl, keep one)
  | inr ne ↦ (t, ap (get j) e ∙ get-put k j _ s.tasks ∙ rw ne g, o)
]

assess_pending-StaysOpen :
    (b : Bool) (i : String) (r : Bool) (now : ℕ) (x : RemediationSubmission) (s : RemediationStore)
    (j : String) (t : RemediationTask)
    → get j s.tasks ≡ some t
    → is_task_completed t.status ≡ false
    → is_fact_confirmation t.task_kind ≡ false
    → StaysOpen j (remediation_after s (assess_pending b i r now x s))
unfolding assess
assess_pending-StaysOpen false i r now x s j t g o f = (t, g, o)
assess_pending-StaysOpen true i r now x s j t g o f =
    remediation_after_bind (StaysOpen j) s (item x.task_id s.tasks) _ (t, g, o)
      λ v found.
        remediation_after_bind (StaysOpen j) s
          (settle_plan v.plan_id now (record s {
            submissions = put i (record x { status = (assessed r v x).0 }) s.submissions;
            tasks = put x.task_id (moved (assessed r v x).1 now v) s.tasks;
          }))
          _ (t, g, o)
          λ s' e.
            put-StaysOpen j t x.task_id v (assessed r v x).1 now s s' g o
              (item-get x.task_id s.tasks v found)
              (λ one. assessed-open r v x (ap (λ y. is_fact_confirmation y.task_kind) one ∙ f))
              (settle_if-tasks true v.plan_id now _ s' e)

-- The agent completes only what confirms a fact. Its assessment, whatever it says, leaves a task
-- that confirms no fact, and is not completed, not completed: only a person accepts a control.
pub agent_completes_no_control :
    (i a : String) (now : ℕ) (s : RemediationStore) (j : String) (t : RemediationTask)
    → get j s.tasks ≡ some t
    → is_task_completed t.status ≡ false
    → is_fact_confirmation t.task_kind ≡ false
    → StaysOpen j (remediation_after s (apply_agent_remediation_assessment i a now s))
unfolding apply_agent_remediation_assessment
agent_completes_no_control i a now s j t g o f =
    remediation_after_bind (StaysOpen j) s (item i s.submissions) _ (t, g, o)
      λ x _.
        assess_pending-StaysOpen (is_pending_review x.status) i (a == "resolved") now x s j t g o f
