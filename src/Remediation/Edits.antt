-- ===== src/Remediation/Edits.antt =====
-- Optimistic updates of remediation tasks (law_agent/review/case_store.py).
use mathlib.Core.Path.{subst}
use crosscomply_agent.Prelude.{
  ℕ, String, some, List, [], ◌∷◌, ◌≡◌, refl, sym, ap, ◌∙◌, ◌⊎◌, inl, inr, get, item, err, arith,
  value_error, eq_iff, ◌==◌,
}
use crosscomply_agent.Remediation.Records.{TaskData, RemediationTask, RemediationStore}
use crosscomply_agent.Remediation.Tasks.{TaskUpdate, update_remediation_task, text_or}
use crosscomply_agent.Remediation.Submissions.{
  apply_agent_remediation_assessment, is_pending_review, add_remediation_event,
}
use crosscomply_agent.Remediation.Events.{
  Event, happen, remediation_after_bind, IsFresh, AreNew, Run, start, next,
}
use crosscomply_agent.Remediation.Versions.{IsLater, Differ}
use crosscomply_agent.Remediation.Versions.Methods.{
  plan-Holds, activate-tasks, cancel-tasks, add-Holds, sync-Holds, assess-Holds, update-Holds,
  begin-Holds, submit-Holds, review-Holds,
}

module _ (k : String) (t : RemediationTask) where
  new_differs :
      (ts : List (TaskData × String)) (s : RemediationStore)
      → AreNew ts s
      → IsLater k t s.tasks
      → Differ k t ts
  new_differs [] s f h = tt
  new_differs (g ∷ ts) s f h =
      (ground (arith, eq_iff (text_or g.0.id g.1) k, f.0, h.1), new_differs ts s f.1 h)

  happen-IsLater :
      (now : ℕ) (e : Event) (s : RemediationStore)
      → IsFresh e s
      → IsLater k t s.tasks
      → IsLater k t (happen now e s).tasks
  unfolding happen
  happen-IsLater now (Event.plan c by r ts id) s f h =
      plan-Holds k t c by r ts id now s (new_differs ts s f h) h
  happen-IsLater now (Event.activate i e) s f h =
      subst (IsLater k t) (sym (activate-tasks k t i e now s)) h
  happen-IsLater now (Event.cancel i) s f h = subst (IsLater k t) (sym (cancel-tasks k t i now s)) h
  happen-IsLater now (Event.add p c g id) s f h =
      add-Holds k t p c g id now s (new_differs ((g, id) ∷ []) s (f, tt) h).0 h
  happen-IsLater now (Event.sync c by r ts id) s f h =
      sync-Holds k t c by r ts id now s (new_differs ts s f h) h
  happen-IsLater now (Event.assess i a) s f h =
      unfold apply_agent_remediation_assessment in
      remediation_after_bind (λ x. IsLater k t x.tasks) s (item i s.submissions) _ h
        λ x _. assess-Holds k t (is_pending_review x.status) i (a == "resolved") now x s h
  happen-IsLater now (Event.update i u e) s f h = update-Holds k t i u e now s h
  happen-IsLater now (Event.begin i) s f h = begin-Holds k t i now s h
  happen-IsLater now (Event.submit i by n c es id) s f h = submit-Holds k t i by n c es id now s h
  happen-IsLater now (Event.review i d by n) s f h = review-Holds k t i d by n now s h
  happen-IsLater now (Event.record_event p a x b i id) s f h = unfold add_remediation_event in h

  Run-IsLater : {s u : RemediationStore} → IsLater k t s.tasks → Run s u → IsLater k t u.tasks
  Run-IsLater h start = h
  Run-IsLater h (next {t = v} r now e f eq) =
      subst (λ x. IsLater k t x.tasks) (sym eq) (happen-IsLater now e v f (Run-IsLater h r))

-- No edit is lost. After any events, in any order, a remediation task is the very record that an
-- editor saw, or every update under the version that the editor saw is refused, whatever it says.
pub stale_edit_refused :
    {s u : RemediationStore} (k : String) (t : RemediationTask)
    → get k s.tasks ≡ some t
    → Run s u
    → (get k u.tasks ≡ some t)
      ⊎ ((e : TaskUpdate) (now : ℕ)
          → update_remediation_task k e (some t.version) now u ≡ err value_error)
unfolding update_remediation_task
stale_edit_refused {u} k t g r =
    let (v, h, c) = Run-IsLater k t (t, g, inl refl) r in
    elim c [ inl e ↦ inl (h ∙ ap some e) | inr l ↦ inr (λ e now. ground (arith, h)) ]
