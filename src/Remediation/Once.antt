-- ===== src/Remediation/Once.antt =====
-- A submission is reviewed once (law_agent/review/case_store.py).
use crosscomply_agent.Prelude.{
  ℕ, String, Bool, true, false, Option, some, ◌≡◌, refl, sym, ap, ◌∙◌, get, put, get-put_self, ◌==◌,
  item, ok, err, >>=-eq-ok, raise_if, arith, value_error, if◌then◌else◌,
}
use crosscomply_agent.Remediation.Records.{
  RemediationStatus, RemediationSubmission, RemediationStore, SubmissionView,
}
use crosscomply_agent.Remediation.Tasks.{moved}
use crosscomply_agent.Remediation.Submissions.{
  review_remediation_submission, reviewed, settle_if, is_not_reviewable,
}
use crosscomply_agent.Remediation.Events.{Run}
use crosscomply_agent.Remediation.Kept.{AreNewSubmissions, settle_if-submissions, Run-Stands}

closed_by_review :
    (b : Bool) (by : String) (n : Option String) (now : ℕ) (x : RemediationSubmission)
    → is_not_reviewable (some (reviewed b by n now x)) ≡ true
unfolding reviewed
closed_by_review true by n now x = refl
closed_by_review false by n now x = refl

-- What a review that was taken leaves of the submission.
review-stored :
    (i d by : String) (n : Option String) (now : ℕ) (s s' : RemediationStore) (v : SubmissionView)
    → review_remediation_submission i d by n now s ≡ ok (v, s')
    → (x : RemediationSubmission) × (get i s'.submissions ≡ some x)
      × (is_not_reviewable (some x) ≡ true)
unfolding review_remediation_submission
review-stored i d by n now s s' v h =
    let (_, open_, h1) =
      >>=-eq-ok (raise_if (is_not_reviewable (get i s.submissions)) value_error) _ h in
    let (x, found, h2) = >>=-eq-ok (item i s.submissions) _ h1 in
    let (t, has, h3) = >>=-eq-ok (item x.task_id s.tasks) _ h2 in
    let (s2, settled, h4) =
      >>=-eq-ok
        (settle_if (d == "accepted") t.plan_id now (record s {
          submissions = put i (reviewed (d == "accepted") by n now x) s.submissions;
          tasks =
              put x.task_id
                (moved
                  (if d == "accepted"
                    then RemediationStatus.completed
                    else RemediationStatus.in_progress)
                  now t)
                s.tasks;
        }))
        _ h3 in
    let same : s2 ≡ s' = ground (arith, h4) in
    (
      reviewed (d == "accepted") by n now x,
      ap (λ y. get i y.submissions) (sym same)
          ∙ ap (get i) (settle_if-submissions (d == "accepted") t.plan_id now _ s2 settled)
          ∙ get-put_self i _ s.submissions,
      closed_by_review (d == "accepted") by n now x,
    )

-- A submission is reviewed once: after a review that was taken and any events, in any order and at
-- any times, with new identifiers for new submissions, the submission is stored as the review left
-- it, and every further review of it is refused, whatever it decides and whenever it comes.
pub review_remediation_submission_once :
    {u : RemediationStore} (s s' : RemediationStore) (i d by : String) (n : Option String) (now : ℕ)
    (v : SubmissionView)
    → review_remediation_submission i d by n now s ≡ ok (v, s')
    → (r : Run s' u) → AreNewSubmissions r
    → (get i u.submissions ≡ get i s'.submissions)
      × ((d' by' : String) (n' : Option String) (now' : ℕ)
          → review_remediation_submission i d' by' n' now' u ≡ err value_error)
unfolding review_remediation_submission
review_remediation_submission_once s s' i d by n now v h r new =
    let (x, stored, closed) = review-stored i d by n now s s' v h in
    let after = Run-Stands i x closed r new stored in
    (after ∙ sym stored, λ d' by' n' now'. ground (arith, after, closed))
