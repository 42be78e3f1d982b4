-- ===== src/Tests/Enterprise.antt =====
-- The store of review tasks on concrete inputs (law_agent/review/enterprise_store.py).
use crosscomply_agent.Prelude.{
  values, All, ◌<◌, ◌==◌, String, true, false, ◌≡◌, refl, none, some, [], ◌∷◌, get, ok, arith, ◌⊎◌,
  ◌≤◌,
}
use crosscomply_agent.Workflow.{
  ReviewPayload, review_requires_retry, review_has_missing_information,
  review_needs_source_verification, business_questions,
}
use crosscomply_agent.Workflow.Strip.{strip}
use crosscomply_agent.Enterprise.Records.{
  ParseStatus, TaskStatus, ReviewTask, EnterpriseStore, HashInput, empty_store, MaterialSnapshot,
}
use crosscomply_agent.Enterprise.Tasks.{
  new_task, requeue_task, requeue_expired_tasks, claimed, claim_head, claim_next_task, task_or_new,
  enqueue_review_task, is_active_of,
}
use crosscomply_agent.Enterprise.Outcomes.{
  failed_with, fail_task, checkpointed, checkpoint_agent, paused, pause_task, recorded,
  record_waiting_input, resumed, resume_task, is_restart, retried, retry_task, completed,
  complete_task, superseded, supersede_waiting_tasks,
}
use crosscomply_agent.Enterprise.Materials.{
  MaterialUpload, create_material_version, versions_of, reject_multiple_versions,
  create_material_snapshot, create_intake_snapshot,
}
use crosscomply_agent.Enterprise.Events.{Event, happen, Run, start, next}
use crosscomply_agent.Enterprise.Validity.{IsValid}
use crosscomply_agent.Enterprise.Invariant.{Run-IsValid}
use crosscomply_agent.Enterprise.Turns.Laws.{Refused, stale_reports-Refused, closed_task_is_kept}
use crosscomply_agent.Enterprise.Queue.{ClaimEnds, claim_next_task_lem}
use crosscomply_agent.Enterprise.Leases.{LeaseEnded, requeue_expired_tasks_lem}
use crosscomply_agent.Enterprise.Idempotence.{enqueue_review_task_idem}
use crosscomply_agent.Enterprise.OneActive.{active_count, happen-active}
use crosscomply_agent.Enterprise.Versions.{AreNumbered, new_version_is_latest}
use crosscomply_agent.Enterprise.Retry.{retry_task_beside_active}

unfoldable pub store : Unit {0}
unfolding happen create_material_version versions_of reject_multiple_versions
    create_material_snapshot create_intake_snapshot task_or_new enqueue_review_task requeue_task
    requeue_expired_tasks claimed claim_head claim_next_task failed_with fail_task checkpointed
    checkpoint_agent paused pause_task recorded record_waiting_input resumed resume_task is_restart
    retried retry_task completed complete_task superseded supersede_waiting_tasks
    review_requires_retry review_has_missing_information review_needs_source_verification
    business_questions strip
store = tt

-- A stand-in for SHA-256 that tells the tests' inputs apart.
abbrev pub digest : HashInput → String
digest (HashInput.versions vs) = elim vs [ [] ↦ "" | (v, h) ∷ _ ↦ v ]
digest (HashInput.intake m i ref) = i
digest (HashInput.task c m i model b) = i

abbrev pub contract : MaterialUpload
contract = record {
  case_id = "case";
  logical_name = "contract";
  filename = "contract.pdf";
  content_type = "application/pdf";
  object_key = "key";
  sha256 = "aa";
  byte_size = 10;
  uploaded_by = "ann";
  parse_status = ParseStatus.ready;
  parser = none;
  parser_version = none;
  parsed_text = none;
}

abbrev pub frozen : EnterpriseStore
frozen = happen digest 3 (Event.freeze_intake "case" "snap" "facts" "ann" none "intake") (
    happen digest 2 (Event.freeze "case" ("v1" ∷ []) "ann" "snap")
      (happen digest 1 (Event.upload contract "m1" "v1") empty_store))

abbrev pub waiting : EnterpriseStore
waiting = happen digest 4 (Event.enqueue "case" "snap" "intake" "model" "{}" "t1") frozen

abbrev running : EnterpriseStore
running = happen digest 5 (Event.claim "w1" 10) waiting

-- The lease has ended, and a second worker takes the task.
abbrev reclaimed : EnterpriseStore
reclaimed = happen digest 20 (Event.claim "w2" 10) running

abbrev first_run : Run digest empty_store reclaimed
unfolding store
first_run =
    next
      (next
        (next
          (next
            (next (next start 1 (Event.upload contract "m1" "v1") tt refl) 2
              (Event.freeze "case" ("v1" ∷ []) "ann" "snap") tt refl)
            3 (Event.freeze_intake "case" "snap" "facts" "ann" none "intake") tt refl)
          4 (Event.enqueue "case" "snap" "intake" "model" "{}" "t1") refl refl)
        5 (Event.claim "w1" 10) tt refl)
      20 (Event.claim "w2" 10) tt refl

abbrev pub task_at : String → EnterpriseStore → ReviewTask
task_at k s = elim (get k s.tasks) [ some t ↦ t | none ↦ new_task "" "" "" "" "" "" "" 0 ]

abbrev pub payload : ReviewPayload
payload = record {
  review_result =
      some (record { risk_level = "low"; missing_information = []; legal_basis_gaps = [] });
  web_impact = some "none";
  freshness_hold = false;
  semantic_grounding = some (record { status = "supported"; missing_facts = [] });
  evidence_self_check = some "sufficient";
}

-- The second worker completes the task.
abbrev finished : EnterpriseStore
finished = happen digest 21 (Event.complete "t1" payload "done" (some 2)) reclaimed

abbrev full_run : Run digest empty_store finished
unfolding store
full_run = next first_run 21 (Event.complete "t1" payload "done" (some 2)) tt refl

-- The first task of a case fails, and a second one with other inputs is put in the queue.
abbrev failed_first : EnterpriseStore
failed_first = happen digest 8 (Event.enqueue "case" "snap" "intake2" "model" "{}" "t2") (
    happen digest 7 (Event.freeze_intake "case" "snap" "other facts" "ann" none "intake2")
      (happen digest 6 (Event.fail "t1" "review" "timeout" "no answer" (some 1)) running))

second_attempt : (task_at "t1" reclaimed).attempt_count ≡ 2
unfolding store
second_attempt = refl

Run-IsValid_example : IsValid reclaimed
unfolding store
Run-IsValid_example = Run-IsValid digest first_run

stale_reports-Refused_example : Refused "t1" 1 finished
unfolding store
stale_reports-Refused_example =
    stale_reports-Refused digest "t1" (task_at "t1" reclaimed) 1 (Run-IsValid digest first_run) refl
      (ground arith) (next start 21 (Event.complete "t1" payload "done" (some 2)) tt refl)

closed_task_is_kept_example :
    get "t1" (happen digest 30 (Event.retry "t1") finished).tasks ≡ some (task_at "t1" finished)
unfolding store
closed_task_is_kept_example =
    closed_task_is_kept digest "t1" (task_at "t1" finished) (Run-IsValid digest full_run) refl refl
      (next start 30 (Event.retry "t1") tt refl)

claim_next_task_example :
    ClaimEnds "w2" 10 20 (requeue_expired_tasks 20 running).1 (claim_next_task "w2" 10 20 running)
unfolding store
claim_next_task_example = claim_next_task_lem "w2" 10 20 running (
    Run-IsValid digest (
      next
        (next
          (next
            (next (next start 1 (Event.upload contract "m1" "v1") tt refl) 2
              (Event.freeze "case" ("v1" ∷ []) "ann" "snap") tt refl)
            3 (Event.freeze_intake "case" "snap" "facts" "ann" none "intake") tt refl)
          4 (Event.enqueue "case" "snap" "intake" "model" "{}" "t1") refl refl)
        5 (Event.claim "w1" 10) tt refl))

requeue_expired_tasks_example :
    (u : ReviewTask) × (get "t1" (requeue_expired_tasks 20 running).1.tasks ≡ some u)
    × (u.attempt_count ≡ (task_at "t1" running).attempt_count)
    × ((LeaseEnded 20 (task_at "t1" running)
          × (u.status ≡ TaskStatus.queued)
          × (u.lease_expires_at ≡ none))
        ⊎ ((LeaseEnded 20 (task_at "t1" running) → ⊥) × (u ≡ task_at "t1" running)))
unfolding store
requeue_expired_tasks_example =
    requeue_expired_tasks_lem 20 running "t1" (task_at "t1" running) refl

enqueue_review_task_idem_example :
    enqueue_review_task digest "case" "snap" "intake" "model" "{}" "t9" 9 waiting
    ≡ ok (task_at "t1" waiting, waiting)
unfolding store
enqueue_review_task_idem_example =
    enqueue_review_task_idem digest "case" "snap" "intake" "model" "{}" "t1" "t9" 4 9 frozen waiting
      (task_at "t1" waiting) refl

abbrev uploaded : EnterpriseStore
uploaded = happen digest 1 (Event.upload contract "m1" "v1") empty_store

abbrev snapshot : MaterialSnapshot
snapshot = record {
  id = "snap";
  case_id = "case";
  version_ids = "v1" ∷ [];
  fingerprint = "v1";
  created_by = "ann";
  created_at = 2;
}

happen-active_example :
    active_count "case" (happen digest 21 (Event.complete "t1" payload "done" (some 2)) reclaimed)
    ≤ 1
unfolding store
happen-active_example =
    happen-active digest "case" 21 (Event.complete "t1" payload "done" (some 2)) reclaimed
      (Run-IsValid digest first_run) refl (ground arith)

retry_task_beside_active_example :
    (t' : ReviewTask) × (s' : EnterpriseStore) × (retry_task "t1" 9 failed_first ≡ ok (t', s'))
    × (get "t1" s'.tasks ≡ some t')
    × (is_active_of "case" t' ≡ true)
    × (get "t2" s'.tasks ≡ some (task_at "t2" failed_first))
unfolding store
retry_task_beside_active_example =
    retry_task_beside_active "t1" "t2" (task_at "t1" failed_first) (task_at "t2" failed_first) 9
      failed_first refl refl refl refl

new_version_is_latest_example :
    (get "v2" (create_material_version contract "m9" "v2" 5 uploaded).1.material_versions
      ≡ some (create_material_version contract "m9" "v2" 5 uploaded).0)
    × All
        (λ w.
          (w.material_id == (create_material_version contract "m9" "v2" 5 uploaded).0.material_id)
            ≡ true
          → w.version_number
            < (create_material_version contract "m9" "v2" 5 uploaded).0.version_number)
        (values uploaded.material_versions)
    × AreNumbered (create_material_version contract "m9" "v2" 5 uploaded).1.material_versions
unfolding store
new_version_is_latest_example =
    new_version_is_latest contract "m9" "v2" 5 uploaded refl (ground arith, tt)
