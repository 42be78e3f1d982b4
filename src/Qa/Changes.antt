-- ===== src/Qa/Changes.antt =====
-- What the methods on questions make of one conversation and its runs
-- (law_agent/review/qa_store.py): the bodies that `_edit` is given, and the loop over the runs.
use crosscomply_agent.Prelude.{
  ℕ, ◌+◌, ◌*◌, String, Bool, true, false, not, ◌&&◌, ◌||◌, Option, none, some, List, [], ◌∷◌, ◌++◌,
  ◌==◌, ◌!=◌, nat_eq, ltb, any, all, find, get_last?, put, Result, ok, err, key_error, qa_conflict,
  stop_iteration, raise_if, ◌>>◌, if◌then◌else◌,
}
use crosscomply_agent.Assessment.Text.{take}
use crosscomply_agent.Remediation.Tasks.{get_or}
use crosscomply_agent.Qa.Records.{
  RunStatus, RunResult, QaRun, QaMaterial, QaConversation, QaChanges, is_queued, is_running,
  is_failed,
}

-- `LEASE_SECONDS`
abbrev pub lease_seconds : ℕ
lease_seconds = 5 * 60

-- `status in {"queued", "running"}`
abbrev pub is_in_flight : QaRun → Bool
is_in_flight r = is_queued r.status || is_running r.status

abbrev pub has_id : String → QaRun → Bool
has_id run_id r = r.id == run_id

-- The first run with the identifier is changed in its place.
abbrev pub update_run : String → (QaRun → QaRun) → List QaRun → List QaRun
update_run run_id f [] = []
update_run run_id f (r ∷ rs) =
    let rest = update_run run_id f rs in if has_id run_id r then f r ∷ rs else r ∷ rest

-- `{**below, **above}`
abbrev pub merge : RunResult → RunResult → RunResult
merge below [] = below
merge below ((k, v) ∷ above) = merge (put k v below) above

abbrev pub failed_result : QaRun → RunResult
failed_result r = put "generation_status" "\"failed\"" (
    merge (("citations", "[]") ∷ ("material_citations", "[]") ∷ ("conditions", "[]") ∷ [])
      (get_or r.result []))

abbrev pub same_texts : List String → List String → Bool
same_texts [] [] = true
same_texts [] (t ∷ ts) = false
same_texts (s ∷ ss) [] = false
same_texts (s ∷ ss) (t ∷ ts) = s == t && same_texts ss ts

-- `[m["id"] for m in materials]` has every one of the identifiers.
abbrev pub are_known : List String → List QaMaterial → Bool
are_known ids materials = all (λ i. any (λ m. m.id == i) materials) ids

abbrev pub new_run :
    (question : String) (material_ids : List String) (request_id new_id : String) (now : ℕ) → QaRun
new_run question material_ids request_id new_id now = record {
  id = new_id;
  request_id = request_id;
  question = question;
  material_ids = material_ids;
  status = RunStatus.queued;
  attempt = 0;
  state = "{}";
  answer = "";
  result = none;
  error = none;
  progress = "等待开始调查";
  lease_expires_at = none;
  created_at = now;
}

-- The first question gives the conversation its title.
abbrev pub append_run : QaRun → QaConversation → QaConversation
append_run run row = record row {
  runs = row.runs ++ run ∷ [];
  title = elim row.runs [ [] ↦ take 60 run.question | _ ∷ _ ↦ row.title ];
}

-- The run that the request asked for before, or the new one.
abbrev pub same_or_new : Option QaRun → QaRun → QaConversation → Result (QaRun × QaConversation)
same_or_new (some run) new row = do
  raise_if (run.question != new.question || not (same_texts run.material_ids new.material_ids))
      qa_conflict
  ok (run, row)
same_or_new none new row = do
  raise_if (any is_in_flight row.runs) qa_conflict
  raise_if (not (are_known new.material_ids row.materials)) qa_conflict
  ok (new, append_run new row)

abbrev pub is_last : String → List QaRun → Bool
is_last run_id runs = elim (get_last? runs) [ none ↦ false | some r ↦ has_id run_id r ]

unfoldable pub retried : QaRun → QaRun
retried r = record r {
  status = RunStatus.queued;
  answer = "";
  result = none;
  error = none;
  state = "{}";
  progress = "等待重新调查";
}

abbrev pub retry_run : String → QaConversation → Result (QaRun × QaConversation)
retry_run run_id row = elim (find (has_id run_id) row.runs) [
  | none ↦ err key_error
  | some run ↦ do
    raise_if (not (is_failed run.status) || any is_in_flight row.runs) qa_conflict
    raise_if (not (is_last run_id row.runs)) qa_conflict
    ok (retried run, record row { runs = update_run run_id retried row.runs })
]

-- `run.update(changes)`
abbrev pub changed : QaChanges → QaRun → QaRun
changed c r = record r {
  status = get_or c.status r.status;
  state = get_or c.state r.state;
  answer = get_or c.answer r.answer;
  result = get_or c.result r.result;
  error = get_or c.error r.error;
  progress = get_or c.progress r.progress;
}

unfoldable pub checkpointed : QaChanges → ℕ → QaRun → QaRun
checkpointed c now r =
    let u = changed c r in
    record u {
      result = if is_failed u.status then some (failed_result u) else u.result;
      lease_expires_at = some (now + lease_seconds);
    }

abbrev pub checkpoint_run :
    String → ℕ → QaChanges → ℕ → QaConversation → Result (QaRun × QaConversation)
checkpoint_run run_id attempt c now row = elim (find (has_id run_id) row.runs) [
  | none ↦ err stop_iteration
  | some run ↦ do
    raise_if (not (is_running run.status) || not (nat_eq run.attempt attempt)) qa_conflict
    ok (
      checkpointed c now run,
      record row { runs = update_run run_id (checkpointed c now) row.runs },
    )
]

-- A run that runs has a lease.
abbrev pub has_expired : ℕ → QaRun → Bool
has_expired now r = elim r.lease_expires_at [
  | none ↦ false
  | some lease ↦ is_running r.status && ltb lease now
]

abbrev pub interrupted : QaRun → QaRun
interrupted r =
    let u = record r { status = RunStatus.failed; error = some "执行中断，请重试"; progress = "执行中断" } in
    record u { result = some (failed_result u) }

unfoldable pub expire : ℕ → QaRun → QaRun
expire now r = if has_expired now r then interrupted r else r

unfoldable pub started : ℕ → QaRun → QaRun
started now r = record r {
  status = RunStatus.running;
  attempt = r.attempt + 1;
  lease_expires_at = some (now + lease_seconds);
  progress = "正在分析问题";
}

-- The loop over the runs of a conversation: the run that was claimed, and the runs after it.
unfoldable pub claim_run : ℕ → List QaRun → Option QaRun × List QaRun
claim_run now [] = (none, [])
claim_run now (r ∷ rs) =
    let u = expire now r in
    let (claimed, rest) = claim_run now rs in
    if is_queued u.status then (some (started now u), started now u ∷ rs) else (claimed, u ∷ rest)
