-- ===== src/Tests/Qa.antt =====
-- Questions and answers on concrete inputs (law_agent/review/qa_store.py).
use crosscomply_agent.Prelude.{
  String, none, some, [], ◌∷◌, ◌≡◌, refl, Dict, values, All, err, qa_conflict, arith, ◌==◌,
  if◌then◌else◌,
}
use crosscomply_agent.Qa.Records.{RunStatus, QaRun, QaConversation, QaChanges}
use crosscomply_agent.Qa.Changes.{claim_run, expire, started, retried, checkpointed, new_run}
use crosscomply_agent.Qa.Store.{create, add_material, enqueue, retry, checkpoint, claim}
use crosscomply_agent.Qa.Events.{
  open_conversation, ask, ask_again, report, take, happen, Run, start, next,
}
use crosscomply_agent.Qa.Single.{IsSingle, Run-AreSingle}
use crosscomply_agent.Qa.Refused.{ended_attempt_is_refused}

unfoldable conversations : Unit {0}
unfolding happen create add_material enqueue retry checkpoint claim claim_run expire started retried
    checkpointed
conversations = tt

-- A stand-in for `json.dumps`: the status or the answer of the run.
abbrev status_text : RunStatus → String
status_text RunStatus.queued = "q"
status_text RunStatus.running = "r"
status_text RunStatus.completed = "c"
status_text RunStatus.failed = "f"

abbrev dumps : QaConversation → String
dumps row = elim row.runs [
  | [] ↦ ""
  | r ∷ rs ↦ if r.answer == "" then status_text r.status else r.answer
]

abbrev answered : QaChanges
answered = record {
  status = some RunStatus.completed;
  state = none;
  answer = some "yes";
  result = none;
  error = none;
  progress = none;
}

-- A question is asked and taken, and the worker's lease ends: at 400 it is interrupted, asked again
-- and taken by another worker.
abbrev asked : Dict QaConversation
asked =
    happen dumps 2 (ask "c1" "May we?" [] "req" "r1")
      (happen dumps 1 (open_conversation "ann" "c1") [])

abbrev taken : Dict QaConversation
taken = happen dumps 3 take asked

abbrev lost : Dict QaConversation
lost = happen dumps 400 take taken

abbrev taken_again : Dict QaConversation
taken_again = happen dumps 402 take (happen dumps 401 (ask_again "c1" "r1") lost)

abbrev first_row : Dict QaConversation → QaConversation
first_row [] = (create "" "" 0 []).0
first_row ((k, row) ∷ s) = row

abbrev first_run : Dict QaConversation → QaRun
first_run s = elim (first_row s).runs [ [] ↦ new_run "" [] "" "" 0 | r ∷ rs ↦ r ]

attempts_counted : (first_run taken_again).attempt ≡ 2
unfolding conversations
attempts_counted = refl

new_worker_answers :
    (first_run (happen dumps 403 (report "c1" "r1" 2 answered) taken_again)).answer ≡ "yes"
unfolding conversations
new_worker_answers = refl

abbrev history : Run dumps [] taken_again
unfolding conversations
history =
    next
      (next
        (next
          (next
            (next (next start 1 (open_conversation "ann" "c1") refl refl) 2
              (ask "c1" "May we?" [] "req" "r1") tt refl)
            3 take tt refl)
          400 take tt refl)
        401 (ask_again "c1" "r1") tt refl)
      402 take tt refl

Run-AreSingle_example : All IsSingle (values taken_again)
Run-AreSingle_example = Run-AreSingle dumps history

-- The first worker, whose lease was taken, reports when the second one runs.
ended_attempt_is_refused_example :
    checkpoint dumps "c1" "r1" 1 answered 403 taken_again ≡ err qa_conflict
unfolding conversations
ended_attempt_is_refused_example =
    ended_attempt_is_refused dumps {s = lost} "c1" "r1" 1 (first_row lost) (first_run lost) refl
      refl (ground arith) (λ e. refl)
      (next (next start 401 (ask_again "c1" "r1") tt refl) 402 take tt refl) answered 403
