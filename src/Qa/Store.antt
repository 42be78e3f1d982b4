-- ===== src/Qa/Store.antt =====
-- The store of conversations in memory (law_agent/review/qa_store.py).
--
-- Each method is a function of the store, under its one lock. `now` is the clock's reading and
-- `new_id` the identifier that `uuid4` gives. A method that raises leaves the store as it was: it
-- changes a copy of the conversation, which is stored at the end.
use crosscomply_agent.Prelude.{
  ℕ, String, Option, none, some, List, [], ◌∷◌, ◌++◌, ◌==◌, ◌!=◌, ltb, find, select, Dict, get, put,
  values, item, Result, ok, ◌>>=◌, if◌then◌else◌,
}
use crosscomply_agent.Prelude.Sort.{sorted}
use crosscomply_agent.Qa.Records.{QaRun, QaMaterial, QaConversation, QaChanges}
use crosscomply_agent.Qa.Changes.{new_run, same_or_new, retry_run, checkpoint_run, claim_run}

unfoldable pub create :
    (owner_id new_id : String) (now : ℕ)
    → Dict QaConversation
    → QaConversation × Dict QaConversation
create owner_id new_id now s =
    let row : QaConversation = record {
      id = new_id;
      owner_id = owner_id;
      title = "新的合规问答";
      created_at = now;
      updated_at = now;
      materials = [];
      runs = [];
      case_links = [];
    } in
    (row, put new_id row s)

-- `json.dumps` with sorted keys is a parameter.
module _ (dumps : QaConversation → String) where
  -- A conversation that was changed is stored, with the time of the change.
  abbrev pub edit {ℓ} :
      {A : Type ℓ}
      → (conversation_id : String) → (QaConversation → Result (A × QaConversation))
      → (now : ℕ) → Dict QaConversation
      → Result (A × Dict QaConversation)
  edit conversation_id change now s = do
    row ← item conversation_id s
    (result, row') ← change row
    ok (
      result,
      if dumps row' != dumps row
          then put conversation_id (record row' { updated_at = now }) s
          else s,
    )

  unfoldable pub add_material :
      (conversation_id : String)
      → QaMaterial
      → (now : ℕ) → Dict QaConversation
      → Result (QaMaterial × Dict QaConversation)
  add_material conversation_id material =
      edit conversation_id
        (λ row. ok (material, record row { materials = row.materials ++ material ∷ [] }))

  unfoldable pub enqueue :
      (conversation_id question : String) (material_ids : List String) (request_id new_id : String)
      (now : ℕ)
      → Dict QaConversation
      → Result (QaRun × Dict QaConversation)
  enqueue conversation_id question material_ids request_id new_id now =
      edit conversation_id
        (λ row.
          same_or_new (find (λ r. r.request_id == request_id) row.runs)
            (new_run question material_ids request_id new_id now) row)
        now

  unfoldable pub retry :
      (conversation_id run_id : String) (now : ℕ)
      → Dict QaConversation
      → Result (QaRun × Dict QaConversation)
  retry conversation_id run_id = edit conversation_id (retry_run run_id)

  unfoldable pub checkpoint :
      (conversation_id run_id : String) (attempt : ℕ) (changes : QaChanges) (now : ℕ)
      → Dict QaConversation
      → Result (QaRun × Dict QaConversation)
  checkpoint conversation_id run_id attempt changes now =
      edit conversation_id (checkpoint_run run_id attempt changes now) now

unfoldable pub claim :
    ℕ → Dict QaConversation → Option (QaConversation × QaRun) × Dict QaConversation
claim now [] = (none, [])
claim now ((k, row) ∷ s) =
    let (claimed, runs) = claim_run now row.runs in
    let (later, rest) = claim now s in
    let row' = record row { runs = runs } in
    elim claimed [ some run ↦ (some (row', run), (k, row') ∷ s) | none ↦ (later, (k, row') ∷ rest) ]

unfoldable pub get_conversation : String → Dict QaConversation → Option QaConversation
get_conversation conversation_id s = get conversation_id s

-- The conversations of a user, from the one that was changed last.
unfoldable pub list_conversations : String → Dict QaConversation → List QaConversation
list_conversations owner_id s =
    sorted (λ a b. ltb b.updated_at a.updated_at)
      (select (λ row. row.owner_id == owner_id) (values s))
