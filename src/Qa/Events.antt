-- ===== src/Qa/Events.antt =====
-- What can happen to the conversations of law_agent/review/qa_store.py: one event for each method
-- that changes the store, and the runs in which events follow one another.
use crosscomply_agent.Prelude.{
  ℕ, String, none, some, List, ◌≡◌, inl, inr, Bool, Bool-cases, Option-cases, Dict, get, put, item,
  Result, ok, err, ◌>>=◌, ◌>>◌, raise_if, Error, refl, false, true, ◌!=◌, if◌then◌else◌,
}
use crosscomply_agent.Qa.Records.{QaMaterial, QaConversation, QaChanges}
use crosscomply_agent.Qa.Store.{create, add_material, enqueue, retry, checkpoint, claim, edit}

pub data Event : Type 0 where
  open_conversation : (owner_id new_id : String) → Event
  attach : (conversation_id : String) → QaMaterial → Event
  ask : (conversation_id question : String) → List String → (request_id new_id : String) → Event
  ask_again : (conversation_id run_id : String) → Event
  report : (conversation_id run_id : String) (attempt : ℕ) → QaChanges → Event
  take : Event

abbrev pub rows_after {ℓ} :
    {A : Type ℓ} → Dict QaConversation → Result (A × Dict QaConversation) → Dict QaConversation
rows_after s (ok (a, t)) = t
rows_after s (err e) = s

module _ (dumps : QaConversation → String) where
  unfoldable pub happen : ℕ → Event → Dict QaConversation → Dict QaConversation
  happen now (open_conversation owner id) s = (create owner id now s).1
  happen now (attach c m) s = rows_after s (add_material dumps c m now s)
  happen now (ask c q ms request id) s = rows_after s (enqueue dumps c q ms request id now s)
  happen now (ask_again c r) s = rows_after s (retry dumps c r now s)
  happen now (report c r n changes) s = rows_after s (checkpoint dumps c r n changes now s)
  happen now take s = (claim now s).1

  -- `uuid4` gives a conversation an identifier that no conversation has.
  abbrev pub IsFresh : Event → Dict QaConversation → Type 0
  IsFresh (open_conversation owner id) s = get id s ≡ none
  IsFresh _ s = Unit

  -- The store `t` is reached from `s` by events at any times.
  pub data Run (s : Dict QaConversation) : Dict QaConversation → Type 0 where
    start : Run s s
    next :
        {t u : Dict QaConversation}
        → Run s t
        → (now : ℕ) (e : Event) → IsFresh e t
        → u ≡ happen now e t
        → Run s u

-- What a change makes of a conversation, if it raises nothing.
abbrev pub Gives {ℓ} :
    {A : Type ℓ} → (QaConversation → Type 0) → Result (A × QaConversation) → Type 0
Gives Q (ok (a, row)) = Q row
Gives Q (err e) = Unit

pub raise_if-Gives {ℓ} :
    {A : Type ℓ} (Q : QaConversation → Type 0) (b : Bool) (x : Error)
    (m : Result (A × QaConversation))
    → (b ≡ false → Gives Q m)
    → Gives Q (raise_if b x >> m)
raise_if-Gives Q true x m h = tt
raise_if-Gives Q false x m h = h refl

module _ (dumps : QaConversation → String) where
  -- An edit leaves the store, or stores what the change made of the conversation.
  pub edit-Holds {ℓ} :
      {A : Type ℓ} (P : Dict QaConversation → Type 0) (k : String)
      (change : QaConversation → Result (A × QaConversation)) (now : ℕ) (s : Dict QaConversation)
      → P s
      → ((row : QaConversation)
          → get k s ≡ some row
          → Gives (λ row'. P (put k (record row' { updated_at = now }) s)) (change row))
      → P (rows_after s (edit dumps k change now s))
  edit-Holds {A} P k change now s h keep = elim (Option-cases (get k s)) [
    | inl e ↦ rw (e, edit, item, rows_after) h
    | inr (row, e) ↦ rw (e, edit, item, rows_after) (of_change row (change row) (keep row e))
  ]
    where
      of_change :
          (row : QaConversation) (m : Result (A × QaConversation))
          → Gives (λ row'. P (put k (record row' { updated_at = now }) s)) m
          → P (
              rows_after s (
                m >>= λ r. ok (
                  r.0,
                  if dumps r.1 != dumps row then put k (record r.1 { updated_at = now }) s else s,
                )))
      of_change row (err x) g = h
      of_change row (ok (a, row')) g = elim (Bool-cases (dumps row' != dumps row)) [
        | inl d ↦ rw d g
        | inr d ↦ rw d h
      ]
