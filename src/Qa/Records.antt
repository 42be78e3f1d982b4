-- ===== src/Qa/Records.antt =====
-- Conversations and runs (law_agent/review/qa_store.py), whose dictionaries are records here.
use crosscomply_agent.Prelude.{ℕ, String, Bool, true, false, Option, List, Dict}

pub data RunStatus : Type 0 where
  queued running completed failed : RunStatus

-- A result by its keys, each with the text of its JSON value.
abbrev pub RunResult : Type 0
RunResult = Dict String

pub record QaRun : Type 0 where
  pub id : String
  pub request_id : String
  pub question : String
  pub material_ids : List String
  pub status : RunStatus
  pub attempt : ℕ
  pub state : String
  pub answer : String
  pub result : Option RunResult
  pub error : Option String
  pub progress : String
  pub lease_expires_at : Option ℕ
  pub created_at : ℕ

-- A material of a conversation: its identifier, and the text of the rest.
pub record QaMaterial : Type 0 where
  pub id : String
  pub data_json : String

pub record QaConversation : Type 0 where
  pub id : String
  pub owner_id : String
  pub title : String
  pub created_at : ℕ
  pub updated_at : ℕ
  pub materials : List QaMaterial
  pub runs : List QaRun
  pub case_links : Dict String

-- The keywords that a checkpoint may give; `none` for one that is not given.
pub record QaChanges : Type 0 where
  pub status : Option RunStatus
  pub state : Option String
  pub answer : Option String
  pub result : Option (Option RunResult)
  pub error : Option (Option String)
  pub progress : Option String

abbrev pub is_queued : RunStatus → Bool
is_queued RunStatus.queued = true
is_queued _ = false

abbrev pub is_running : RunStatus → Bool
is_running RunStatus.running = true
is_running _ = false

abbrev pub is_failed : RunStatus → Bool
is_failed RunStatus.failed = true
is_failed _ = false
