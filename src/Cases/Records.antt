-- ===== src/Cases/Records.antt =====
-- Users, sessions, cases and feedback of law_agent/review/case_store.py, and the attributes of
-- InMemoryCaseStore that hold them.
use crosscomply_agent.Prelude.{ℕ, String, Bool, Option, List, [], Dict, PairDict}
use crosscomply_agent.Workflow.{CaseStatus}

pub data UserRole : Type 0 where
  requester reviewer admin : UserRole

pub record UserRecord : Type 0 where
  pub id : String
  pub username : String
  pub display_name : String
  pub role : UserRole

-- The intake and the response are JSON texts.
pub record MemoryCase : Type 0 where
  pub id : String
  pub case_number : String
  pub title : String
  pub question : String
  pub material_text : String
  pub material_source : Option String
  pub intake : String
  pub status : CaseStatus
  pub rerank_mode : String
  pub created_by : String
  pub owner_id : Option String
  pub facts_confirmed : Bool
  pub risk_level : Option String
  pub trace_id : Option String
  pub response : Option String
  pub created_at : ℕ
  pub updated_at : ℕ

pub record CaseEvent : Type 0 where
  pub id : String
  pub case_id : String
  pub actor_id : String
  pub event_type : String
  pub from_status : Option String
  pub to_status : Option String
  pub payload : String
  pub created_at : ℕ

pub record Feedback : Type 0 where
  pub case_id : String
  pub actor_id : String
  pub conclusion_useful : Option Bool
  pub missing_sources : String
  pub notes : String
  pub citation_verdicts : String
  pub updated_at : ℕ

-- A user stands beside the hash of a password, a session beside the time at which it ends.
pub record CaseStore : Type 0 where
  pub users : Dict (UserRecord × String)
  pub sessions : Dict (UserRecord × ℕ)
  pub cases : Dict MemoryCase
  pub events : List CaseEvent
  pub feedback : PairDict Feedback

-- The store before the three seed users are put into it.
abbrev pub empty_cases : CaseStore
empty_cases = record { users = []; sessions = []; cases = []; events = []; feedback = [] }
