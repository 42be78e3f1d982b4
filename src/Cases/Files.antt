-- ===== src/Cases/Files.antt =====
-- Cases, their events and feedback, in law_agent/review/case_store.py. Python's `str.lower` is a
-- parameter; identifiers and the clock are arguments.
use Prim.Native.Char.{code}
use Prim.Native.String.{◌∷◌ as ◌&◌, [] as empty}
use crosscomply_agent.Prelude.{
  ℕ, zero, suc, String, Bool, true, false, ◌&&◌, ◌||◌, Option, none, some, List, [], ◌∷◌, ◌++◌,
  ◌==◌, nat_eq, ltb, select, Dict, get, put, item, values, PairDict, get_pair, put_pair, Result, ok,
  ◌>>=◌, if◌then◌else◌,
}
use crosscomply_agent.Prelude.Sort.{sorted}
use crosscomply_agent.Workflow.{CaseStatus, draft}
use crosscomply_agent.Workflow.Strip.{strip}
use crosscomply_agent.Cases.Records.{
  UserRole, UserRecord, MemoryCase, CaseEvent, Feedback, CaseStore,
}

abbrev pub default_to {ℓ} : {A : Type ℓ} → A → Option A → A
default_to d none = d
default_to d (some a) = a

-- `text[:n]`
abbrev pub first_chars : ℕ → String → String
first_chars zero s = ""
first_chars (suc n) empty = ""
first_chars (suc n) (c & s) = c & first_chars n s

-- The keywords of a new case.
pub record CaseData : Type 0 where
  pub id : Option String
  pub case_number : Option String
  pub title : Option String
  pub question : String
  pub material_text : String
  pub material_source : Option String
  pub intake : Option String
  pub status : Option CaseStatus
  pub rerank_mode : Option String
  pub created_by : String
  pub owner_id : Option String
  pub facts_confirmed : Option Bool

-- `text or default`
abbrev pub or_text : Option String → String → String
or_text none d = d
or_text (some a) d = if a == "" then d else a

unfoldable pub create_case :
    CaseData → (new_id new_number : String) (now : ℕ) → CaseStore → MemoryCase × CaseStore
create_case c new_id new_number now s =
    let created : MemoryCase = record {
      id = or_text c.id new_id;
      case_number = or_text c.case_number new_number;
      title = or_text c.title (first_chars 80 c.question);
      question = c.question;
      material_text = c.material_text;
      material_source = c.material_source;
      intake = or_text c.intake "{}";
      status = default_to draft c.status;
      rerank_mode = default_to "off" c.rerank_mode;
      created_by = c.created_by;
      owner_id = c.owner_id;
      facts_confirmed = default_to false c.facts_confirmed;
      risk_level = none;
      trace_id = none;
      response = none;
      created_at = now;
      updated_at = now;
    } in
    (created, record s { cases = put created.id created s.cases })

unfoldable pub get_case : String → CaseStore → Option MemoryCase
get_case identifier s = get identifier s.cases

-- `needle in text`
abbrev pub is_prefix : (needle text : String) → Bool
is_prefix empty text = true
is_prefix (c & p) empty = false
is_prefix (c & p) (d & t) = nat_eq (code c) (code d) && is_prefix p t

abbrev pub contains : (needle text : String) → Bool
contains needle empty = is_prefix needle empty
contains needle (c & t) = is_prefix needle (c & t) || contains needle t

-- What a user may see: a requester the cases that name them, anyone else every case.
abbrev pub may_see : UserRecord → MemoryCase → Bool
may_see user c = elim user.role [
  | UserRole.requester ↦
      user.id == c.created_by || elim c.owner_id [ none ↦ false | some owner ↦ user.id == owner ]
  | _ ↦ true
]

abbrev pub is_newer : MemoryCase → MemoryCase → Bool
is_newer a b = ltb b.updated_at a.updated_at

module _ (lower : String → String) where
  -- A query that is absent or blank passes every case.
  abbrev pub matches : (query : Option String) → MemoryCase → Bool
  matches none c = true
  matches (some q) c =
      if strip q == ""
      then true
      else contains (lower (strip q)) (lower c.question) || contains (lower (strip q)) (lower c.id)

  unfoldable pub list_cases : UserRecord → (query : Option String) → CaseStore → List MemoryCase
  list_cases user query s =
      sorted is_newer (select (matches query) (select (may_see user) (values s.cases)))

-- The fields that an update names.
pub record CaseUpdate : Type 0 where
  pub title : Option String
  pub question : Option String
  pub material_text : Option String
  pub material_source : Option (Option String)
  pub intake : Option String
  pub status : Option CaseStatus
  pub rerank_mode : Option String
  pub owner_id : Option (Option String)
  pub facts_confirmed : Option Bool
  pub risk_level : Option (Option String)
  pub trace_id : Option (Option String)
  pub response : Option (Option String)

unfoldable pub case_updated : CaseUpdate → ℕ → MemoryCase → MemoryCase
case_updated u now c = record c {
  title = default_to c.title u.title;
  question = default_to c.question u.question;
  material_text = default_to c.material_text u.material_text;
  material_source = default_to c.material_source u.material_source;
  intake = default_to c.intake u.intake;
  status = default_to c.status u.status;
  rerank_mode = default_to c.rerank_mode u.rerank_mode;
  owner_id = default_to c.owner_id u.owner_id;
  facts_confirmed = default_to c.facts_confirmed u.facts_confirmed;
  risk_level = default_to c.risk_level u.risk_level;
  trace_id = default_to c.trace_id u.trace_id;
  response = default_to c.response u.response;
  updated_at = now;
}

unfoldable pub update_case : String → CaseUpdate → ℕ → CaseStore → Result (MemoryCase × CaseStore)
update_case identifier u now s = do
  found ← item identifier s.cases
  ok (
    case_updated u now found,
    record s { cases = put identifier (case_updated u now found) s.cases },
  )

unfoldable pub add_event :
    (case_id actor_id event_type : String) (from_status to_status : Option String)
    (payload : Option String) (new_id : String) (now : ℕ)
    → CaseStore
    → CaseEvent × CaseStore
add_event case_id actor_id event_type from_status to_status payload new_id now s =
    let event : CaseEvent = record {
      id = new_id;
      case_id = case_id;
      actor_id = actor_id;
      event_type = event_type;
      from_status = from_status;
      to_status = to_status;
      payload = or_text payload "{}";
      created_at = now;
    } in
    (event, record s { events = s.events ++ event ∷ [] })

unfoldable pub list_events : String → CaseStore → List CaseEvent
list_events identifier s = select (λ e. e.case_id == identifier) s.events

unfoldable pub get_feedback : (case_id actor_id : String) → CaseStore → Option Feedback
get_feedback case_id actor_id s = get_pair case_id actor_id s.feedback

unfoldable pub save_feedback :
    (case_id actor_id : String) (conclusion_useful : Option Bool)
    (missing_sources notes citation_verdicts : Option String) (now : ℕ)
    → CaseStore
    → Feedback × CaseStore
save_feedback case_id actor_id conclusion_useful missing_sources notes citation_verdicts now s =
    let given : Feedback = record {
      case_id = case_id;
      actor_id = actor_id;
      conclusion_useful = conclusion_useful;
      missing_sources = default_to "" missing_sources;
      notes = default_to "" notes;
      citation_verdicts = or_text citation_verdicts "{}";
      updated_at = now;
    } in
    (given, record s { feedback = put_pair case_id actor_id given s.feedback })

pub record FeedbackView : Type 0 where
  pub actor_id : String
  pub actor_role : UserRole
  pub actor_name : String
  pub conclusion_useful : Option Bool
  pub missing_sources : String
  pub notes : String
  pub updated_at : ℕ

-- `{record[0].id: record[0] for record in self.users.values()}`
abbrev pub users_by_id : List (UserRecord × String) → Dict UserRecord → Dict UserRecord
users_by_id [] d = d
users_by_id ((u, h) ∷ us) d = users_by_id us (put u.id u d)

abbrev pub view_feedback : Option UserRecord → Feedback → List FeedbackView
view_feedback none f = []
view_feedback (some u) f =
    record {
      actor_id = f.actor_id;
      actor_role = u.role;
      actor_name = u.display_name;
      conclusion_useful = f.conclusion_useful;
      missing_sources = f.missing_sources;
      notes = f.notes;
      updated_at = f.updated_at;
    }
    ∷ []

-- The loop over the feedback: what is of the case, by a known user.
abbrev pub feedback_of :
    (case_id : String) → Dict UserRecord → PairDict Feedback → List FeedbackView
feedback_of case_id users [] = []
feedback_of case_id users ((c, a, f) ∷ d) =
    let rest = feedback_of case_id users d in
    if c == case_id then view_feedback (get f.actor_id users) f ++ rest else rest

unfoldable pub list_feedback : String → CaseStore → List FeedbackView
list_feedback identifier s = feedback_of identifier (users_by_id (values s.users) []) s.feedback
