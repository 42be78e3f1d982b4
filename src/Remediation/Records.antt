-- ===== src/Remediation/Records.antt =====
-- The rows of law_agent/review/case_store.py on remediation, and the attributes of
-- InMemoryCaseStore that hold them.
use crosscomply_agent.Prelude.{ℕ, String, Bool, Option, List, [], Dict}

pub data PlanStatus : Type 0 where
  draft active completed cancelled : PlanStatus

pub data RemediationStatus : Type 0 where
  unstarted in_progress pending_review completed : RemediationStatus

pub data SubmissionStatus : Type 0 where
  pending_review agent_verified agent_feedback accepted rejected : SubmissionStatus

pub record RemediationPlan : Type 0 where
  pub id : String
  pub case_id : String
  pub created_by : String
  pub status : PlanStatus
  pub no_remediation_reason : Option String
  pub version : ℕ
  pub created_at : ℕ
  pub updated_at : ℕ

-- The status `open` is `unstarted`: the word is taken.
pub record RemediationTask : Type 0 where
  pub id : String
  pub plan_id : String
  pub case_id : String
  pub title : String
  pub description : String
  pub acceptance_criteria : String
  pub source_recommendation_index : Option ℕ
  pub source_recommendation : Option String
  pub source_review_result_id : Option String
  pub source_issue_id : Option String
  pub task_kind : String
  pub answer_type : String
  pub phase : String
  pub blocking : Bool
  pub source_key : Option String
  pub is_current : Bool
  pub assignee_id : Option String
  pub priority : String
  pub due_date : Option String
  pub status : RemediationStatus
  pub version : ℕ
  pub created_at : ℕ
  pub updated_at : ℕ

pub record RemediationSubmission : Type 0 where
  pub id : String
  pub task_id : String
  pub submitted_by : String
  pub note : String
  pub response_choice : Option String
  pub status : SubmissionStatus
  pub reviewed_by : Option String
  pub review_note : Option String
  pub reviewed_at : Option ℕ
  pub created_at : ℕ

-- What a caller gives of a piece of evidence is one text.
pub record RemediationEvidence : Type 0 where
  pub id : String
  pub submission_id : String
  pub content : String
  pub created_at : ℕ

pub record RemediationEvent : Type 0 where
  pub id : String
  pub plan_id : String
  pub task_id : Option String
  pub actor_id : String
  pub event_type : String
  pub payload : String
  pub created_at : ℕ

pub record RemediationStore : Type 0 where
  pub plans : Dict RemediationPlan
  pub tasks : Dict RemediationTask
  pub submissions : Dict RemediationSubmission
  pub evidence : Dict RemediationEvidence
  pub events : List RemediationEvent

abbrev pub empty_remediation : RemediationStore
empty_remediation = record { plans = []; tasks = []; submissions = []; evidence = []; events = [] }

-- The keywords of a new task: an absent key is `none`, and where the value may be None, an
-- Option of its own. Every caller gives a title.
pub record TaskData : Type 0 where
  pub id : Option String
  pub title : String
  pub description : Option String
  pub acceptance_criteria : Option String
  pub source_recommendation_index : Option (Option ℕ)
  pub source_recommendation : Option (Option String)
  pub source_review_result_id : Option (Option String)
  pub source_issue_id : Option (Option String)
  pub task_kind : Option String
  pub answer_type : Option String
  pub phase : Option String
  pub blocking : Option Bool
  pub source_key : Option String
  pub assignee_id : Option String
  pub priority : Option String
  pub due_date : Option String

-- What `get_remediation_submission`, `get_remediation_task` and `get_remediation_plan` return.
pub record SubmissionView : Type 0 where
  pub submission : RemediationSubmission
  pub evidence : List RemediationEvidence

pub record TaskView : Type 0 where
  pub task : RemediationTask
  pub submissions : List SubmissionView

pub record PlanView : Type 0 where
  pub plan : RemediationPlan
  pub tasks : List TaskView
  pub events : List RemediationEvent
