-- ===== src/Cases/Dashboard.antt =====
-- The dashboard of law_agent/review/case_store.py.
use crosscomply_agent.Prelude.{
  ℕ, zero, suc, ◌+◌, String, Option, none, some, List, [], ◌∷◌, length, is_none, Dict, get, put,
  if◌then◌else◌,
}
use crosscomply_agent.Workflow.{
  CaseStatus, draft, needs_info, pending_review, review_running, pending_source_verification,
  pending_feishu_approval, run_failed,
}
use crosscomply_agent.Cases.Records.{UserRecord, MemoryCase, CaseStore}
use crosscomply_agent.Cases.Files.{list_cases, default_to}

-- The text of a status.
abbrev pub case_status_name : CaseStatus → String
case_status_name draft = "draft"
case_status_name needs_info = "needs_info"
case_status_name pending_review = "pending_review"
case_status_name review_running = "review_running"
case_status_name pending_source_verification = "pending_source_verification"
case_status_name pending_feishu_approval = "pending_feishu_approval"
case_status_name CaseStatus.approved = "approved"
case_status_name CaseStatus.conditionally_approved = "conditionally_approved"
case_status_name CaseStatus.rejected = "rejected"
case_status_name run_failed = "run_failed"

-- `{status: 0 for status in CASE_TRANSITIONS}`
abbrev pub no_counts : Dict ℕ
no_counts =
    ("draft", 0)
    ∷ ("needs_info", 0)
    ∷ ("pending_review", 0)
    ∷ ("review_running", 0)
    ∷ ("pending_source_verification", 0)
    ∷ ("pending_feishu_approval", 0)
    ∷ ("approved", 0)
    ∷ ("conditionally_approved", 0)
    ∷ ("rejected", 0)
    ∷ ("run_failed", 0)
    ∷ []

abbrev pub no_risks : Dict ℕ
no_risks = ("high", 0) ∷ ("medium", 0) ∷ ("low", 0) ∷ ("insufficient_evidence", 0) ∷ []

-- `counts[key] = counts.get(key, 0) + 1`
abbrev pub bump : String → Dict ℕ → Dict ℕ
bump k d = put k (default_to 0 (get k d) + 1) d

-- `if risk in risks: risks[risk] += 1`
abbrev pub bump_risk : Option String → Dict ℕ → Dict ℕ
bump_risk none d = d
bump_risk (some k) d = if is_none (get k d) then d else bump k d

-- The two loops over the cases.
unfoldable pub count_statuses : List MemoryCase → Dict ℕ → Dict ℕ
count_statuses [] d = d
count_statuses (c ∷ cs) d = count_statuses cs (bump (case_status_name c.status) d)

unfoldable pub count_risks : List MemoryCase → Dict ℕ → Dict ℕ
count_risks [] d = d
count_risks (c ∷ cs) d = count_risks cs (bump_risk c.risk_level d)

-- `cases[:n]`
abbrev pub first_cases : ℕ → List MemoryCase → List MemoryCase
first_cases zero cs = []
first_cases (suc n) [] = []
first_cases (suc n) (c ∷ cs) = c ∷ first_cases n cs

pub record Dashboard : Type 0 where
  pub total_cases : ℕ
  pub status_counts : Dict ℕ
  pub risk_counts : Dict ℕ
  pub recent_cases : List MemoryCase

module _ (lower : String → String) where
  unfoldable pub dashboard_summary : UserRecord → CaseStore → Dashboard
  dashboard_summary user s =
      let cases = list_cases lower user none s in
      record {
        total_cases = length cases;
        status_counts = count_statuses cases no_counts;
        risk_counts = count_risks cases no_risks;
        recent_cases = first_cases 5 cases;
      }
