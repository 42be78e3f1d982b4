-- ===== src/Tests/Cases.antt =====
-- Accounts, cases and the dashboard on concrete inputs (law_agent/review/case_store.py).
use mathlib.Core.List.{Perm}
use crosscomply_agent.Prelude.{
  String, none, some, [], ◌∷◌, ◌==◌, ◌≡◌, refl, get, values, length, ◌++◌, List, All,
}
use crosscomply_agent.Workflow.{needs_info}
use crosscomply_agent.Workflow.Strip.{strip}
use crosscomply_agent.Cases.Records.{MemoryCase, UserRole, UserRecord, CaseStore}
use crosscomply_agent.Cases.Accounts.{
  new_store, authenticate, get_user, create_session, get_user_by_session, delete_session,
}
use crosscomply_agent.Cases.Files.{CaseData, create_case, list_cases}
use crosscomply_agent.Cases.Dashboard.{
  dashboard_summary, count_statuses, count_risks, case_status_name,
}
use crosscomply_agent.Cases.Views.{
  CanSee, IsNewestFirst, list_cases_lem, dashboard_summary_counts, with_status,
}

cases : Unit {0}
unfolding new_store authenticate get_user create_session get_user_by_session delete_session
    create_case list_cases dashboard_summary count_statuses count_risks strip
cases = tt

abbrev same : String → String
same s = s

abbrev seeded : CaseStore
unfolding cases
seeded = new_store same "secret" "u1" "u2" "u3"

abbrev given : String → CaseData
given by = record {
  id = none;
  case_number = none;
  title = none;
  question = "May we transfer data?";
  material_text = "";
  material_source = none;
  intake = none;
  status = some needs_info;
  rerank_mode = none;
  created_by = by;
  owner_id = none;
  facts_confirmed = none;
}

abbrev filled : CaseStore
unfolding cases
filled = (create_case (given "u2") "c2" "n2" 2 (create_case (given "u1") "c1" "n1" 1 seeded).1).1

abbrev ann : UserRecord
ann = record {
  id = "u1";
  username = "requester@crosscomply.local";
  display_name = "业务申请人";
  role = UserRole.requester;
}

-- A requester sees their own case only; the password is checked.
seen :
    (length (list_cases same ann none filled) ≡ 1)
    × (authenticate (λ p h. p == h) same " requester@crosscomply.local " "secret" seeded ≡ some ann)
    × (authenticate (λ p h. p == h) same "requester@crosscomply.local" "guess" seeded ≡ none)
unfolding cases
seen = (refl, refl, refl)

abbrev in_session : CaseStore
unfolding cases
in_session = record seeded { sessions = ("token", (ann, 7200)) ∷ [] }

list_cases_example :
    (others : List MemoryCase) × Perm
      (list_cases same ann none filled ++ others)
      (values filled.cases)
    × All (CanSee ann) (list_cases same ann none filled)
    × All (λ c. CanSee ann c → ⊥) others
    × IsNewestFirst (list_cases same ann none filled)
list_cases_example = list_cases_lem same ann filled

dashboard_summary_counts_example :
    (get (case_status_name needs_info) (dashboard_summary same ann filled).status_counts
      ≡ some (length (with_status needs_info (list_cases same ann none filled))))
    × ((dashboard_summary same ann filled).total_cases ≡ length (list_cases same ann none filled))
dashboard_summary_counts_example = dashboard_summary_counts same ann filled needs_info
