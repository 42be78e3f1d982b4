-- ===== src/Assessment/Guided.antt =====
-- `guided_actions_from_review` of law_agent/review/remediation.py: the tasks that a review leaves.
--
-- The keys of a review result that workflow.py reads are `ReviewResult`, the others
-- `ReviewDetails`. SHA-256 and `str.casefold` are parameters.
use Prim.Native.Char.{code}
use Prim.Native.String.{[] as empty, ◌∷◌ as ◌&◌, ◌++◌ as ◌+++◌}
use crosscomply_agent.Prelude.{
  ℕ, suc, String, Bool, true, false, not, ◌&&◌, ◌||◌, Option, none, some, List, [], ◌∷◌, ◌++◌, ◌==◌,
  ◌!=◌, ltb, map, select, any, Dict, get, put, if◌then◌else◌, option_map,
}
use crosscomply_agent.Prelude.Sort.{sorted}
use crosscomply_agent.Workflow.{ReviewResult}
use crosscomply_agent.Workflow.Strip.{is_space, strip}
use crosscomply_agent.Remediation.Records.{TaskData}
use crosscomply_agent.Remediation.Tasks.{option_or, text_or, starts_with}
use crosscomply_agent.Assessment.Text.{take}
use crosscomply_agent.Assessment.Packet.{is_in}

pub record ReviewIssue : Type 0 where
  pub id : Option String
  pub kind : Option String
  pub title : Option String
  pub finding : Option String
  pub recommended_action : Option String
  pub unknowns : List String
  pub answer_type : Option String

pub record ReviewDetails : Type 0 where
  pub review_result_id : Option String
  pub issues : List ReviewIssue
  pub missing_answer_types : Dict String
  pub recommended_actions : List String

-- `re.sub(r"\s+", " ", text)`; the flag says that the character before was white space.
unfoldable pub single_spaced : Bool → String → String
unfolding is_space
single_spaced after empty = ""
single_spaced after (c & s) =
    let space = is_space (code c) in
    let rest = single_spaced space s in
    if space then (if after then rest else " " & rest) else c & rest

-- `re.sub(r"\s+", "", text)`
unfoldable pub without_spaces : String → String
unfolding is_space
without_spaces empty = ""
without_spaces (c & s) = let rest = without_spaces s in if is_space (code c) then rest else c & rest

-- `dict.fromkeys(xs)`: each text once, where it first stands.
abbrev pub unique_from : List String → List String → List String
unique_from seen [] = []
unique_from seen (x ∷ xs) =
    let rest = unique_from (x ∷ seen) xs in if is_in seen x then rest else x ∷ rest

abbrev pub unique : List String → List String
unique xs = unique_from [] xs

-- The stripped questions that are not empty and no restated gap.
unfoldable pub open_questions : ReviewResult → List String
open_questions r =
    select (λ q. q != "" && not (is_in (map strip r.legal_basis_gaps) q))
      (map strip r.missing_information)

abbrev pub kind_of : ReviewIssue → String
kind_of i = text_or i.kind ""

-- `fact_issues_by_question`: the issue that asks a question; of two the later counts.
abbrev pub put_questions :
    List String → ReviewIssue → List String → Dict ReviewIssue → Dict ReviewIssue
put_questions missing i [] d = d
put_questions missing i (q ∷ qs) d =
    put_questions missing i qs (if is_in missing (strip q) then put (strip q) i d else d)

abbrev pub asks : ReviewIssue → Bool
asks i = kind_of i == "material_conflict" || kind_of i == "missing_information"

unfoldable pub fact_issues : List String → List ReviewIssue → Dict ReviewIssue → Dict ReviewIssue
fact_issues missing [] d = d
fact_issues missing (i ∷ rest) d =
    fact_issues missing rest (if asks i then put_questions missing i i.unknowns d else d)

-- `answer_type if answer_type in {"choice", "count", "text"} else None`
abbrev pub known_answer_type : Option String → Option String
known_answer_type a =
    if text_or a "" == "choice" || text_or a "" == "count" || text_or a "" == "text"
    then a
    else none

-- The recommendations that are carried out after approval begin with one of these.
abbrev pub later_prefixes : List String
later_prefixes = "获批后" ∷ "批准后" ∷ "上线后" ∷ "运行期间" ∷ "运营期间" ∷ "定期" ∷ []

abbrev pub is_for_later : String → Bool
is_for_later text = any (λ p. starts_with p text) later_prefixes

-- The order of the kinds.
abbrev pub kind_rank : String → ℕ
kind_rank kind =
    if kind == "fact_confirmation" then 0 else if kind == "control_remediation" then 1 else 2

abbrev pub rank_of : TaskData → ℕ
rank_of t = kind_rank (text_or t.task_kind "")

module _ (sha256 casefold : String → String) where
  abbrev pub action_key : (kind text : String) → String
  action_key kind text =
      kind
      +++ (":"
          +++ take 24 (sha256 (kind +++ (":" +++ casefold (strip (single_spaced false text))))))

  -- `add_action`, with the keywords that the three callers give.
  abbrev pub new_action :
      (result_id requester_id : Option String)
      → (kind title description criteria source_key_text : String)
      → (source_issue_id : Option String) (recommendation : Option (ℕ × String))
      → (blocking : Bool) (phase : String) (answer_type : Option String) → TaskData
  new_action result_id requester_id kind title description criteria key issue recommendation
        blocking phase answer_type =
      record {
        id = none;
        title = take 200 title;
        description = some (take 2000 description);
        acceptance_criteria = some (take 2000 criteria);
        source_recommendation_index = some (option_map (λ r. r.0) recommendation);
        source_recommendation = some (option_map (λ r. r.1) recommendation);
        source_review_result_id = some result_id;
        source_issue_id = some issue;
        task_kind = some kind;
        answer_type = some (
            text_or answer_type
              (if kind == "fact_confirmation" then "choice" else "control_status"));
        phase = some phase;
        blocking = some blocking;
        source_key = some (action_key kind key);
        assignee_id = requester_id;
        priority = some (if blocking then "high" else "medium");
        due_date = none;
      }

  module _ (result : ReviewResult) (details : ReviewDetails) (requester_id : Option String) where
    -- The first loop: an issue that is a legal gap asks for a control.
    unfoldable pub control_action : ReviewIssue → TaskData
    control_action i =
        let title = text_or i.title "请处理审查问题" in
        new_action details.review_result_id requester_id "control_remediation" title
          (text_or i.finding "") (text_or i.recommended_action "请补充说明并提交相关材料。")
          ("legal_gap:" +++ title) i.id none true "pre_approval" none

    abbrev pub control_actions : List TaskData
    control_actions = map control_action (select (λ i. kind_of i == "legal_gap") details.issues)

    -- The second loop: an open question asks for a fact, in the words of the issue that asks it.
    unfoldable pub fact_action : Option ReviewIssue → String → TaskData
    fact_action found question =
        new_action details.review_result_id requester_id "fact_confirmation" question
          (text_or (elim found [ none ↦ none | some i ↦ i.finding ]) "本轮审查仍需要申报人补充这项事实。")
          ("明确回答“" +++ (question +++ "”；如有可核对的材料，请一并上传或引用。")) ("missing_information:" +++ question)
          (elim found [ none ↦ none | some i ↦ i.id ]) none true "pre_approval"
          (known_answer_type (
            option_or (get question details.missing_answer_types)
              (elim found [ none ↦ none | some i ↦ i.answer_type ])))

    unfoldable pub fact_actions : List TaskData
    fact_actions =
        map (λ q. fact_action (get q (fact_issues (open_questions result) details.issues [])) q)
          (unique (open_questions result))

    -- The third loop: a recommendation that is new and for later, with its place in the list.
    unfoldable pub later_action : ℕ → String → TaskData
    later_action index recommendation =
        new_action details.review_result_id requester_id "recommendation" recommendation
          "审查报告中的后续建议。" recommendation
          ("recommendation:" +++ casefold (without_spaces recommendation)) none
          (some (index, recommendation)) false "post_approval" none

    unfoldable pub later_actions_from : ℕ → List String → List String → List TaskData
    later_actions_from index seen [] = []
    later_actions_from index seen (x ∷ xs) =
        let text = strip x in
        let normalized = casefold (without_spaces text) in
        let skipped = text == "" || is_in seen normalized in
        let rest =
          later_actions_from (suc index) (if skipped then seen else normalized ∷ seen) xs in
        if skipped || not (is_for_later text) then rest else later_action index text ∷ rest

    unfoldable pub guided_actions_from_review : List TaskData
    guided_actions_from_review =
        sorted (λ a b. ltb (rank_of a) (rank_of b))
          (control_actions ++ (fact_actions ++ later_actions_from 0 [] details.recommended_actions))
