-- ===== src/Workflow/Lifecycle.antt =====
-- What the lifecycle of a case allows, over one change and over whole histories.
use crosscomply_agent.Prelude.{true, ◌≡◌, refl, ◌↔◌, ◌⊎◌, Option, some, arith, ok, err, value_error}
use crosscomply_agent.Workflow.{
  CaseStatus, draft, needs_info, pending_review, review_running, pending_source_verification,
  pending_feishu_approval, run_failed, TransitionAuthority, feishu, ApprovalDecision,
  case_status_eq, is_decided, feishu_terminal_status, validate_case_transition,
}

-- Two statuses with one position are one status.
eq_of_case_status_eq : (a b : CaseStatus) → case_status_eq a b ≡ true → a ≡ b
eq_of_case_status_eq a b h = ground arith

-- What may follow what, written without the table: the lifecycle as its documentation draws it.
pub data Follows : CaseStatus → CaseStatus → Type 0 where
  ask : Follows draft needs_info
  submit : Follows draft pending_review
  reopen : Follows needs_info draft
  resubmit : Follows needs_info pending_review
  resume : Follows needs_info review_running
  return : Follows pending_review needs_info
  start : Follows pending_review review_running
  lack_facts : Follows review_running needs_info
  lack_sources : Follows review_running pending_source_verification
  hand_over : Follows review_running pending_feishu_approval
  crash : Follows review_running run_failed
  sources_checked : Follows pending_source_verification review_running
  rerun : Follows run_failed review_running
  recover_facts : Follows run_failed needs_info
  recover_sources : Follows run_failed pending_source_verification
  recover_approval : Follows run_failed pending_feishu_approval

-- The three ways in which a change of status is accepted.
pub data IsPermitted (current target : CaseStatus) (authority : TransitionAuthority)
    (decision : Option ApprovalDecision) : Type 0 where
  stay : target ≡ current → IsPermitted current target authority decision
  move : Follows current target → IsPermitted current target authority decision
  decide :
      (d : ApprovalDecision)
      → current ≡ pending_feishu_approval
      → authority ≡ feishu
      → decision ≡ some d
      → target ≡ feishu_terminal_status d
      → IsPermitted current target authority decision

Follows-accepted :
    {c t : CaseStatus} (a : TransitionAuthority) (d : Option ApprovalDecision)
    → Follows c t
    → validate_case_transition c t a d ≡ ok t
unfolding validate_case_transition
Follows-accepted a d ask = refl
Follows-accepted a d submit = refl
Follows-accepted a d _ = refl

accepted_of_IsPermitted :
    (c t : CaseStatus) (a : TransitionAuthority) (d : Option ApprovalDecision)
    → IsPermitted c t a d
    → validate_case_transition c t a d ≡ ok t
accepted_of_IsPermitted c t a d (stay e) = unfold validate_case_transition in ground arith
accepted_of_IsPermitted c t a d (move f) = Follows-accepted a d f
accepted_of_IsPermitted c t a d (decide ApprovalDecision.approved h i j k) =
    unfold validate_case_transition in ground arith
accepted_of_IsPermitted c t a d (decide _ h i j k) = unfold validate_case_transition in ground arith

decided_IsPermitted :
    (t : CaseStatus) (a : TransitionAuthority) (d : Option ApprovalDecision)
    → is_decided t ≡ true
    → validate_case_transition pending_feishu_approval t a d ≡ ok t
    → IsPermitted pending_feishu_approval t a d
unfolding validate_case_transition
decided_IsPermitted t feishu (some d) m h = decide d refl refl refl (ground arith)
decided_IsPermitted t _ d m h = absurd (ground arith)

IsPermitted-of_accepted :
    (c t : CaseStatus) (a : TransitionAuthority) (d : Option ApprovalDecision)
    → validate_case_transition c t a d ≡ ok t
    → IsPermitted c t a d
IsPermitted-of_accepted draft needs_info a d h = move ask
IsPermitted-of_accepted draft pending_review a d h = move submit
IsPermitted-of_accepted needs_info draft a d h = move reopen
IsPermitted-of_accepted needs_info pending_review a d h = move resubmit
IsPermitted-of_accepted needs_info review_running a d h = move resume
IsPermitted-of_accepted pending_review needs_info a d h = move return
IsPermitted-of_accepted pending_review review_running a d h = move start
IsPermitted-of_accepted review_running needs_info a d h = move lack_facts
IsPermitted-of_accepted review_running pending_source_verification a d h = move lack_sources
IsPermitted-of_accepted review_running pending_feishu_approval a d h = move hand_over
IsPermitted-of_accepted review_running run_failed a d h = move crash
IsPermitted-of_accepted pending_source_verification review_running a d h = move sources_checked
IsPermitted-of_accepted run_failed review_running a d h = move rerun
IsPermitted-of_accepted run_failed needs_info a d h = move recover_facts
IsPermitted-of_accepted run_failed pending_source_verification a d h = move recover_sources
IsPermitted-of_accepted run_failed pending_feishu_approval a d h = move recover_approval
IsPermitted-of_accepted pending_feishu_approval CaseStatus.approved a d h =
    decided_IsPermitted CaseStatus.approved a d refl h
IsPermitted-of_accepted pending_feishu_approval CaseStatus.conditionally_approved a d h =
    decided_IsPermitted CaseStatus.conditionally_approved a d refl h
IsPermitted-of_accepted pending_feishu_approval CaseStatus.rejected a d h =
    decided_IsPermitted CaseStatus.rejected a d refl h
IsPermitted-of_accepted c t a d h =
    stay (unfold validate_case_transition in ground (arith, eq_of_case_status_eq t c))

-- A change of status is accepted exactly when it repeats the current status, is an arrow of the
-- lifecycle, or is a decision of the approval platform on a case that waits for it, with the
-- status that stands for that decision.
pub validate_iff :
    (c t : CaseStatus) (a : TransitionAuthority) (d : Option ApprovalDecision)
    → (validate_case_transition c t a d ≡ ok t) ↔ IsPermitted c t a d
validate_iff c t a d = (IsPermitted-of_accepted c t a d, accepted_of_IsPermitted c t a d)

-- An accepted change returns its target, and a refused one raises a ValueError.
pub validate_cases :
    (c t : CaseStatus) (a : TransitionAuthority) (d : Option ApprovalDecision)
    → (validate_case_transition c t a d ≡ ok t)
      ⊎ (validate_case_transition c t a d ≡ err value_error)
unfolding validate_case_transition
validate_cases c t a d = ground arith
