-- ===== src/Tests/Administration.antt =====
-- The administration of users on concrete inputs (law_agent/review/user_admin.py).
use crosscomply_agent.Prelude.{
  String, Bool, true, false, none, some, ◌≡◌, refl, ◌==◌, ok, err, weak_password_error,
  duplicate_username_error,
}
use crosscomply_agent.Workflow.Strip.{strip, is_all_space}
use crosscomply_agent.Administration.{
  ManagedUser, AdminStore, empty_admin, get_record, set_active, assign_role, reset_password,
  create_user, normalize_username, validate_display_name, validate_role, validate_password,
  authenticate_user, authenticate_indexed, admitted,
}
use crosscomply_agent.Administration.Consistent.{IsConsistent}
use crosscomply_agent.Administration.Access.{
  Event, happen, start, next, Run-IsConsistent, created_user_signs_in, deactivated_user_is_refused,
}

administration : Unit {0}
unfolding happen get_record set_active assign_role reset_password create_user normalize_username
    validate_display_name validate_role validate_password authenticate_user authenticate_indexed
    admitted strip is_all_space
administration = tt

abbrev same : String → String
same s = s

abbrev verify : String → String → Bool
verify password hash = password == hash

abbrev with_ann : AdminStore
with_ann =
    happen same same 1 (Event.create " ann " "Ann" "correct horse battery" "admin" "u1") empty_admin

abbrev ann : ManagedUser
ann = record {
  id = "u1";
  username = "ann";
  display_name = "Ann";
  role = "admin";
  active = true;
  created_at = 1;
  updated_at = 1;
}

abbrev without_ann : AdminStore
without_ann = happen same same 2 (Event.activate "u1" false) with_ann

-- A short password and a name that is taken are refused.
refusals :
    (create_user same same "bob" "Bob" "short" "admin" "u2" 2 with_ann ≡ err weak_password_error)
    × (create_user same same "ann" "Ann" "correct horse battery" "admin" "u2" 2 with_ann
        ≡ err duplicate_username_error)
unfolding administration
refusals = (refl, refl)

Run-IsConsistent_example : IsConsistent without_ann
unfolding administration
Run-IsConsistent_example = Run-IsConsistent same same (
    next (next start 1 (Event.create " ann " "Ann" "correct horse battery" "admin" "u1") refl refl)
      2 (Event.activate "u1" false) tt refl)

created_user_signs_in_example :
    authenticate_user same verify "ann" "correct horse battery" with_ann ≡ ok (some ann)
unfolding administration
created_user_signs_in_example =
    created_user_signs_in same same verify " ann " "Ann" "correct horse battery" "admin" "u1" "ann"
      1 empty_admin with_ann ann refl refl refl

deactivated_user_is_refused_example :
    authenticate_user same verify "ann" "correct horse battery" without_ann ≡ ok none
unfolding administration
deactivated_user_is_refused_example =
    deactivated_user_is_refused same verify "u1" "ann" "correct horse battery" 2 with_ann
      without_ann (record ann { active = false; updated_at = 2 })
      (Run-IsConsistent same same
        (next start 1 (Event.create " ann " "Ann" "correct horse battery" "admin" "u1") refl refl))
      refl refl
