-- ===== src/Administration.antt =====
-- law_agent/review/user_admin.py: the administration of users, in InMemoryUserAdminStore. The
-- password hasher and Python's `str.lower` are parameters; identifiers and the clock are arguments.
pub mod Consistent
pub mod Access
use text.Mathlib.Text.{is_lt}
use Prim.Native.String.{compare, [] as empty, ◌∷◌ as ◌&◌}
use crosscomply_agent.Prelude.{
  ℕ, suc, String, Bool, true, false, not, ◌&&◌, ◌||◌, Option, none, some, List, [], ◌∷◌, map, ◌==◌,
  ltb, is_none, option_map, any, Dict, get, put, values, Result, ok, err, user_admin_error,
  duplicate_username_error, invalid_role_error, weak_password_error, user_not_found_error,
  key_error, item, raise_if, ◌>>=◌, ◌>>◌, if◌then◌else◌,
}
use crosscomply_agent.Prelude.Sort.{sorted}
use crosscomply_agent.Workflow.Strip.{strip, is_all_space}

pub record ManagedUser : Type 0 where
  pub id : String
  pub username : String
  pub display_name : String
  pub role : String
  pub active : Bool
  pub created_at : ℕ
  pub updated_at : ℕ

-- The attributes of the store: a user stands beside the hash of their password.
pub record AdminStore : Type 0 where
  pub users : Dict (ManagedUser × String)
  pub username_index : Dict String

abbrev pub empty_admin : AdminStore
empty_admin = record { users = []; username_index = [] }

-- `VALID_ROLES`
abbrev pub valid_roles : List String
valid_roles = "requester" ∷ "reviewer" ∷ "admin" ∷ []

unfoldable pub validate_display_name : String → Result String
validate_display_name display_name = do
  raise_if (strip display_name == "") user_admin_error
  ok (strip display_name)

unfoldable pub validate_role : String → Result String
validate_role role = do
  raise_if (not (any (λ r. r == role) valid_roles)) invalid_role_error
  ok role

-- `len(text)`
abbrev pub characters : String → ℕ
characters empty = 0
characters (c & s) = suc (characters s)

unfoldable pub validate_password : String → Result (Unit {0})
validate_password password =
    raise_if (ltb (characters password) 12 || is_all_space password) weak_password_error

-- `_get_record`
unfoldable pub get_record : String → AdminStore → Result (ManagedUser × String)
get_record user_id s = elim (get user_id s.users) [
  | none ↦ err user_not_found_error
  | some r ↦ ok r
]

abbrev pub save_user : ManagedUser → String → String → AdminStore → ManagedUser × AdminStore
save_user user password_hash user_id s =
    (user, record s { users = put user_id (user, password_hash) s.users })

abbrev pub is_username_before : ManagedUser → ManagedUser → Bool
is_username_before a b = is_lt (compare a.username b.username)

unfoldable pub list_users : AdminStore → List ManagedUser
list_users s = sorted is_username_before (map (λ r. r.0) (values s.users))

unfoldable pub find_user : String → AdminStore → Option ManagedUser
find_user user_id s = option_map (λ r. r.0) (get user_id s.users)

unfoldable pub set_active :
    String → Bool → (now : ℕ) → AdminStore → Result (ManagedUser × AdminStore)
set_active user_id active now s = do
  r ← get_record user_id s
  ok (save_user (record r.0 { active = active; updated_at = now }) r.1 user_id s)

unfoldable pub assign_role :
    String → (role : String) (now : ℕ) → AdminStore → Result (ManagedUser × AdminStore)
assign_role user_id role now s = do
  validated_role ← validate_role role
  r ← get_record user_id s
  ok (save_user (record r.0 { role = validated_role; updated_at = now }) r.1 user_id s)

module _ (lower : String → String) where
  unfoldable pub normalize_username : String → Result String
  normalize_username username = do
    raise_if (lower (strip username) == "") user_admin_error
    ok (lower (strip username))

  module _ (hash_password : String → String) where
    unfoldable pub create_user :
        (username display_name password role new_id : String) (now : ℕ)
        → AdminStore
        → Result (ManagedUser × AdminStore)
    create_user username display_name password role new_id now s = do
      normalized_username ← normalize_username username
      normalized_display_name ← validate_display_name display_name
      validated_role ← validate_role role
      validate_password password
      raise_if (not (is_none (get normalized_username s.username_index))) duplicate_username_error
      let user : ManagedUser = record {
        id = new_id;
        username = normalized_username;
        display_name = normalized_display_name;
        role = validated_role;
        active = true;
        created_at = now;
        updated_at = now;
      }
      ok (
        user,
        record s {
          users = put new_id (user, hash_password password) s.users;
          username_index = put normalized_username new_id s.username_index;
        },
      )

  module _ (verify : (password hash : String) → Bool) where
    -- The user behind an index entry, if they are active and the password is theirs.
    unfoldable pub admitted : (password : String) → ManagedUser × String → Option ManagedUser
    admitted password r = if not r.0.active || not (verify password r.1) then none else some r.0

    unfoldable pub authenticate_indexed :
        Option String → (password : String) → AdminStore → Result (Option ManagedUser)
    authenticate_indexed none password s = ok none
    authenticate_indexed (some user_id) password s = do
      r ← item user_id s.users
      ok (admitted password r)

    unfoldable pub authenticate_user :
        (username password : String) → AdminStore → Result (Option ManagedUser)
    authenticate_user username password s = do
      name ← normalize_username username
      authenticate_indexed (get name s.username_index) password s

module _ (hash_password : String → String) where
  unfoldable pub reset_password :
      String → (password : String) (now : ℕ) → AdminStore → Result (ManagedUser × AdminStore)
  reset_password user_id password now s = do
    validate_password password
    r ← get_record user_id s
    ok (save_user (record r.0 { updated_at = now }) (hash_password password) user_id s)
