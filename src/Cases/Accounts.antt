-- ===== src/Cases/Accounts.antt =====
-- Users and sessions, in law_agent/review/case_store.py. The password hasher (argon2) and Python's
-- `str.lower` are parameters; a token and the clock are arguments.
use text.Mathlib.Text.{is_lt}
use Prim.Native.String.{compare}
use crosscomply_agent.Prelude.{
  ℕ, ◌+◌, ◌*◌, String, Bool, ◌&&◌, ◌||◌, Option, none, some, List, [], ◌∷◌, map, ◌==◌, leb, find,
  option_map, Dict, get, put, values, Result, ok, err, key_error, if◌then◌else◌,
}
use crosscomply_agent.Prelude.Sort.{sorted}
use crosscomply_agent.Workflow.Strip.{strip}
use crosscomply_agent.Cases.Records.{UserRole, UserRecord, CaseStore, empty_cases}

-- `d.pop(key, None)`
abbrev pub remove {ℓ} : {V : Type ℓ} → String → Dict V → Dict V
remove k [] = []
remove k ((j, v) ∷ d) = let rest = remove k d in if j == k then rest else (j, v) ∷ rest

module _ (hash_password : String → String) where
  -- `self.users[username] = (user, hasher.hash(seed_password))`
  abbrev pub seed :
      (id username display_name : String)
      → UserRole
      → (seed_password : String) → CaseStore
      → CaseStore
  seed id username display_name role seed_password s = record s {
    users =
        put username
          (
            record { id = id; username = username; display_name = display_name; role = role },
            hash_password seed_password,
          )
          s.users;
  }

  -- `InMemoryCaseStore(seed_password)`, with the identifiers that it draws.
  unfoldable pub new_store : (seed_password id1 id2 id3 : String) → CaseStore
  new_store seed_password id1 id2 id3 =
      seed id3 "admin@crosscomply.local" "系统管理员" UserRole.admin seed_password (
        seed id2 "reviewer@crosscomply.local" "合规审核人" UserRole.reviewer seed_password (
          seed id1 "requester@crosscomply.local" "业务申请人" UserRole.requester seed_password
            empty_cases))

module _ (verify : (password hash : String) → Bool) (lower : String → String) where
  unfoldable pub authenticate : (username password : String) → CaseStore → Option UserRecord
  authenticate username password s = elim (get (lower (strip username)) s.users) [
    | none ↦ none
    | some (user, hash) ↦ if verify password hash then some user else none
  ]

unfoldable pub get_user : String → CaseStore → Option UserRecord
get_user user_id s = option_map (λ r. r.0) (find (λ r. r.0.id == user_id) (values s.users))

-- The token, the time at which it ends, and the store.
unfoldable pub create_session :
    (user_id : String) (ttl_hours : ℕ) (token : String) (now : ℕ)
    → CaseStore
    → Result ((String × ℕ) × CaseStore)
create_session user_id ttl_hours token now s = elim (get_user user_id s) [
  | none ↦ err key_error
  | some user ↦ ok (
    (token, now + ttl_hours * 3600),
    record s { sessions = put token (user, now + ttl_hours * 3600) s.sessions },
  )
]

-- A session that has ended is removed.
unfoldable pub get_user_by_session :
    (token : String) (now : ℕ) → CaseStore → Option UserRecord × CaseStore
get_user_by_session token now s = elim (get token s.sessions) [
  | none ↦ (none, s)
  | some (user, expires) ↦
      if leb expires now
      then (none, record s { sessions = remove token s.sessions })
      else (some user, s)
]

unfoldable pub delete_session : String → CaseStore → CaseStore
delete_session token s = record s { sessions = remove token s.sessions }

-- The key `(display_name, username)` of `a` is smaller than that of `b`.
abbrev pub is_named_before : UserRecord → UserRecord → Bool
is_named_before a b =
    is_lt (compare a.display_name b.display_name)
    || a.display_name == b.display_name && is_lt (compare a.username b.username)

unfoldable pub list_assignable_users : CaseStore → List UserRecord
list_assignable_users s = sorted is_named_before (map (λ r. r.0) (values s.users))
