-- ===== src/Administration/Access.antt =====
-- Who may sign in, in law_agent/review/user_admin.py, after any administration.
use mathlib.Core.Path.{subst}
use crosscomply_agent.Prelude.{
  ℕ, String, Bool, true, false, not, none, some, ◌≡◌, sym, ◌∙◌, get, get-put_self, ok, ◌>>=◌,
  >>=-eq-ok, raise_if, is_none, duplicate_username_error, arith,
}
use crosscomply_agent.Administration.{
  ManagedUser, AdminStore, empty_admin, get_record, set_active, assign_role, reset_password,
  create_user, normalize_username, validate_display_name, validate_role, validate_password,
  authenticate_user, authenticate_indexed, admitted,
}
use crosscomply_agent.Administration.Consistent.{
  IsConsistent, admin_after, get_record-get, set_active-IsConsistent, assign_role-IsConsistent,
  reset_password-IsConsistent, create_user-IsConsistent,
}

pub data Event : Type 0 where
  create : (username display_name password role new_id : String) → Event
  activate : (user_id : String) → Bool → Event
  reset : (user_id password : String) → Event
  assign : (user_id role : String) → Event

module _ (lower hash_password : String → String) where
  unfoldable pub happen : ℕ → Event → AdminStore → AdminStore
  happen now (create n d p r id) s =
      admin_after s (create_user lower hash_password n d p r id now s)
  happen now (activate k a) s = admin_after s (set_active k a now s)
  happen now (reset k p) s = admin_after s (reset_password hash_password k p now s)
  happen now (assign k r) s = admin_after s (assign_role k r now s)

  -- `uuid4` gives a user an identifier that no user has.
  abbrev pub IsFresh : Event → AdminStore → Type 0
  IsFresh (create _ _ _ _ id) s = get id s.users ≡ none
  IsFresh _ s = Unit

  pub data Run (s : AdminStore) : AdminStore → Type 0 where
    start : Run s s
    next :
        {t u : AdminStore}
        → Run s t
        → (now : ℕ) (e : Event) → IsFresh e t
        → u ≡ happen now e t
        → Run s u

  happen-IsConsistent :
      (now : ℕ) (e : Event) (s : AdminStore)
      → IsFresh e s
      → IsConsistent s
      → IsConsistent (happen now e s)
  unfolding happen
  happen-IsConsistent now (create n d p r id) s f c =
      create_user-IsConsistent s c lower hash_password n d p r id now f
  happen-IsConsistent now (activate k a) s f c = set_active-IsConsistent s c k a now
  happen-IsConsistent now (reset k p) s f c = reset_password-IsConsistent s c hash_password k p now
  happen-IsConsistent now (assign k r) s f c = assign_role-IsConsistent s c k r now

  -- In every store that is reached from the empty one by any administration in any order, each name
  -- of the index leads to a stored user of that name, and each user's name leads back to them, so
  -- that no two users have one name.
  pub Run-IsConsistent : {s : AdminStore} → Run empty_admin s → IsConsistent s
  Run-IsConsistent start = record { indexed = λ name id e. cc; named = λ id r e. cc }
  Run-IsConsistent (next {t} r now e f eq) =
      subst IsConsistent (sym eq) (happen-IsConsistent now e t f (Run-IsConsistent r))

-- How a user whose name is normalised signs in.
authenticate_of_record :
    (lower : String → String) (verify : (password hash : String) → Bool)
    (name n password id : String) (r : ManagedUser × String) (s : AdminStore)
    → normalize_username lower name ≡ ok n
    → get n s.username_index ≡ some id
    → get id s.users ≡ some r
    → authenticate_user lower verify name password s ≡ ok (admitted lower verify password r)
unfolding authenticate_user authenticate_indexed
authenticate_of_record lower verify name n password id r s e f g =
    rw (e, ◌>>=◌) (ground (arith, f, g))

-- A user who was created signs in with their password, under any spelling of the name that is
-- normalised to theirs, if the hasher accepts what it hashed.
pub created_user_signs_in :
    (lower hash_password : String → String) (verify : (password hash : String) → Bool)
    (n d p role id name : String) (now : ℕ) (s s' : AdminStore) (u : ManagedUser)
    → verify p (hash_password p) ≡ true
    → create_user lower hash_password n d p role id now s ≡ ok (u, s')
    → normalize_username lower name ≡ ok u.username
    → authenticate_user lower verify name p s' ≡ ok (some u)
unfolding create_user admitted
created_user_signs_in lower hash verify n d p role id name now s s' u v h e =
    let (m, _, h1) = >>=-eq-ok (normalize_username lower n) _ h in
    let (shown, _, h2) = >>=-eq-ok (validate_display_name d) _ h1 in
    let (r, _, h3) = >>=-eq-ok (validate_role role) _ h2 in
    let (_, _, h4) = >>=-eq-ok (validate_password p) _ h3 in
    let (_, _, h5) =
      >>=-eq-ok (raise_if (not (is_none (get m s.username_index))) duplicate_username_error) _ h4 in
    authenticate_of_record lower verify name u.username p id (u, hash p) s' e
      (ground (arith, h5, get-put_self m id s.username_index))
      (ground (arith, h5, get-put_self id (u, hash p) s.users))
    ∙ ground (arith, h5, v)

-- A user who is deactivated does not sign in, whatever the password, in a store whose index agrees
-- with its users.
pub deactivated_user_is_refused :
    (lower : String → String) (verify : (password hash : String) → Bool) (k name password : String)
    (now : ℕ) (s s' : AdminStore) (u : ManagedUser)
    → IsConsistent s
    → set_active k false now s ≡ ok (u, s')
    → normalize_username lower name ≡ ok u.username
    → authenticate_user lower verify name password s' ≡ ok none
unfolding set_active admitted
deactivated_user_is_refused lower verify k name password now s s' u c h e =
    let (r, found, h1) = >>=-eq-ok (get_record k s) _ h in
    let g = c.named k r (get_record-get k s r found) in
    authenticate_of_record lower verify name u.username password k (u, r.1) s' e
      (ground (arith, h1, g)) (ground (arith, h1, get-put_self k (u, r.1) s.users))
    ∙ ground (arith, h1)
