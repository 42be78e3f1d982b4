-- ===== src/Administration/Consistent.antt =====
-- The index of usernames agrees with the users (law_agent/review/user_admin.py).
use mathlib.Core.Path.{subst}
use crosscomply_agent.Prelude.{
  ℕ, String, Bool, true, false, not, Option, none, some, ◌≡◌, refl, sym, ap, ◌∙◌, ◌==◌, eq_iff,
  eq_refl, get, put, get-put, Result, ok, err, ◌>>=◌, raise_if, raise_if-ok, is_none,
  duplicate_username_error, arith, Option-cases, Bool-cases, inl, inr,
}
use crosscomply_agent.Administration.{
  ManagedUser, AdminStore, get_record, set_active, assign_role, reset_password, create_user,
  normalize_username, validate_display_name, validate_role, validate_password,
}

-- An entry of the index leads to a user of that name, and a user's name leads back to them.
pub record IsConsistent (s : AdminStore) : Type 0 where
  pub indexed :
      (name id : String)
      → get name s.username_index ≡ some id
      → (r : ManagedUser × String) × (get id s.users ≡ some r) × (r.0.username ≡ name)
  pub named :
      (id : String) (r : ManagedUser × String)
      → get id s.users ≡ some r
      → get r.0.username s.username_index ≡ some id

abbrev pub admin_after {ℓ} : {A : Type ℓ} → AdminStore → Result (A × AdminStore) → AdminStore
admin_after s (ok (a, t)) = t
admin_after s (err e) = s

pub admin_after_bind {ℓ κ ℓ'} :
    {A : Type ℓ} {B : Type κ} (P : AdminStore → Type ℓ') (s : AdminStore) (m : Result A)
    (f : A → Result (B × AdminStore))
    → P s
    → ((a : A) → m ≡ ok a → P (admin_after s (f a)))
    → P (admin_after s (m >>= f))
admin_after_bind P s (ok a) f h k = k a refl
admin_after_bind P s (err e) f h k = h

pub get_record-get :
    (k : String) (s : AdminStore) (r : ManagedUser × String)
    → get_record k s ≡ ok r
    → get k s.users ≡ some r
unfolding get_record
get_record-get k s r h = elim (Option-cases (get k s.users)) [
  | inl e ↦ ground (arith, e)
  | inr (v, e) ↦ ground (arith, e)
]

-- A user is changed, but neither their name nor their key.
save-IsConsistent :
    (k : String) (r w : ManagedUser × String) (s : AdminStore)
    → IsConsistent s
    → get k s.users ≡ some r
    → w.0.username ≡ r.0.username
    → IsConsistent (record s { users = put k w s.users })
save-IsConsistent k r w s c g same = record {
  indexed = λ name id e.
      let (v, f, n) = c.indexed name id e in
      elim (Bool-cases (k == id)) [
        | inl b ↦
            let one : r ≡ v = cc (sym g ∙ ap (λ i. get i s.users) ((eq_iff k id).0 b) ∙ f) in
            (w, get-put k id w s.users ∙ rw b refl, same ∙ ap (λ x. x.0.username) one ∙ n)
        | inr b ↦ (v, get-put k id w s.users ∙ rw b f, n)
      ];
  named = λ id v e. elim (Bool-cases (k == id)) [
    | inl b ↦
        let there : get id (put k w s.users) ≡ some w = get-put k id w s.users ∙ rw b refl in
        let one : w ≡ v = cc (sym there ∙ e) in
        ap (λ n. get n s.username_index) (sym (ap (λ x. x.0.username) one) ∙ same)
        ∙ c.named k r g
        ∙ ap some ((eq_iff k id).0 b)
    | inr b ↦
        let there : get id (put k w s.users) ≡ get id s.users =
          get-put k id w s.users ∙ rw b refl in
        c.named id v (sym there ∙ e)
  ];
}

-- A new user under a name and an identifier that are new.
create-IsConsistent :
    (id : String) (r : ManagedUser × String) (s : AdminStore)
    → IsConsistent s
    → get id s.users ≡ none
    → get r.0.username s.username_index ≡ none
    → IsConsistent (record s {
      users = put id r s.users;
      username_index = put r.0.username id s.username_index;
    })
create-IsConsistent id r s c f g = record {
  indexed = λ name j e. elim (Bool-cases (r.0.username == name)) [
    | inl b ↦
        let there : get name (put r.0.username id s.username_index) ≡ some id =
          get-put r.0.username name id s.username_index ∙ rw b refl in
        let one : id ≡ j = cc (sym there ∙ e) in
        (
          r,
          get-put id j r s.users ∙ rw (subst (λ x. (id == x) ≡ true) one (eq_refl id)) refl,
          (eq_iff r.0.username name).0 b,
        )
    | inr b ↦
        let there : get name (put r.0.username id s.username_index) ≡ get name s.username_index =
          get-put r.0.username name id s.username_index ∙ rw b refl in
        let (v, h, n) = c.indexed name j (sym there ∙ e) in
        (v, get-put id j r s.users ∙ ground (arith, eq_iff id j, f, h), n)
  ];
  named = λ j v e. elim (Bool-cases (id == j)) [
    | inl b ↦
        let there : get j (put id r s.users) ≡ some r = get-put id j r s.users ∙ rw b refl in
        let one : r ≡ v = cc (sym there ∙ e) in
        get-put r.0.username v.0.username id s.username_index
        ∙ rw (subst (λ x. (r.0.username == x.0.username) ≡ true) one (eq_refl r.0.username))
            (ap some ((eq_iff id j).0 b))
    | inr b ↦
        let there : get j (put id r s.users) ≡ get j s.users = get-put id j r s.users ∙ rw b refl in
        let h = c.named j v (sym there ∙ e) in
        get-put r.0.username v.0.username id s.username_index
        ∙ ground (arith, eq_iff r.0.username v.0.username, g, h)
  ];
}

absent : (o : Option String) → not (is_none o) ≡ false → o ≡ none
absent o h = ground arith

module _ (s : AdminStore) (c : IsConsistent s) where
  pub set_active-IsConsistent :
      (k : String) (a : Bool) (now : ℕ) → IsConsistent (admin_after s (set_active k a now s))
  unfolding set_active
  set_active-IsConsistent k a now =
      admin_after_bind IsConsistent s (get_record k s) _ c
        λ r e. save-IsConsistent k r _ s c (get_record-get k s r e) refl

  pub assign_role-IsConsistent :
      (k role : String) (now : ℕ) → IsConsistent (admin_after s (assign_role k role now s))
  unfolding assign_role
  assign_role-IsConsistent k role now =
      admin_after_bind IsConsistent s (validate_role role) _ c λ v _.
        admin_after_bind IsConsistent s (get_record k s) _ c
          λ r e. save-IsConsistent k r _ s c (get_record-get k s r e) refl

  pub reset_password-IsConsistent :
      (hash_password : String → String) (k p : String) (now : ℕ)
      → IsConsistent (admin_after s (reset_password hash_password k p now s))
  unfolding reset_password
  reset_password-IsConsistent hash k p now =
      admin_after_bind IsConsistent s (validate_password p) _ c λ _ _.
        admin_after_bind IsConsistent s (get_record k s) _ c
          λ r e. save-IsConsistent k r _ s c (get_record-get k s r e) refl

  pub create_user-IsConsistent :
      (lower hash_password : String → String) (n d p role id : String) (now : ℕ)
      → get id s.users ≡ none
      → IsConsistent (admin_after s (create_user lower hash_password n d p role id now s))
  unfolding create_user
  create_user-IsConsistent lower hash n d p role id now f =
      admin_after_bind IsConsistent s (normalize_username lower n) _ c λ name _.
        admin_after_bind IsConsistent s (validate_display_name d) _ c λ shown _.
          admin_after_bind IsConsistent s (validate_role role) _ c λ r _.
            admin_after_bind IsConsistent s (validate_password p) _ c λ _ _.
              admin_after_bind IsConsistent s
                (raise_if (not (is_none (get name s.username_index))) duplicate_username_error) _ c
                λ u e. create-IsConsistent id _ s c f (
                  absent (get name s.username_index) (
                    raise_if-ok (not (is_none (get name s.username_index))) duplicate_username_error
                      e))
