-- ===== src/Cases/Sessions.antt =====
-- The life of a session, in law_agent/review/case_store.py.
use crosscomply_agent.Prelude.{
  ℕ, ◌+◌, ◌*◌, ◌<◌, ◌≤◌, String, none, some, [], ◌∷◌, ◌≡◌, refl, ap, ◌∙◌, Dict, get, get-put_self,
  ok, arith, Option-cases, inl, inr, if◌then◌else◌, leb,
}
use crosscomply_agent.Cases.Records.{UserRecord, CaseStore}
use crosscomply_agent.Cases.Accounts.{get_user, create_session, get_user_by_session, remove}

get-remove : {V : Type 0} (k : String) (d : Dict V) → get k (remove k d) ≡ none
get-remove k [] = refl
get-remove k ((j, v) ∷ d) = ground (arith, get-remove k d)

find_session :
    (token : String) (user : UserRecord) (expires now : ℕ) (s : CaseStore)
    → get token s.sessions ≡ some (user, expires)
    → get_user_by_session token now s ≡ (
        if leb expires now
        then (none, record s { sessions = remove token s.sessions })
        else (some user, s))
unfolding get_user_by_session
find_session token user expires now s h = ground (arith, h)

no_session :
    (token : String) (now : ℕ) (s : CaseStore)
    → get token s.sessions ≡ none
    → (get_user_by_session token now s).0 ≡ none
unfolding get_user_by_session
no_session token now s h = ground (arith, h)

-- A session names its user until it ends, and nobody after: once created for `ttl_hours`, it gives
-- the user at each time before its end and is kept; at any time from its end on it gives none, and
-- is gone, so that every later question gives none too.
pub create_session_lem :
    (user_id token : String) (ttl_hours now later again : ℕ) (s s' : CaseStore) (r : String × ℕ)
    → create_session user_id ttl_hours token now s ≡ ok (r, s')
    → (later < now + ttl_hours * 3600
        → get_user_by_session token later s' ≡ (get_user user_id s, s'))
      × (now + ttl_hours * 3600 ≤ later
          → ((get_user_by_session token later s').0 ≡ none)
            × ((get_user_by_session token again (get_user_by_session token later s').1).0 ≡ none))
unfolding create_session
create_session_lem user_id token ttl_hours now later again s s' r h =
    elim (Option-cases (get_user user_id s)) [
      | inl e ↦ absurd (ground (arith, e, h))
      | inr (user, e) ↦
          let expires = now + ttl_hours * 3600 in
          let there : get token s'.sessions ≡ some (user, expires) =
            ground (arith, e, h, get-put_self token (user, expires) s.sessions) in
          (
            λ l. find_session token user expires later s' there ∙ ground (arith, e),
            λ l.
                let ended : get_user_by_session token later s'
                    ≡ (none, record s' { sessions = remove token s'.sessions }) =
                  find_session token user expires later s' there ∙ ground arith in
                (
                  ap (λ x. x.0) ended,
                  ap (λ x. (get_user_by_session token again x.1).0) ended
                      ∙ no_session token again (record s' { sessions = remove token s'.sessions })
                          (get-remove token s'.sessions),
                ),
          )
    ]
