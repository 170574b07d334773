-- ===== src/Auth/Handlers/Revocation.antt =====
-- What revocation and logout end, and what an authenticated request has shown:
-- crates/ppb-server/src/auth/session.rs, routes.rs and middleware/auth.rs.
use phira_plus_backend.Prelude.{
  ℕ, ◌≤◌, ◌≡◌, refl, ap, String, true, false, not, ◌||◌, none, some, List, [], ◌∷◌, nat_eq,
  nat_beq_iff, string_eq, every, count_where, arith, Bool-cases, inl, inr,
}
use phira_plus_backend.ErrorCode.{session_expired}
use phira_plus_backend.ApiError.{ok, err, api_error}
use phira_plus_backend.Auth.{
  AccessClaims, TokenLibrary, Request, Session, is_active, has_sid, has_hash, belongs_to,
  find_active_by_refresh_hash, revoked, revoke, revoke_all_for_user, is_live, claims_of, check_live,
  authenticate, authenticate_optional, principal_of_claims, get_cookie, refresh_cookie,
}
use phira_plus_backend.Auth.Handlers.{AuthDb, refresh, logout, revoke_found}

is_live-revoke_all :
    (now later uid sid : ℕ) (sessions : List Session)
    → every (λ s. not (has_sid sid s) || belongs_to uid s) sessions ≡ true
    → is_live later sid (revoke_all_for_user now uid sessions) ≡ false
unfolding revoke_all_for_user revoked
is_live-revoke_all now later uid sid [] h = refl
is_live-revoke_all now later uid sid (s ∷ sessions) h =
    ground (arith, h, is_live-revoke_all now later uid sid sessions)

find-revoke_all :
    (now later uid : ℕ) (hash : String) (sessions : List Session)
    → every (λ s. not (has_hash hash s) || belongs_to uid s) sessions ≡ true
    → find_active_by_refresh_hash later hash (revoke_all_for_user now uid sessions) ≡ none
unfolding revoke_all_for_user revoked find_active_by_refresh_hash
find-revoke_all now later uid hash [] h = refl
find-revoke_all now later uid hash (s ∷ sessions) h =
    ground (arith, h, find-revoke_all now later uid hash sessions)

authenticate-dead :
    (lib : TokenLibrary) (now : ℕ) (r : Request) (sessions : List Session) (claims : AccessClaims)
    → claims_of lib now r ≡ ok claims
    → is_live now claims.sid sessions ≡ false
    → authenticate lib now r (some sessions) ≡ err (api_error session_expired "session inactive")
unfolding authenticate check_live
authenticate-dead lib now r sessions claims c dead = rw (authenticate, c, check_live, dead) refl

refresh-unknown :
    (lib : TokenLibrary) (hash : String → String) (now ttl : ℕ) (fresh token : String) (r : Request)
    (db : AuthDb)
    → get_cookie r refresh_cookie ≡ some token
    → find_active_by_refresh_hash now (hash token) db.sessions ≡ none
    → refresh lib hash now ttl fresh r db
      ≡ (err (api_error session_expired "refresh token invalid or expired"), db)
unfolding refresh
refresh-unknown lib hash now ttl fresh token r db c n = rw (refresh, c, n) refl

-- Once all sessions of a user are revoked, a request that carries tokens of that user's sessions is
-- refused, at any time, where a login is required and where a refresh is asked for. Where a login is
-- optional, which no session is looked up for, its access token is still taken for that user's.
pub revoke_all_for_user_locks_out :
    (lib : TokenLibrary) (hash : String → String) (now later ttl uid : ℕ) (fresh token : String)
    (r : Request) (claims : AccessClaims) (db : AuthDb)
    → claims_of lib later r ≡ ok claims
    → get_cookie r refresh_cookie ≡ some token
    → every (λ s. not (has_sid claims.sid s) || belongs_to uid s) db.sessions ≡ true
    → every (λ s. not (has_hash (hash token) s) || belongs_to uid s) db.sessions ≡ true
    → let after = record db { sessions = revoke_all_for_user now uid db.sessions } in
      (authenticate lib later r (some after.sessions)
        ≡ err (api_error session_expired "session inactive"))
      × (refresh lib hash later ttl fresh r after
          ≡ (err (api_error session_expired "refresh token invalid or expired"), after))
      × (authenticate_optional lib later r ≡ some (principal_of_claims claims))
unfolding authenticate_optional
revoke_all_for_user_locks_out lib hash now later ttl uid fresh token r claims db c k sids hashes = (
  authenticate-dead lib later r (revoke_all_for_user now uid db.sessions) claims c
      (is_live-revoke_all now later uid claims.sid db.sessions sids),
  refresh-unknown lib hash later ttl fresh token r
      (record db { sessions = revoke_all_for_user now uid db.sessions }) k
      (find-revoke_all now later uid (hash token) db.sessions hashes),
  rw (authenticate_optional, c) refl,
)

is_live-revoke :
    (now later sid : ℕ) (sessions : List Session)
    → is_live later sid (revoke now sid sessions) ≡ false
unfolding revoke revoked
is_live-revoke now later sid [] = refl
is_live-revoke now later sid (s ∷ sessions) = ground (arith, is_live-revoke now later sid sessions)

-- A revocation makes no session active.
find-revoke :
    (now later sid : ℕ) (hash : String) (sessions : List Session)
    → find_active_by_refresh_hash later hash sessions ≡ none
    → find_active_by_refresh_hash later hash (revoke now sid sessions) ≡ none
unfolding revoke revoked find_active_by_refresh_hash
find-revoke now later sid hash [] h = refl
find-revoke now later sid hash (s ∷ sessions) h =
    ground (arith, h, find-revoke now later sid hash sessions)

pub find-of_zero :
    (later : ℕ) (hash : String) (sessions : List Session)
    → count_where (has_hash hash) sessions ≡ 0
    → find_active_by_refresh_hash later hash sessions ≡ none
unfolding find_active_by_refresh_hash
find-of_zero later hash [] h = refl
find-of_zero later hash (s ∷ sessions) h = ground (arith, h, find-of_zero later hash sessions)

find-revoke_self :
    (now later : ℕ) (hash : String) (sessions : List Session) (s : Session)
    → find_active_by_refresh_hash now hash sessions ≡ some s
    → count_where (has_hash hash) sessions ≤ 1
    → find_active_by_refresh_hash later hash (revoke now s.id sessions) ≡ none
unfolding revoke revoked find_active_by_refresh_hash
find-revoke_self now later hash [] s h c = absurd (ground (arith, h))
find-revoke_self now later hash (x ∷ sessions) s h c = elim (Bool-cases (has_hash hash x)) [
  | inr n ↦ ground (arith, n, h, c, find-revoke_self now later hash sessions s)
  | inl e ↦
      let rest = find-of_zero now hash sessions (ground (arith, e, c)) in
      let gone =
        find-revoke now later s.id hash sessions
          (find-of_zero later hash sessions (ground (arith, e, c))) in
      elim (Bool-cases (is_active now x)) [
        | inr i ↦ absurd (ground (arith, e, i, h, rest))
        | inl a ↦
            let same : x ≡ s = ground (arith, e, a, h) in
            ground (arith, e, gone, ap (λ (y : Session). y.id) same, nat_beq_iff x.id s.id)
      ]
]

-- After a logout with the refresh token of an active session, that session is over at any time: no
-- access token of it is live, and the refresh token finds nothing. Where another session bears the
-- same token this is not so, hence the hypothesis on the hashes.
pub logout_ends :
    (lib : TokenLibrary) (hash : String → String) (now later : ℕ) (r : Request) (token : String)
    (sessions : List Session) (s : Session)
    → get_cookie r refresh_cookie ≡ some token
    → find_active_by_refresh_hash now (hash token) sessions ≡ some s
    → count_where (has_hash (hash token)) sessions ≤ 1
    → (is_live later s.id (logout lib hash now r sessions) ≡ false)
      × (find_active_by_refresh_hash later (hash token) (logout lib hash now r sessions) ≡ none)
unfolding logout revoke_found
logout_ends lib hash now later r token sessions s c f one =
    rw (logout, c, revoke_found, f)
      (
        is_live-revoke now later s.id sessions,
        find-revoke_self now later (hash token) sessions s f one,
      )

-- A logout whose refresh cookie finds no active session revokes nothing, though the request's access
-- token is accepted: the same request is authenticated after it as before.
pub stale_logout_keeps :
    (lib : TokenLibrary) (hash : String → String) (now : ℕ) (r : Request) (token : String)
    (sessions : List Session)
    → get_cookie r refresh_cookie ≡ some token
    → find_active_by_refresh_hash now (hash token) sessions ≡ none
    → (logout lib hash now r sessions ≡ sessions)
      × (authenticate lib now r (some (logout lib hash now r sessions))
          ≡ authenticate lib now r (some sessions))
unfolding logout revoke_found
stale_logout_keeps lib hash now r token sessions c n =
    let same : logout lib hash now r sessions ≡ sessions = rw (logout, c, revoke_found, n) refl in
    (same, ap (λ ss. authenticate lib now r (some ss)) same)
