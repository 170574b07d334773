-- ===== src/Auth/Handlers.antt =====
-- The handlers refresh and logout, the issue of a session and the check of a reauthentication:
-- crates/ppb-server/src/auth/routes.rs and reauth.rs. The database is taken to be configured, the
-- refresh token that is drawn is an argument, and `hash` is `hash_refresh_token`, SHA-256 in hex.
pub mod Revocation
pub mod Reauth
pub mod Rotation
use phira_plus_backend.Prelude.{
  ℕ, String, Bool, true, false, not, ◌&&◌, ◌||◌, Option, none, some, List, [], ◌∷◌, ◌==◌, nat_eq,
  string_eq, find, update_where, leb, if◌then◌else◌,
}
use phira_plus_backend.ErrorCode.{session_expired, phira_reauth_required}
use phira_plus_backend.ApiError.{ApiError, Result, ok, err, ◌>>=◌, ◌>>◌, api_error, internal}
use phira_plus_backend.Jobs.{ReauthRisk, high, critical}
use phira_plus_backend.Auth.{
  PrincipalType, ClientType, AuthPrincipal, user, root, is_root_type, root_sub, AccessClaims,
  access_claims, ReauthClaims, TokenLibrary, Header, to_text, Request, access_cookie,
  refresh_cookie, get_cookie, decode_access, Session, has_sid, find_active_by_refresh_hash, revoke,
  create_session,
}

-- `decode_reauth`; the library checks the expiry too.
pub decode_reauth : TokenLibrary → ℕ → String → ℕ → Result ReauthClaims
decode_reauth lib now token expected_sid = elim (lib.read_reauth now token) [
  | none ↦ err (api_error session_expired "invalid reauth context")
  | some claims ↦
      if not (claims.purpose == "reauth")
      then err (api_error session_expired "not a reauth context")
      else if not (claims.sid == expected_sid)
      then err (api_error session_expired "reauth context bound to another session")
      else if leb claims.exp now
      then err (api_error session_expired "reauth context expired")
      else ok claims
]

-- The `match` on the risk that is asked for.
pub adequate : ReauthRisk → String → Bool
adequate critical risk = risk == "critical"
adequate high risk = risk == "high" || risk == "critical"

pub or_required : Option String → Result String
or_required none = err (api_error session_expired "reauth context required")
or_required (some token) = ok token

unfoldable pub check_reauth_header :
    TokenLibrary → ℕ → AuthPrincipal → Header → ReauthRisk → Result (Unit {0})
unfolding or_required decode_reauth adequate
check_reauth_header lib now auth header risk = do
  token ← or_required (to_text header)
  claims ← decode_reauth lib now token auth.sid
  if not (adequate risk claims.risk)
      then err (api_error session_expired "reauth risk insufficient")
      else ok tt

pub data CredentialState : Type 0 where
  active reauth_required revoked : CredentialState

-- A row of `phira_credentials`, one for each user.
pub record Credential : Type 0 where
  pub user_id : ℕ
  pub refresh_expires_at : ℕ
  pub state : CredentialState

pub record AuthDb : Type 0 where
  pub sessions : List Session
  pub credentials : List Credential

abbrev pub of_user : ℕ → Credential → Bool
of_user uid c = c.user_id == uid

abbrev pub is_active_state : CredentialState → Bool
is_active_state active = true
is_active_state _ = false

-- `refresh_token_expired(…) || state_str != "active"`.
pub is_stale : ℕ → Credential → Bool
is_stale now c = leb c.refresh_expires_at now || not (is_active_state c.state)

pub mark_reauth_required : ℕ → List Credential → List Credential
mark_reauth_required uid cs =
    update_where (of_user uid) (λ c. record c { state = reauth_required }) cs

pub stale_credential : ℕ → Option Credential → Bool
unfolding is_stale
stale_credential now none = false
stale_credential now (some c) = is_stale now c

-- Whether the gate of `refresh` refuses the session: it looks at users' sessions only.
unfoldable pub is_gated : ℕ → Session → List Credential → Bool
unfolding stale_credential
is_gated now s cs =
    not (is_root_type s.principal_type)
    && elim s.user_id [ none ↦ false | some uid ↦ stale_credential now (find (of_user uid) cs) ]

pub or_root : Option ℕ → ℕ
or_root none = root_sub
or_root (some uid) = uid

-- `encode_access`.
pub encode_access : TokenLibrary → AccessClaims → Result String
encode_access lib claims = elim (lib.sign_access claims) [ none ↦ err internal | some t ↦ ok t ]

pub rotated : ℕ → String → Session → Session
rotated now hash s = record s { refresh_hash = hash; last_seen_at = some now }

-- `UPDATE sessions SET refresh_hash = …, last_seen_at = now()`.
pub rotate : ℕ → ℕ → String → List Session → List Session
unfolding rotated
rotate now id hash sessions = update_where (has_sid id) (rotated now hash) sessions

-- The claims of the access token that a session's holder gets.
unfoldable pub session_claims : ℕ → ℕ → Session → AccessClaims
unfolding access_claims or_root
session_claims now ttl_secs s =
    access_claims now (or_root s.user_id) s.id s.principal_type s.client_type ttl_secs

-- The part of `refresh` for a session that was found; an accepted one answers both tokens.
pub refresh_session :
    TokenLibrary
    → (String → String)
    → ℕ
    → ℕ
    → String
    → Session
    → AuthDb
    → Result (String × String) × AuthDb
unfolding is_gated or_root mark_reauth_required encode_access session_claims rotate
refresh_session lib hash now ttl_secs new_refresh s db =
    if is_gated now s db.credentials
    then (
      err (api_error phira_reauth_required "需要重新验证 Phira 身份"),
      record db { credentials = mark_reauth_required (or_root s.user_id) db.credentials },
    )
    else (
      (encode_access lib (session_claims now ttl_secs s) >>= λ t. ok (t, new_refresh)),
      record db { sessions = rotate now s.id (hash new_refresh) db.sessions },
    )

unfoldable pub refresh :
    TokenLibrary
    → (String → String)
    → ℕ
    → ℕ
    → String
    → Request
    → AuthDb
    → Result (String × String) × AuthDb
unfolding find_active_by_refresh_hash refresh_session
refresh lib hash now ttl_secs new_refresh r db = elim (get_cookie r refresh_cookie) [
  | none ↦ (err (api_error session_expired "missing refresh cookie"), db)
  | some token ↦ elim (find_active_by_refresh_hash now (hash token) db.sessions) [
    | none ↦ (err (api_error session_expired "refresh token invalid or expired"), db)
    | some s ↦ refresh_session lib hash now ttl_secs new_refresh s db
  ]
]

pub revoke_found : ℕ → Option Session → List Session → List Session
unfolding revoke
revoke_found now none sessions = sessions
revoke_found now (some s) sessions = revoke now s.id sessions

pub revoke_claimed : ℕ → Result AccessClaims → List Session → List Session
unfolding revoke
revoke_claimed now (err e) sessions = sessions
revoke_claimed now (ok claims) sessions = revoke now claims.sid sessions

-- The sessions after `logout`, which always answers 204.
pub logout : TokenLibrary → (String → String) → ℕ → Request → List Session → List Session
unfolding find_active_by_refresh_hash decode_access revoke_found revoke_claimed
logout lib hash now r sessions = elim (get_cookie r refresh_cookie) [
  | some token ↦ revoke_found now (find_active_by_refresh_hash now (hash token) sessions) sessions
  | none ↦ elim (get_cookie r access_cookie) [
    | none ↦ sessions
    | some token ↦ revoke_claimed now (decode_access lib now token) sessions
  ]
]

-- `issue_session_and_jwt`: the session, the access token and the refresh token. The row stays if the
-- token cannot be signed.
pub issue_session_and_jwt :
    TokenLibrary
    → (String → String)
    → ℕ
    → ℕ
    → ℕ
    → ℕ
    → String
    → PrincipalType
    → Option ℕ
    → ClientType
    → List Session
    → Result (Session × String × String) × List Session
unfolding create_session encode_access session_claims
issue_session_and_jwt lib hash now fresh access_ttl refresh_ttl refresh_token principal_type uid
      client sessions =
    let (s, rows) =
      create_session fresh now principal_type uid client (hash refresh_token) refresh_ttl
        sessions in
    ((encode_access lib (session_claims now access_ttl s) >>= λ t. ok (s, t, refresh_token)), rows)
