-- ===== src/Auth.antt =====
-- Sessions, access tokens and reauthentication: crates/ppb-server/src/auth/types.rs, session.rs,
-- jwt.rs, reauth.rs and the handlers refresh and logout of routes.rs, with the extractor of
-- middleware/auth.rs, over the tables `sessions` and `phira_credentials`. Times are seconds of one
-- clock, an argument. The JWT library, SHA-256 and the parsing of the Cookie header are parameters;
-- the cookies of the answers, and the device and address of a session, are left out. The columns of a
-- session that name its types are the types that `create_session` writes.
pub mod Handlers
mod Tests
use phira_plus_backend.Prelude.{
  ℕ, ◌+◌, String, Bool, true, false, not, ◌&&◌, ◌||◌, Option, none, some, List, [], ◌∷◌, ◌==◌,
  nat_eq, string_eq, lookup, any, find, update_where, is_some, ltb, leb, strip_prefix,
  if◌then◌else◌,
}
use phira_plus_backend.ErrorCode.{session_expired, phira_reauth_required, internal_error}
use phira_plus_backend.ApiError.{ApiError, Result, ok, err, ◌>>=◌, ◌>>◌, api_error, internal}
use phira_plus_backend.Permissions.{Principal}
use phira_plus_backend.Jobs.{ReauthRisk, high, critical}

pub data PrincipalType : Type 0 where
  user root : PrincipalType

pub data ClientType : Type 0 where
  ppf panel windows android : ClientType

-- `Display for ClientType`.
pub client_type_name : ClientType → String
client_type_name ppf = "ppf"
client_type_name panel = "panel"
client_type_name windows = "windows"
client_type_name android = "android"

-- `ClientType::parse`.
pub parse_client_type : String → Option ClientType
parse_client_type s =
    if s == "ppf"
    then some ppf
    else if s == "panel"
    then some panel
    else if s == "windows"
    then some windows
    else if s == "android"
    then some android
    else none

pub record AuthPrincipal : Type 0 where
  pub sub : ℕ
  pub sid : ℕ
  pub principal_type : PrincipalType
  pub client_type : ClientType

abbrev pub is_root_type : PrincipalType → Bool
is_root_type root = true
is_root_type user = false

-- `AuthPrincipal::is_root`.
abbrev pub is_root : AuthPrincipal → Bool
is_root auth = is_root_type auth.principal_type

-- `ROOT_SUB`, the nil uuid.
abbrev pub root_sub : ℕ
root_sub = 0

pub record AccessClaims : Type 0 where
  pub sub : ℕ
  pub sid : ℕ
  pub principal_type : PrincipalType
  pub client_type : ClientType
  pub iat : ℕ
  pub exp : ℕ

-- `AccessClaims::new`.
pub access_claims : ℕ → ℕ → ℕ → PrincipalType → ClientType → ℕ → AccessClaims
access_claims now sub sid principal_type client_type ttl_secs = record {
  sub = sub;
  sid = sid;
  principal_type = principal_type;
  client_type = client_type;
  iat = now;
  exp = now + ttl_secs;
}

pub record ReauthClaims : Type 0 where
  pub purpose : String
  pub sub : ℕ
  pub sid : ℕ
  pub principal_type : PrincipalType
  pub client_type : ClientType
  pub risk : String
  pub iat : ℕ
  pub exp : ℕ

-- `ReauthRisk::as_str`.
pub risk_name : ReauthRisk → String
risk_name high = "high"
risk_name critical = "critical"

-- `ReauthClaims::new`.
pub reauth_claims : ℕ → ℕ → ℕ → PrincipalType → ClientType → ReauthRisk → ℕ → ReauthClaims
unfolding risk_name
reauth_claims now sub sid principal_type client_type risk ttl_secs = record {
  purpose = "reauth";
  sub = sub;
  sid = sid;
  principal_type = principal_type;
  client_type = client_type;
  risk = risk_name risk;
  iat = now;
  exp = now + ttl_secs;
}

-- The JWT library at the server's secret, with its check of signature and expiry; `none` is any
-- failure. A reading takes the time.
pub record TokenLibrary : Type 0 where
  pub sign_access : AccessClaims → Option String
  pub read_access : ℕ → String → Option AccessClaims
  pub sign_reauth : ReauthClaims → Option String
  pub read_reauth : ℕ → String → Option ReauthClaims

-- A header: `opaque` is one whose value `to_str` refuses.
pub data Header : Type 0 where
  absent opaque : Header
  text : String → Header

abbrev pub to_text : Header → Option String
to_text (text s) = some s
to_text _ = none

abbrev pub is_present : Header → Bool
is_present absent = false
is_present _ = true

pub data Method : Type 0 where
  get head options post put patch delete : Method

-- The parts of a request that these checks read; the cookies are as the cookie library parses them.
pub record Request : Type 0 where
  pub method : Method
  pub authorization : Header
  pub cookies : List (String × String)
  pub origin : Header
  pub csrf_header : Header
  pub reauth_token : Header

abbrev pub access_cookie : String
access_cookie = "ppb_access"

abbrev pub refresh_cookie : String
refresh_cookie = "ppb_refresh"

-- `cookies::get_cookie`: the first of the name.
abbrev pub get_cookie : Request → String → Option String
get_cookie r name = lookup name r.cookies

unfoldable pub bearer_of : Header → Option String
unfolding strip_prefix
bearer_of (text s) = strip_prefix "Bearer " s
bearer_of _ = none

unfoldable pub or_cookie : Option String → Option String → Option String
or_cookie (some token) cookie = some token
or_cookie none cookie = cookie

unfoldable pub extract_bearer_or_cookie : Request → String → Option String
unfolding bearer_of or_cookie
extract_bearer_or_cookie r name = or_cookie (bearer_of r.authorization) (get_cookie r name)

unfoldable pub decode_access : TokenLibrary → ℕ → String → Result AccessClaims
decode_access lib now token = elim (lib.read_access now token) [
  | none ↦ err (api_error session_expired "invalid or expired access token")
  | some claims ↦ ok claims
]

pub record Session : Type 0 where
  pub id : ℕ
  pub principal_type : PrincipalType
  pub user_id : Option ℕ
  pub client_type : ClientType
  pub refresh_hash : String
  pub expires_at : ℕ
  pub revoked_at : Option ℕ
  pub last_seen_at : Option ℕ

-- `Session::is_active`, and `revoked_at IS NULL AND expires_at > now()`.
abbrev pub is_active : ℕ → Session → Bool
is_active now s = not (is_some s.revoked_at) && ltb now s.expires_at

abbrev pub has_sid : ℕ → Session → Bool
has_sid id s = s.id == id

abbrev pub has_hash : String → Session → Bool
has_hash hash s = s.refresh_hash == hash

abbrev pub belongs_to : ℕ → Session → Bool
belongs_to uid s = elim s.user_id [ none ↦ false | some u ↦ u == uid ]

pub find_active_by_refresh_hash : ℕ → String → List Session → Option Session
find_active_by_refresh_hash now hash sessions =
    find (λ s. has_hash hash s && is_active now s) sessions

pub find_by_id : ℕ → List Session → Option Session
find_by_id id sessions = find (has_sid id) sessions

pub revoked : ℕ → Session → Session
revoked now s = record s { revoked_at = some now }

pub revoke : ℕ → ℕ → List Session → List Session
unfolding revoked
revoke now id sessions = update_where (has_sid id) (revoked now) sessions

pub revoke_all_for_user : ℕ → ℕ → List Session → List Session
unfolding revoked
revoke_all_for_user now uid sessions =
    update_where (λ s. belongs_to uid s && not (is_some s.revoked_at)) (revoked now) sessions

pub touch : ℕ → ℕ → List Session → List Session
touch now id sessions =
    update_where (has_sid id) (λ s. record s { last_seen_at = some now }) sessions

pub create_session :
    ℕ
    → ℕ
    → PrincipalType
    → Option ℕ
    → ClientType
    → String
    → ℕ
    → List Session
    → Session × List Session
create_session fresh now principal_type user_id client_type refresh_hash ttl_secs sessions =
    (row, row ∷ sessions)
  where
    row : Session
    row = record {
      id = fresh;
      principal_type = principal_type;
      user_id = user_id;
      client_type = client_type;
      refresh_hash = refresh_hash;
      expires_at = now + ttl_secs;
      revoked_at = none;
      last_seen_at = none;
    }

-- The check of the extractor: some row of the session is active.
abbrev pub is_live : ℕ → ℕ → List Session → Bool
is_live now sid sessions = any (λ s. has_sid sid s && is_active now s) sessions

pub principal_of_claims : AccessClaims → AuthPrincipal
principal_of_claims c = record {
  sub = c.sub;
  sid = c.sid;
  principal_type = c.principal_type;
  client_type = c.client_type;
}

-- The claims of the request's token.
unfoldable pub claims_of : TokenLibrary → ℕ → Request → Result AccessClaims
unfolding extract_bearer_or_cookie decode_access
claims_of lib now r = elim (extract_bearer_or_cookie r access_cookie) [
  | none ↦ err (api_error session_expired "missing credentials")
  | some token ↦ decode_access lib now token
]

-- The liveness check, made only with a database.
pub check_live : ℕ → ℕ → Option (List Session) → Result (Unit {0})
check_live now sid none = ok tt
check_live now sid (some sessions) =
    if is_live now sid sessions then ok tt else err (api_error session_expired "session inactive")

-- `FromRequestParts for AuthPrincipal`.
unfoldable pub authenticate :
    TokenLibrary → ℕ → Request → Option (List Session) → Result AuthPrincipal
unfolding claims_of check_live principal_of_claims
authenticate lib now r db = do
  claims ← claims_of lib now r
  check_live now claims.sid db
  ok (principal_of_claims claims)

-- `FromRequestParts for OptionalAuthPrincipal`.
pub authenticate_optional : TokenLibrary → ℕ → Request → Option AuthPrincipal
unfolding claims_of principal_of_claims
authenticate_optional lib now r = elim (claims_of lib now r) [
  | ok claims ↦ some (principal_of_claims claims)
  | err e ↦ none
]
