-- ===== src/Auth/Tests.antt =====
-- Sessions, tokens and a reauthentication at work, over a library with one access token.
use phira_plus_backend.Prelude.{
  ℕ, ◌<◌, ◌≡◌, refl, arith, String, Bool, true, false, ◌&&◌, some, none, List, [], ◌∷◌, ◌==◌,
  nat_eq, string_eq, ltb, lt→ltb, sym, subst, Bool-cases, inl, inr, if◌then◌else◌,
}
use phira_plus_backend.ErrorCode.{session_expired}
use phira_plus_backend.ApiError.{ok, err, api_error}
use phira_plus_backend.Jobs.{critical}
use phira_plus_backend.Auth.{authenticate_optional, principal_of_claims}
use phira_plus_backend.Auth.{
  PrincipalType, user, root, ClientType, ppf, panel, windows, android, AuthPrincipal, AccessClaims,
  ReauthClaims, TokenLibrary, absent, text, post, Request, Session, find_active_by_refresh_hash,
  revoke_all_for_user, authenticate, claims_of, decode_access, extract_bearer_or_cookie, bearer_of,
  or_cookie, principal_of_claims,
}
use phira_plus_backend.Auth.Handlers.{
  AuthDb, refresh, is_gated, session_claims, check_reauth_header,
}
use phira_plus_backend.Auth.Handlers.Revocation.{revoke_all_for_user_locks_out}
use phira_plus_backend.Auth.Handlers.Reauth.{
  IsReauthenticated, check_reauth_header-IsReauthenticated,
}
use phira_plus_backend.Auth.Handlers.Rotation.{SignsFaithfully, refresh_then_authenticate}

abbrev signed_claims : AccessClaims
signed_claims = record {
  sub = 5;
  sid = 7;
  principal_type = user;
  client_type = ppf;
  iat = 100;
  exp = 160;
}

abbrev is_user : PrincipalType → Bool
is_user user = true
is_user root = false

abbrev is_ppf : ClientType → Bool
is_ppf ppf = true
is_ppf _ = false

is_user-eq : (p : PrincipalType) → is_user p ≡ true → p ≡ user
is_user-eq user h = refl
is_user-eq root h = absurd (ground arith)

is_ppf-eq : (p : ClientType) → is_ppf p ≡ true → p ≡ ppf
is_ppf-eq ppf h = refl
is_ppf-eq panel h = absurd (ground arith)
is_ppf-eq windows h = absurd (ground arith)
is_ppf-eq android h = absurd (ground arith)

abbrev is_signed : AccessClaims → Bool
is_signed c =
    c.sub == 5
    && (c.sid == 7
        && (is_user c.principal_type && (is_ppf c.client_type && (c.iat == 100 && c.exp == 160))))

abbrev reauth : ReauthClaims
reauth = record {
  purpose = "reauth";
  sub = 5;
  sid = 7;
  principal_type = user;
  client_type = ppf;
  risk = "critical";
  iat = 100;
  exp = 400;
}

abbrev lib : TokenLibrary
lib = record {
  sign_access = λ c. if is_signed c then some "jwt" else none;
  read_access = λ now token. if token == "jwt" && ltb now 160 then some signed_claims else none;
  sign_reauth = λ c. none;
  read_reauth = λ now token. if token == "reauth-jwt" then some reauth else none;
}

is_signed-eq : (c : AccessClaims) → is_signed c ≡ true → c ≡ signed_claims
is_signed-eq c h = ground (arith, h, is_user-eq c.principal_type, is_ppf-eq c.client_type)

lib-SignsFaithfully : SignsFaithfully lib
lib-SignsFaithfully = record { read_signed = read }
  where
    read :
        (c : AccessClaims) (t : String) (now : ℕ)
        → lib.sign_access c ≡ some t
        → now < c.exp
        → lib.read_access now t ≡ some c
    read c t now s l = elim (Bool-cases (is_signed c)) [
      | inr e ↦ absurd (ground (arith, e, s))
      | inl e ↦
          let same = is_signed-eq c e in
          let early : now < 160 = subst (λ (y : AccessClaims). now < y.exp) same l in
          let token : "jwt" ≡ t = ground (arith, e, s) in
          subst (λ (y : String). lib.read_access now y ≡ some c) token
            (subst (λ (y : AccessClaims). lib.read_access now "jwt" ≡ some y) (sym same)
              (ground (arith, lt→ltb now 160 early)))
    ]

abbrev session : Session
session = record {
  id = 7;
  principal_type = user;
  user_id = some 5;
  client_type = ppf;
  refresh_hash = "old";
  expires_at = 1000;
  revoked_at = none;
  last_seen_at = none;
}

abbrev db : AuthDb
db = record { sessions = session ∷ []; credentials = [] }

-- The hash is the identity here.
abbrev plain : String → String
plain s = s

abbrev request : Request
request = record {
  method = post;
  authorization = absent;
  cookies = ("ppb_access", "jwt") ∷ ("ppb_refresh", "old") ∷ [];
  origin = absent;
  csrf_header = absent;
  reauth_token = text "reauth-jwt";
}

request_claims : claims_of lib 120 request ≡ ok signed_claims
unfolding claims_of decode_access extract_bearer_or_cookie or_cookie bearer_of
request_claims = refl

session_found : find_active_by_refresh_hash 120 "old" (session ∷ []) ≡ some session
unfolding find_active_by_refresh_hash
session_found = refl

revoke_all_for_user_locks_out_example :
    let after = record db { sessions = revoke_all_for_user 110 5 (session ∷ []) } in
    (authenticate lib 120 request (some after.sessions)
      ≡ err (api_error session_expired "session inactive"))
    × (refresh lib plain 120 60 "new" request after
        ≡ (err (api_error session_expired "refresh token invalid or expired"), after))
    × (authenticate_optional lib 120 request ≡ some (principal_of_claims signed_claims))
revoke_all_for_user_locks_out_example =
    revoke_all_for_user_locks_out lib plain 110 120 60 5 "new" "old" request signed_claims db
      request_claims refl refl refl

-- The refresh token of the cookie was rotated away.
abbrev stale : List Session
stale = record session { refresh_hash = "newer" } ∷ []

stale_not_found : find_active_by_refresh_hash 120 "old" stale ≡ none
unfolding find_active_by_refresh_hash
stale_not_found = refl

abbrev principal : AuthPrincipal
principal = record { sub = 5; sid = 7; principal_type = user; client_type = ppf }

reauth_passes : check_reauth_header lib 120 principal (text "reauth-jwt") critical ≡ ok tt
unfolding check_reauth_header
reauth_passes = refl

check_reauth_header-IsReauthenticated_example :
    IsReauthenticated lib 120 7 (text "reauth-jwt") critical
check_reauth_header-IsReauthenticated_example =
    check_reauth_header-IsReauthenticated lib 120 principal (text "reauth-jwt") critical
      reauth_passes

not_gated : is_gated 100 session [] ≡ false
unfolding is_gated
not_gated = refl

session_signed : lib.sign_access (session_claims 100 60 session) ≡ some "jwt"
unfolding session_claims
session_signed = refl

session_found_then : find_active_by_refresh_hash 100 "old" (session ∷ []) ≡ some session
unfolding find_active_by_refresh_hash
session_found_then = refl

next_request : extract_bearer_or_cookie request "ppb_access" ≡ some "jwt"
unfolding extract_bearer_or_cookie or_cookie bearer_of
next_request = refl

refreshed : (refresh lib plain 100 60 "new" request db).0 ≡ ok ("jwt", "new")
unfolding refresh
refreshed = refl

refresh_then_authenticate_example :
    authenticate lib 150 request (some (refresh lib plain 100 60 "new" request db).1.sessions)
    ≡ ok (principal_of_claims (session_claims 100 60 session))
refresh_then_authenticate_example =
    refresh_then_authenticate lib plain 100 150 60 "new" "old" "jwt" request request db session
      lib-SignsFaithfully refl session_found_then refreshed next_request (omega arith) (omega arith)
