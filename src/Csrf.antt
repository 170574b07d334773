-- ===== src/Csrf.antt =====
-- The check against cross-site requests: crates/ppb-server/src/middleware/csrf.rs. HMAC-SHA-256,
-- base64 and the bytes of a uuid are parameters. `Request` is the one of Auth, whose `csrf_header` is
-- the header of the configured name.
mod Guard
mod Tests
use phira_plus_backend.Prelude.{
  ℕ, String, Bool, true, false, not, ◌&&◌, ◌||◌, Option, none, some, List, [], ◌∷◌, ◌++◌, ◌==◌,
  nat_eq, string_eq, any, is_some, length, utf8, codes, bit_or, bit_xor, if◌then◌else◌,
}
use phira_plus_backend.ErrorCode.{csrf_invalid}
use phira_plus_backend.ApiError.{Result, ok, err, ◌>>=◌, ◌>>◌, api_error}
use phira_plus_backend.Auth.{
  Method, get, head, options, post, put, patch, delete, Header, to_text, is_present, Request,
  get_cookie, access_cookie, refresh_cookie, AccessClaims, TokenLibrary, decode_access,
}

pub is_state_changing : Method → Bool
is_state_changing post = true
is_state_changing put = true
is_state_changing patch = true
is_state_changing delete = true
is_state_changing _ = false

-- HMAC-SHA-256 of a message under a key, URL-safe base64 without padding, `Uuid::as_bytes`.
pub record HmacLibrary : Type 0 where
  pub mac : List ℕ → List ℕ → List ℕ
  pub encode : List ℕ → String
  pub uuid_bytes : ℕ → List ℕ

abbrev pub bytes : String → List ℕ
bytes s = utf8 (codes s)

pub csrf_key : HmacLibrary → String → List ℕ
csrf_key lib jwt_secret = lib.mac (bytes jwt_secret) (bytes ":ppb-csrf")

pub csrf_token_for : HmacLibrary → ℕ → List ℕ → String
csrf_token_for lib sid key = lib.encode (lib.mac key (lib.uuid_bytes sid))

-- The loop of `ct_eq` over the zipped bytes.
pub ct_diff : ℕ → List ℕ → List ℕ → ℕ
ct_diff diff (x ∷ a) (y ∷ b) = ct_diff (bit_or 8 diff (bit_xor 8 x y)) a b
ct_diff diff _ _ = diff

pub ct_eq : String → String → Bool
unfolding ct_diff
ct_eq a b =
    if not (length (bytes a) == length (bytes b)) then false else ct_diff 0 (bytes a) (bytes b) == 0

pub uses_cookie_auth : Request → Bool
uses_cookie_auth r =
    if is_present r.authorization
    then false
    else is_some (get_cookie r access_cookie) || is_some (get_cookie r refresh_cookie)

pub origin_allowed : Option String → List String → Bool
origin_allowed none allowed = true
origin_allowed (some o) allowed = if o == "" then true else any (λ a. a == o) allowed

-- The parts of the configuration that the check reads.
pub record CsrfConfig : Type 0 where
  pub jwt_secret : String
  pub allowed_origins : List String
  pub dev_origins : List String

pub check_origin : CsrfConfig → Request → Result (Unit {0})
unfolding origin_allowed
check_origin cfg r =
    if not (origin_allowed (to_text r.origin) (cfg.allowed_origins ++ cfg.dev_origins))
    then err (api_error csrf_invalid "CSRF origin rejected")
    else ok tt

abbrev pub or_empty : Option String → String
or_empty none = ""
or_empty (some s) = s

-- The comparison with the token of the claims; a cookie that does not decode is not refused here.
pub check_claims : HmacLibrary → CsrfConfig → Request → Result AccessClaims → Result (Unit {0})
unfolding csrf_key csrf_token_for ct_eq
check_claims mac cfg r (err e) = ok tt
check_claims mac cfg r (ok claims) =
    if not (
      ct_eq (csrf_token_for mac claims.sid (csrf_key mac cfg.jwt_secret))
        (or_empty (to_text r.csrf_header)))
    then err (api_error csrf_invalid "CSRF token mismatch or missing X-CSRF-Token header")
    else ok tt

pub check_token : TokenLibrary → HmacLibrary → CsrfConfig → ℕ → Request → Result (Unit {0})
unfolding check_claims decode_access
check_token lib mac cfg now r = elim (get_cookie r access_cookie) [
  | none ↦ ok tt
  | some token ↦ check_claims mac cfg r (decode_access lib now token)
]

-- `csrf_middleware`: whether the request goes on to its handler.
pub csrf_middleware : TokenLibrary → HmacLibrary → CsrfConfig → ℕ → Request → Result (Unit {0})
unfolding is_state_changing uses_cookie_auth check_origin check_token
csrf_middleware lib mac cfg now r =
    if is_state_changing r.method && uses_cookie_auth r
    then (check_origin cfg r >> check_token lib mac cfg now r)
    else ok tt
