-- ===== src/Gateway.antt =====
-- Where the login page sends users, and the consent it asks: crates/ppb-server/src/auth/gateway.rs and
-- consent.rs, with validate_return_to of auth/routes.rs and the table `account_legal_acceptances`.
-- Texts that are looked into are lists of code points. The database is taken to answer.
mod Redirects
mod Consent
mod Tests
use phira_plus_backend.Prelude.{
  ℕ, String, Bool, true, false, not, ◌&&◌, ◌||◌, Option, none, some, List, [], ◌∷◌, ◌++◌, ◌==◌,
  nat_eq, string_eq, any, codes, trim, is_empty, utf8, length, leb, nat_beq, if◌then◌else◌,
}
use phira_plus_backend.ErrorCode.{auth_legal_documents_unavailable, auth_legal_consent_required}
use phira_plus_backend.ApiError.{
  ApiError, Result, ok, err, ◌>>=◌, ◌>>◌, api_error, with_param, validation, has_prefix, has_infix,
}
use phira_plus_backend.Permissions.{text_eq}

pub record SiteConfig : Type 0 where
  pub ppf_url : List ℕ
  pub panel_url : List ℕ

pub trusted_origin : SiteConfig → String → List ℕ
trusted_origin site client_type = if client_type == "panel" then site.panel_url else site.ppf_url

-- `trim_end_matches('/')`.
pub trim_slashes : List ℕ → List ℕ
trim_slashes [] = []
trim_slashes (c ∷ s) =
    let rest = trim_slashes s in if is_empty rest && nat_beq c b'/' then [] else c ∷ rest

-- The variable `is_relative` of `validate_return_to`.
pub is_relative : List ℕ → Bool
unfolding has_prefix has_infix
is_relative v =
    has_prefix (codes "/") v
    && (not (has_prefix (codes "//") v)
        && (not (has_infix (0x5c ∷ []) v)
            && (not (has_infix (codes "@") v) && not (has_infix (codes "://") v))))

abbrev pub is_short : List ℕ → Bool
is_short v = leb (length (utf8 v)) 2048

-- The guard of the `match` of `safe_return_to`.
pub is_safe : List ℕ → Bool
unfolding has_prefix has_infix utf8
is_safe v =
    has_prefix (codes "/") v
    && (not (has_prefix (codes "//") v)
        && (not (has_infix (0x5c ∷ []) v)
            && (not (has_infix (codes "@") v) && (not (has_infix (codes "://") v) && is_short v))))

pub safe_return_to : Option (List ℕ) → List ℕ
unfolding is_safe
safe_return_to none = codes "/"
safe_return_to (some v) = if is_safe v then v else codes "/"

pub resolve_redirect_target : SiteConfig → List (List ℕ) → String → Option (List ℕ) → List ℕ
unfolding trusted_origin trim_slashes safe_return_to
resolve_redirect_target site allowlist client_type none =
    trim_slashes (trusted_origin site client_type)
resolve_redirect_target site allowlist client_type (some v) =
    if any (text_eq v) allowlist
    then v
    else if text_eq v (safe_return_to (some v))
    then trim_slashes (trusted_origin site client_type) ++ v
    else trim_slashes (trusted_origin site client_type)

pub validate_return_to : List (List ℕ) → List ℕ → Result (Unit {0})
unfolding is_relative
validate_return_to allowlist v =
    if is_empty v
    then ok tt
    else if any (text_eq v) allowlist
    then ok tt
    else if is_relative v
    then ok tt
    else err (validation "return_to 不在白名单内")

pub record LegalConfig : Type 0 where
  pub public_auth_enabled : Bool
  pub terms_version : String
  pub privacy_version : String
  pub terms_url : String
  pub privacy_url : String

pub record LegalAcceptance : Type 0 where
  pub terms_version : String
  pub privacy_version : String

abbrev pub is_blank : String → Bool
is_blank s = is_empty (trim (codes s))

pub legal_ready : LegalConfig → Bool
legal_ready legal =
    legal.public_auth_enabled
    && (not (is_blank legal.terms_version)
        && (not (is_blank legal.privacy_version)
            && (not (is_blank legal.terms_url) && not (is_blank legal.privacy_url))))

pub current_versions : LegalConfig → Result LegalAcceptance
current_versions legal =
    if not legal.public_auth_enabled
      || (is_blank legal.terms_version
          || (is_blank legal.privacy_version
              || (is_blank legal.terms_url || is_blank legal.privacy_url)))
    then err
        (api_error auth_legal_documents_unavailable "approved legal documents are not configured")
    else ok
        (record { terms_version = legal.terms_version; privacy_version = legal.privacy_version })

abbrev pub or_blank : Option String → String
or_blank none = ""
or_blank (some s) = s

pub consent_required : LegalAcceptance → ApiError
consent_required current =
    with_param
      (with_param
        (api_error auth_legal_consent_required
          "current legal document versions must be explicitly accepted")
        "terms_version" current.terms_version)
      "privacy_version" current.privacy_version

pub validate_acceptance :
    LegalConfig → Bool → Option String → Option String → Result LegalAcceptance
unfolding current_versions consent_required
validate_acceptance legal accepted terms privacy = do
  current ← current_versions legal
  if not accepted
        || (not (or_blank terms == current.terms_version)
            || not (or_blank privacy == current.privacy_version))
      then err (consent_required current)
      else ok current

-- A row of `account_legal_acceptances`.
pub record Acceptance : Type 0 where
  pub user_id : ℕ
  pub terms_version : String
  pub privacy_version : String
  pub client_type : String
  pub source : String

abbrev pub is_acceptance : ℕ → LegalAcceptance → Acceptance → Bool
is_acceptance uid a row =
    row.user_id == uid
    && (row.terms_version == a.terms_version && row.privacy_version == a.privacy_version)

pub has_current_acceptance : ℕ → LegalConfig → List Acceptance → Result Bool
unfolding current_versions
has_current_acceptance uid legal rows = do
  current ← current_versions legal
  ok (any (is_acceptance uid current) rows)

-- The `if let` on the existing user.
pub accepted_before : Option ℕ → LegalConfig → List Acceptance → Result Bool
unfolding has_current_acceptance
accepted_before none legal rows = ok false
accepted_before (some uid) legal rows = has_current_acceptance uid legal rows

pub acceptance_for_login :
    Option ℕ
    → LegalConfig
    → Bool
    → Option String
    → Option String
    → List Acceptance
    → Result (Option LegalAcceptance)
unfolding current_versions accepted_before validate_acceptance
acceptance_for_login existing legal accepted terms privacy rows = do
  ready ← current_versions legal
  before ← accepted_before existing legal rows
  if before
      then ok none
      else (validate_acceptance legal accepted terms privacy >>= λ a. ok (some a))

-- `INSERT … ON CONFLICT DO NOTHING`.
pub record_acceptance : ℕ → String → LegalAcceptance → String → List Acceptance → List Acceptance
record_acceptance uid client_type a source rows =
    if any (is_acceptance uid a) rows
    then rows
    else record {
      user_id = uid;
      terms_version = a.terms_version;
      privacy_version = a.privacy_version;
      client_type = client_type;
      source = source;
    }
      ∷ rows
