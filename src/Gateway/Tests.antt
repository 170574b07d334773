-- ===== src/Gateway/Tests.antt =====
-- A login of the panel that returns to /users, and one after a consent.
use phira_plus_backend.Prelude.{
  ℕ, ◌≡◌, ◌⊎◌, refl, String, Bool, Option, true, ◌&&◌, none, some, List, [], ◌∷◌, ◌++◌, any, codes,
  utf8, if◌then◌else◌,
}
use phira_plus_backend.ApiError.{ok}
use phira_plus_backend.Permissions.{text_eq}
use phira_plus_backend.Gateway.{
  SiteConfig, LegalConfig, LegalAcceptance, acceptance_for_login, current_versions, is_relative,
  is_short, or_blank, record_acceptance, resolve_redirect_target, validate_return_to,
}
use phira_plus_backend.Gateway.Redirects.{
  is_accepted, origin, resolve_redirect_target_trusted, validate_return_to-resolve,
}
use phira_plus_backend.Gateway.Consent.{acceptance_for_login-gated, has_accepted}

abbrev site : SiteConfig
site = record { ppf_url = codes "https://a.example/"; panel_url = codes "https://b.example" }

abbrev allowlist : List (List ℕ)
allowlist = codes "https://a.example" ∷ []

resolve_redirect_target_trusted_example :
    (any
        (text_eq (resolve_redirect_target site allowlist "panel" (some (codes "/users"))))
        allowlist
      ≡ true)
    ⊎ ((resolve_redirect_target site allowlist "panel" (some (codes "/users"))
          ≡ origin site "panel")
        ⊎ ((path : List ℕ) × (resolve_redirect_target site allowlist "panel" (some (codes "/users"))
              ≡ origin site "panel" ++ path)
            × ((is_relative path && is_short path) ≡ true)))
resolve_redirect_target_trusted_example =
    resolve_redirect_target_trusted site allowlist "panel" (some (codes "/users"))

users_is_short : is_short (codes "/users") ≡ true
unfolding utf8
users_is_short = refl

validate_return_to-resolve_example :
    resolve_redirect_target site allowlist "panel" (some (codes "/users")) ≡ (
      if is_accepted (validate_return_to allowlist (codes "/users"))
      then (if any (text_eq (codes "/users")) allowlist
          then codes "/users"
          else origin site "panel" ++ codes "/users")
      else origin site "panel")
validate_return_to-resolve_example =
    validate_return_to-resolve site allowlist "panel" (codes "/users") refl users_is_short

-- A protocol-relative address falls back to the origin.
elsewhere :
    resolve_redirect_target site allowlist "ppf" (some (codes "//c.example"))
    ≡ codes "https://a.example"
unfolding resolve_redirect_target
elsewhere = refl

abbrev legal : LegalConfig
legal = record {
  public_auth_enabled = true;
  terms_version = "2";
  privacy_version = "3";
  terms_url = "/terms";
  privacy_url = "/privacy";
}

abbrev current : LegalAcceptance
current = record { terms_version = "2"; privacy_version = "3" }

configured : current_versions legal ≡ ok current
unfolding current_versions
configured = refl

-- A new user, of whom the table has no row.
let_through : acceptance_for_login none legal true (some "2") (some "3") [] ≡ ok (some current)
unfolding acceptance_for_login
let_through = refl

acceptance_for_login-gated_example :
    (((some current ≡ none) × (has_accepted none current [] ≡ true))
      ⊎ ((some current ≡ some current)
          × (true ≡ true)
          × (or_blank (some "2") ≡ "2")
          × (or_blank (some "3") ≡ "3")))
    × ((uid : ℕ) (client_type source : String) (later : Bool) (terms' privacy' : Option String)
        → acceptance_for_login
            (some uid)
            legal
            later
            terms'
            privacy'
            (record_acceptance uid client_type current source [])
          ≡ ok none)
acceptance_for_login-gated_example =
    acceptance_for_login-gated legal current none true (some "2") (some "3") [] (some current)
      configured let_through
