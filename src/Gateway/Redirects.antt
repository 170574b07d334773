-- ===== src/Gateway/Redirects.antt =====
-- Where a login may end: crates/ppb-server/src/auth/gateway.rs and routes.rs.
use phira_plus_backend.Prelude.{
  ℕ, ◌≡◌, ◌∙◌, refl, sym, subst, ◌⊎◌, inl, inr, String, Bool, true, false, ◌&&◌, Option, none, some,
  utf8, List, ◌++◌, if◌then◌else◌, any, codes, is_empty, arith, Bool-cases,
}
use phira_plus_backend.ApiError.{Result, ok, err}
use phira_plus_backend.Permissions.{text_eq}
use phira_plus_backend.Permissions.Validity.{text_eq-same, text_eq_refl}
use phira_plus_backend.Gateway.{
  SiteConfig, is_relative, is_safe, is_short, resolve_redirect_target, safe_return_to, trim_slashes,
  trusted_origin, validate_return_to,
}

abbrev pub origin : SiteConfig → String → List ℕ
origin site client_type = trim_slashes (trusted_origin site client_type)

abbrev pub is_accepted : Result (Unit {0}) → Bool
is_accepted (ok done) = true
is_accepted (err e) = false

slash_is_safe : (is_relative (codes "/") && is_short (codes "/")) ≡ true
unfolding is_relative utf8
slash_is_safe = refl

-- The two functions test the same, but for the length.
is_safe-is_relative : (v : List ℕ) → is_safe v ≡ (is_relative v && is_short v)
unfolding is_safe is_relative
is_safe-is_relative v = ground arith

-- Only a safe text is its own safe form.
text_eq-safe_return_to :
    (v : List ℕ) → text_eq v (safe_return_to (some v)) ≡ (is_relative v && is_short v)
unfolding safe_return_to
text_eq-safe_return_to v = elim (Bool-cases (is_relative v && is_short v)) [
  | inl e ↦ rw (safe_return_to, is_safe-is_relative v, e) (text_eq_refl v)
  | inr e ↦ elim (Bool-cases (text_eq v (codes "/"))) [
    | inr n ↦ rw (safe_return_to, is_safe-is_relative v, e) n
    | inl y ↦
        let slash =
          subst (λ s. (is_relative s && is_short s) ≡ true) (sym (text_eq-same v (codes "/") y))
            slash_is_safe in
        absurd (ground (arith, e, slash))
  ]
]

-- A login redirects to an entry of the allowlist, or to the trusted origin of the client, alone or
-- followed by a path that is relative to it and short.
pub resolve_redirect_target_trusted :
    (site : SiteConfig) (allowlist : List (List ℕ)) (client_type : String)
    (return_to : Option (List ℕ))
    → (any (text_eq (resolve_redirect_target site allowlist client_type return_to)) allowlist
        ≡ true)
      ⊎ ((resolve_redirect_target site allowlist client_type return_to ≡ origin site client_type)
          ⊎ ((path : List ℕ) × (resolve_redirect_target site allowlist client_type return_to
                ≡ origin site client_type ++ path)
              × ((is_relative path && is_short path) ≡ true)))
unfolding resolve_redirect_target
resolve_redirect_target_trusted site allowlist client_type none = inr (inl refl)
resolve_redirect_target_trusted site allowlist client_type (some v) =
    elim (Bool-cases (any (text_eq v) allowlist)) [
      | inl e ↦ inl (rw (resolve_redirect_target, e) e)
      | inr e ↦ elim (Bool-cases (text_eq v (safe_return_to (some v)))) [
        | inl s ↦
            inr
              (inr (v, rw (resolve_redirect_target, e, s) refl, sym (text_eq-safe_return_to v) ∙ s))
        | inr s ↦ inr (inl (rw (resolve_redirect_target, e, s) refl))
      ]
    ]

-- For a text of at most 2048 bytes that is not empty, the check of return_to decides where the
-- redirect goes: a text that it accepts is kept, alone if the allowlist has it and else after the
-- trusted origin of the client; for one that it refuses the redirect goes to that origin.
pub validate_return_to-resolve :
    (site : SiteConfig) (allowlist : List (List ℕ)) (client_type : String) (v : List ℕ)
    → is_empty v ≡ false
    → is_short v ≡ true
    → resolve_redirect_target site allowlist client_type (some v) ≡ (
        if is_accepted (validate_return_to allowlist v)
        then (if any (text_eq v) allowlist then v else origin site client_type ++ v)
        else origin site client_type)
unfolding validate_return_to resolve_redirect_target
validate_return_to-resolve site allowlist client_type v full short =
    elim (Bool-cases (any (text_eq v) allowlist)) [
      | inl e ↦ rw (validate_return_to, resolve_redirect_target, full, e) refl
      | inr e ↦
          let safe = text_eq-safe_return_to v in
          elim (Bool-cases (is_relative v)) [
            | inl r ↦ ground (arith, e, full, r, safe, short)
            | inr r ↦ ground (arith, e, full, r, safe)
          ]
    ]
