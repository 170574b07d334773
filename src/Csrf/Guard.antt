-- ===== src/Csrf/Guard.antt =====
-- What a request has shown that passes the check: crates/ppb-server/src/middleware/csrf.rs and
-- auth.rs, together.
use phira_plus_backend.Prelude.{
  ℕ, ◌<◌, ◌≡◌, ◌∙◌, refl, sym, subst, ◌↔◌, String, true, false, not, Option, none, some, List, [],
  ◌∷◌, ◌++◌, ◌==◌, nat_eq, string_eq, every, is_byte, every_byte-utf8, length, codes, bit_or,
  bit_xor, bit_or-lt, bit_xor-lt, bit_or_zero, bit_xor_zero, bit_or-zeros, bit_xor_self, arith,
  Bool-cases, Option-cases, inl, inr, if◌then◌else◌,
}
use phira_plus_backend.ApiError.{ok}
use phira_plus_backend.Auth.{
  absent, to_text, is_present, Request, get_cookie, access_cookie, AccessClaims, TokenLibrary,
  decode_access, Session, bearer_of, or_cookie, extract_bearer_or_cookie, claims_of, authenticate,
}
use phira_plus_backend.Csrf.{
  HmacLibrary, CsrfConfig, bytes, csrf_key, csrf_token_for, ct_diff, ct_eq, is_state_changing,
  uses_cookie_auth, origin_allowed, check_origin, or_empty, check_claims, check_token,
  csrf_middleware,
}

-- A difference stays.
ct_diff_zero :
    (d : ℕ) (a b : List ℕ)
    → d < 256
    → every is_byte a ≡ true
    → every is_byte b ≡ true
    → length a ≡ length b
    → ct_diff d a b ≡ 0
    → (d ≡ 0) × (a ≡ b)
unfolding ct_diff
ct_diff_zero d [] [] l p q e h = (h, refl)
ct_diff_zero d [] (y ∷ b) l p q e h = absurd (omega (arith, e))
ct_diff_zero d (x ∷ a) [] l p q e h = absurd (omega (arith, e))
ct_diff_zero d (x ∷ a) (y ∷ b) l p q e h =
    let (or_none, rest) =
      ct_diff_zero (bit_or 8 d (bit_xor 8 x y)) a b (bit_or-lt 8 d (bit_xor 8 x y))
        (ground (arith, p)) (ground (arith, q)) (ground (arith, e)) h in
    let (left, right) = bit_or_zero 8 d (bit_xor 8 x y) l (bit_xor-lt 8 x y) or_none in
    let same : x ≡ y = bit_xor_zero 8 x y (ground (arith, p)) (ground (arith, q)) right in
    (left, ground (arith, same, rest))

ct_diff_self : (a : List ℕ) → ct_diff 0 a a ≡ 0
unfolding ct_diff
ct_diff_self [] = refl
ct_diff_self (x ∷ a) = rw (bit_xor_self 8 x, bit_or-zeros 8) (ct_diff_self a)

-- The constant-time comparison of texts answers that they are equal exactly when their bytes are.
pub ct_eq_iff : (a b : String) → (ct_eq a b ≡ true) ↔ (bytes a ≡ bytes b)
unfolding ct_eq
ct_eq_iff a b = (forward, backward)
  where
    forward : ct_eq a b ≡ true → bytes a ≡ bytes b
    forward h =
        (ct_diff_zero 0 (bytes a) (bytes b) (omega arith) (every_byte-utf8 (codes a))
          (every_byte-utf8 (codes b)) (ground (arith, h)) (ground (arith, h))).1

    backward : bytes a ≡ bytes b → ct_eq a b ≡ true
    backward h =
        subst
          (λ y.
            (if not (length (bytes a) == length y) then false else ct_diff 0 (bytes a) y == 0)
            ≡ true)
          h (ground (arith, ct_diff_self (bytes a)))

claims_of-cookie :
    (lib : TokenLibrary) (now : ℕ) (r : Request) (token : String)
    → bearer_of r.authorization ≡ none
    → get_cookie r access_cookie ≡ some token
    → claims_of lib now r ≡ decode_access lib now token
unfolding claims_of extract_bearer_or_cookie or_cookie
claims_of-cookie lib now r token a k = rw (claims_of, or_cookie, a, k) refl

-- A state-changing request without an Authorization header that passes the check, and whose access
-- cookie decodes, bears the token of that cookie's session, and an origin, if any, that is allowed.
pub csrf_middleware-guards :
    (lib : TokenLibrary) (mac : HmacLibrary) (cfg : CsrfConfig) (now : ℕ) (r : Request)
    (claims : AccessClaims)
    → is_state_changing r.method ≡ true
    → r.authorization ≡ absent
    → claims_of lib now r ≡ ok claims
    → csrf_middleware lib mac cfg now r ≡ ok tt
    → (origin_allowed (to_text r.origin) (cfg.allowed_origins ++ cfg.dev_origins) ≡ true)
      × (bytes (csrf_token_for mac claims.sid (csrf_key mac cfg.jwt_secret))
          ≡ bytes (or_empty (to_text r.csrf_header)))
unfolding csrf_middleware uses_cookie_auth check_origin check_token check_claims claims_of
    extract_bearer_or_cookie or_cookie bearer_of
csrf_middleware-guards lib mac cfg now r claims s a c h =
    elim (Option-cases (get_cookie r access_cookie)) [
      | inl k ↦ absurd (ground (arith, a, k, c))
      | inr (token, k) ↦
          let decoded : decode_access lib now token ≡ ok claims =
            sym (claims_of-cookie lib now r token (ground (arith, a)) k) ∙ c in
          elim (Bool-cases
            (origin_allowed (to_text r.origin) (cfg.allowed_origins ++ cfg.dev_origins))) [
              | inr o ↦ absurd (ground (arith, s, a, k, o, h))
              | inl o ↦
                  elim (Bool-cases (
                    ct_eq (csrf_token_for mac claims.sid (csrf_key mac cfg.jwt_secret))
                      (or_empty (to_text r.csrf_header)))) [
                        | inr t ↦ absurd (ground (arith, s, a, k, o, decoded, t, h))
                        | inl t ↦ (o, (ct_eq_iff _ _).0 t)
                      ]
            ]
    ]

claims_of-no_bearer :
    (lib : TokenLibrary) (now : ℕ) (r : Request)
    → bearer_of r.authorization ≡ none
    → claims_of lib now r ≡ claims_of lib now (record r { authorization = absent })
unfolding claims_of extract_bearer_or_cookie or_cookie bearer_of
claims_of-no_bearer lib now r b = elim (Option-cases (get_cookie r access_cookie)) [
  | inl k ↦ ground (arith, b, k)
  | inr (token, k) ↦ ground (arith, b, k)
]

-- A request passes the check unexamined with any Authorization header, also one that is no Bearer
-- token, with which it is authenticated by its access cookie as it would be without the header.
pub csrf_middleware-other_scheme :
    (lib : TokenLibrary) (mac : HmacLibrary) (cfg : CsrfConfig) (now : ℕ) (r : Request)
    (db : Option (List Session))
    → is_present r.authorization ≡ true
    → bearer_of r.authorization ≡ none
    → (csrf_middleware lib mac cfg now r ≡ ok tt)
      × (authenticate lib now r db ≡ authenticate lib now (record r { authorization = absent }) db)
unfolding csrf_middleware uses_cookie_auth authenticate
csrf_middleware-other_scheme lib mac cfg now r db p b =
    (ground (arith, p), rw (authenticate, claims_of-no_bearer lib now r b) refl)
