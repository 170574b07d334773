-- ===== src/Auth/Handlers/Reauth.antt =====
-- What a reauthentication proves: crates/ppb-server/src/auth/reauth.rs and routes.rs.
use phira_plus_backend.Prelude.{
  ℕ, ◌<◌, ◌≡◌, refl, subst, String, true, some, ◌==◌, nat_eq, string_eq, eq_iff, nat_beq_iff, leb,
  arith, Bool-cases, Option-cases, ◌⊎◌, inl, inr,
}
use phira_plus_backend.ApiError.{ok, Result-cases}
use phira_plus_backend.Jobs.{ReauthRisk, high, critical}
use phira_plus_backend.Auth.{
  AuthPrincipal, ReauthClaims, TokenLibrary, Header, absent, opaque, text,
}
use phira_plus_backend.Auth.Handlers.{decode_reauth, adequate, or_required, check_reauth_header}

-- The token was read by the library, is a reauthentication of this session, has not expired, and its
-- risk is at least the one that was asked for.
pub record IsReauthenticated (lib : TokenLibrary) (now : ℕ) (sid : ℕ) (header : Header)
    (risk : ReauthRisk) : Type 0 where
  pub token : String
  pub claims : ReauthClaims
  pub sent : header ≡ text token
  pub read : lib.read_reauth now token ≡ some claims
  pub purpose : claims.purpose ≡ "reauth"
  pub session : claims.sid ≡ sid
  pub in_time : now < claims.exp
  pub enough : (claims.risk ≡ "critical") ⊎ ((claims.risk ≡ "high") × (risk ≡ high))

decode_reauth-ok :
    (lib : TokenLibrary) (now sid : ℕ) (token : String) (claims : ReauthClaims)
    → decode_reauth lib now token sid ≡ ok claims
    → (lib.read_reauth now token ≡ some claims)
      × (claims.purpose ≡ "reauth")
      × (claims.sid ≡ sid)
      × (now < claims.exp)
unfolding decode_reauth
decode_reauth-ok lib now sid token claims h = elim (Option-cases (lib.read_reauth now token)) [
  | inl e ↦ absurd (ground (arith, e, h))
  | inr (c, e) ↦ elim (Bool-cases (c.purpose == "reauth")) [
    | inr p ↦ absurd (ground (arith, e, h, p))
    | inl p ↦ elim (Bool-cases (c.sid == sid)) [
      | inr s ↦ absurd (ground (arith, e, h, p, s))
      | inl s ↦ elim (Bool-cases (leb c.exp now)) [
        | inl t ↦ absurd (ground (arith, e, h, p, s, t))
        | inr t ↦
            let same : c ≡ claims = ground (arith, e, h, p, s, t) in
            subst
              (λ (c : ReauthClaims).
                (lib.read_reauth now token ≡ some c)
                × (c.purpose ≡ "reauth")
                × (c.sid ≡ sid)
                × (now < c.exp))
              same
              (e, (eq_iff c.purpose "reauth").0 p, (nat_beq_iff c.sid sid).0 s, ground (arith, t))
      ]
    ]
  ]
]

adequate-enough :
    (risk : ReauthRisk) (r : String)
    → adequate risk r ≡ true
    → (r ≡ "critical") ⊎ ((r ≡ "high") × (risk ≡ high))
unfolding adequate
adequate-enough critical r h = inl ((eq_iff r "critical").0 h)
adequate-enough high r h = elim (Bool-cases (r == "critical")) [
  | inl e ↦ inl ((eq_iff r "critical").0 e)
  | inr e ↦ inr ((eq_iff r "high").0 (ground (arith, e, h)), refl)
]

-- A request passes the check only with the token of a reauthentication of its own session that has
-- not expired and is critical, or high where no more is asked for.
pub check_reauth_header-IsReauthenticated :
    (lib : TokenLibrary) (now : ℕ) (auth : AuthPrincipal) (header : Header) (risk : ReauthRisk)
    → check_reauth_header lib now auth header risk ≡ ok tt
    → IsReauthenticated lib now auth.sid header risk
unfolding check_reauth_header or_required
check_reauth_header-IsReauthenticated lib now auth absent risk h = absurd (ground (arith, h))
check_reauth_header-IsReauthenticated lib now auth opaque risk h = absurd (ground (arith, h))
check_reauth_header-IsReauthenticated lib now auth (text token) risk h =
    elim (Result-cases (decode_reauth lib now token auth.sid)) [
      | inr (x, e) ↦ absurd (ground (arith, e, h))
      | inl (claims, e) ↦ elim (Bool-cases (adequate risk claims.risk)) [
        | inr a ↦ absurd (ground (arith, e, a, h))
        | inl a ↦
            let (read, purpose, session, in_time) =
              decode_reauth-ok lib now auth.sid token claims e in
            record {
              token = token;
              claims = claims;
              sent = refl;
              read = read;
              purpose = purpose;
              session = session;
              in_time = in_time;
              enough = adequate-enough risk claims.risk a;
            }
      ]
    ]
