-- ===== src/Gateway/Consent.antt =====
-- The consent gate of the logins: crates/ppb-server/src/auth/consent.rs and gateway.rs.
use phira_plus_backend.Prelude.{
  ℕ, ◌≡◌, ◌∙◌, refl, sym, ap, ◌⊎◌, inl, inr, String, Bool, true, false, not, ◌||◌, Option, none,
  some, List, ◌==◌, nat_eq, string_eq, eq_iff, nat_beq_iff, any, arith, Bool-cases, if◌then◌else◌,
}
use phira_plus_backend.ApiError.{Result, ok, err, ◌>>=◌, bind_ok}
use phira_plus_backend.Gateway.{
  Acceptance, LegalAcceptance, LegalConfig, acceptance_for_login, accepted_before, current_versions,
  has_current_acceptance, is_acceptance, legal_ready, or_blank, record_acceptance,
  validate_acceptance, consent_required,
}

abbrev pub is_configured : Result LegalAcceptance → Bool
is_configured (ok a) = true
is_configured (err e) = false

-- The login page offers a login exactly where the consent gate lets one through.
pub legal_ready-current_versions :
    (legal : LegalConfig) → legal_ready legal ≡ is_configured (current_versions legal)
unfolding legal_ready current_versions
legal_ready-current_versions legal = ground arith

any-record_acceptance :
    (uid : ℕ) (client_type source : String) (a : LegalAcceptance) (rows : List Acceptance)
    → any (is_acceptance uid a) (record_acceptance uid client_type a source rows) ≡ true
unfolding record_acceptance
any-record_acceptance uid client_type source a rows =
    elim (Bool-cases (any (is_acceptance uid a) rows)) [
      | inl e ↦ rw (record_acceptance, e) e
      | inr e ↦ ground (
        arith,
        e,
        nat_beq_iff uid uid,
        eq_iff a.terms_version a.terms_version,
        eq_iff a.privacy_version a.privacy_version,
      )
    ]

validate_acceptance-decides :
    (legal : LegalConfig) (accepted : Bool) (terms privacy : Option String)
    (current : LegalAcceptance)
    → current_versions legal ≡ ok current
    → validate_acceptance legal accepted terms privacy ≡ (
        if not accepted
          || (not (or_blank terms == current.terms_version)
              || not (or_blank privacy == current.privacy_version))
        then err (consent_required current)
        else ok current)
unfolding validate_acceptance
validate_acceptance-decides legal accepted terms privacy current c =
    rw (validate_acceptance, c) refl

validate_acceptance-ok :
    (legal : LegalConfig) (accepted : Bool) (terms privacy : Option String)
    (a current : LegalAcceptance)
    → current_versions legal ≡ ok current
    → validate_acceptance legal accepted terms privacy ≡ ok a
    → (a ≡ current)
      × (accepted ≡ true)
      × (or_blank terms ≡ current.terms_version)
      × (or_blank privacy ≡ current.privacy_version)
validate_acceptance-ok legal accepted terms privacy a current c h =
    let decided = validate_acceptance-decides legal accepted terms privacy current c in
    let told = sym decided ∙ h in
    let refused =
      not accepted
      || (not (or_blank terms == current.terms_version)
          || not (or_blank privacy == current.privacy_version)) in
    elim (Bool-cases refused) [
      | inl r ↦ absurd (ground (arith, r, told))
      | inr r ↦ (
        ground (arith, r, told),
        ground (arith, r),
        (eq_iff (or_blank terms) current.terms_version).0 (ground (arith, r)),
        (eq_iff (or_blank privacy) current.privacy_version).0 (ground (arith, r)),
      )
    ]

-- The user of the login, if there is one, has accepted these versions.
abbrev pub has_accepted : Option ℕ → LegalAcceptance → List Acceptance → Bool
has_accepted none current rows = false
has_accepted (some uid) current rows = any (is_acceptance uid current) rows

acceptance_for_login-decides :
    (legal : LegalConfig) (current : LegalAcceptance) (existing : Option ℕ) (accepted : Bool)
    (terms privacy : Option String) (rows : List Acceptance)
    → current_versions legal ≡ ok current
    → acceptance_for_login existing legal accepted terms privacy rows ≡ (
        if has_accepted existing current rows
        then ok none
        else (validate_acceptance legal accepted terms privacy >>= λ a. ok (some a)))
unfolding acceptance_for_login accepted_before has_current_acceptance
acceptance_for_login-decides legal current none accepted terms privacy rows c =
    rw (acceptance_for_login, accepted_before, has_current_acceptance, c) refl
acceptance_for_login-decides legal current (some uid) accepted terms privacy rows c =
    rw (acceptance_for_login, accepted_before, has_current_acceptance, c) refl

-- With the documents configured, a login that the gate lets through, of a new user or of a known
-- one, is of a known user who has accepted the current versions before, or it names them both and
-- accepts them; and once their acceptance is recorded for a user, the gate asks that user for
-- nothing, whatever a later login sends.
pub acceptance_for_login-gated :
    (legal : LegalConfig) (current : LegalAcceptance) (existing : Option ℕ) (accepted : Bool)
    (terms privacy : Option String) (rows : List Acceptance) (o : Option LegalAcceptance)
    → current_versions legal ≡ ok current
    → acceptance_for_login existing legal accepted terms privacy rows ≡ ok o
    → (((o ≡ none) × (has_accepted existing current rows ≡ true))
        ⊎ ((o ≡ some current)
            × (accepted ≡ true)
            × (or_blank terms ≡ current.terms_version)
            × (or_blank privacy ≡ current.privacy_version)))
      × ((uid : ℕ) (client_type source : String) (later : Bool) (terms' privacy' : Option String)
          → acceptance_for_login
              (some uid)
              legal
              later
              terms'
              privacy'
              (record_acceptance uid client_type current source rows)
            ≡ ok none)
acceptance_for_login-gated legal current existing accepted terms privacy rows o c h =
    let told =
      sym (acceptance_for_login-decides legal current existing accepted terms privacy rows c) ∙ h in
    (
      elim (Bool-cases (has_accepted existing current rows)) [
        | inl e ↦ inl (ground (arith, e, told), e)
        | inr e ↦
            let asked : (validate_acceptance legal accepted terms privacy >>= λ a. ok (some a))
                ≡ ok o =
              ground (arith, e, told) in
            let (a, valid, last) =
              bind_ok (validate_acceptance legal accepted terms privacy) _ o asked in
            let (same, agreed, t, p) =
              validate_acceptance-ok legal accepted terms privacy a current c valid in
            inr (ground (arith, last) ∙ ap some same, agreed, t, p)
      ],
      λ uid client_type source later terms' privacy'.
          acceptance_for_login-decides legal current (some uid) later terms' privacy'
            (record_acceptance uid client_type current source rows) c
          ∙ rw (any-record_acceptance uid client_type source current rows) refl,
    )
