-- ===== src/Auth/Handlers/Rotation.antt =====
-- The rotation of refresh tokens: crates/ppb-server/src/auth/routes.rs and session.rs.
use phira_plus_backend.Prelude.{
  ℕ, ◌+◌, ◌≤◌, ◌<◌, ◌≡◌, ◌∙◌, refl, sym, ap, subst, String, true, false, ◌&&◌, none, some, List, [],
  ◌∷◌, ◌==◌, nat_eq, nat_beq_iff, string_eq, eq_iff, any, any-found, lt→ltb, count_where,
  count_where_pos, arith, Bool-cases, Option-cases, inl, inr,
}
use phira_plus_backend.ApiError.{ok}
use phira_plus_backend.Auth.{
  AccessClaims, access_claims, TokenLibrary, Request, Session, is_active, has_sid, has_hash,
  find_active_by_refresh_hash, is_live, claims_of, check_live, authenticate, get_cookie,
  refresh_cookie, access_cookie, principal_of_claims, decode_access, extract_bearer_or_cookie,
}
use phira_plus_backend.Auth.Handlers.{
  AuthDb, refresh, refresh_session, is_gated, session_claims, encode_access, rotate, rotated,
}
use phira_plus_backend.Auth.Handlers.Revocation.{find-of_zero}

-- What the server relies on: a token that was signed reads as its claims until they expire.
pub record SignsFaithfully (lib : TokenLibrary) : Type 0 where
  pub read_signed :
      (c : AccessClaims) (t : String) (now : ℕ)
      → lib.sign_access c ≡ some t
      → now < c.exp
      → lib.read_access now t ≡ some c

rotate_zero :
    (now id : ℕ) (old new : String) (sessions : List Session)
    → (new == old) ≡ false
    → count_where (has_hash old) sessions ≡ 0
    → count_where (has_hash old) (rotate now id new sessions) ≡ 0
unfolding rotate rotated
rotate_zero now id old new [] n h = refl
rotate_zero now id old new (s ∷ sessions) n h =
    ground (arith, n, h, rotate_zero now id old new sessions)

find-rotate_old :
    (now later : ℕ) (old new : String) (sessions : List Session) (s : Session)
    → (new == old) ≡ false
    → find_active_by_refresh_hash now old sessions ≡ some s
    → count_where (has_hash old) sessions ≤ 1
    → find_active_by_refresh_hash later old (rotate now s.id new sessions) ≡ none
unfolding rotate rotated find_active_by_refresh_hash
find-rotate_old now later old new [] s n h c = absurd (ground (arith, h))
find-rotate_old now later old new (x ∷ sessions) s n h c = elim (Bool-cases (has_hash old x)) [
  | inr e ↦ ground (arith, e, n, h, c, find-rotate_old now later old new sessions s)
  | inl e ↦
      let none_left : count_where (has_hash old) sessions ≡ 0 = ground (arith, e, c) in
      let gone =
        find-of_zero later old (rotate now s.id new sessions)
          (rotate_zero now s.id old new sessions n none_left) in
      elim (Bool-cases (is_active now x)) [
        | inr i ↦ absurd (ground (arith, e, i, h, find-of_zero now old sessions none_left))
        | inl a ↦
            let same : x ≡ s = ground (arith, e, a, h) in
            ground (arith, e, n, gone, ap (λ (y : Session). y.id) same, nat_beq_iff x.id s.id)
      ]
]

find-rotate_new :
    (now : ℕ) (old new : String) (sessions : List Session) (s : Session)
    → find_active_by_refresh_hash now old sessions ≡ some s
    → count_where (has_sid s.id) sessions ≤ 1
    → any (has_hash new) sessions ≡ false
    → find_active_by_refresh_hash now new (rotate now s.id new sessions) ≡ some (rotated now new s)
unfolding rotate rotated find_active_by_refresh_hash
find-rotate_new now old new [] s h c f = absurd (ground (arith, h))
find-rotate_new now old new (x ∷ sessions) s h c f =
    elim (Bool-cases (has_hash old x && is_active now x)) [
      | inl e ↦
          let same : x ≡ s = ground (arith, e, h) in
          subst
            (λ y.
              find_active_by_refresh_hash now new (rotate now y.id new (x ∷ sessions))
              ≡ some (rotated now new y))
            same (ground (arith, e, nat_beq_iff x.id x.id, eq_iff new new))
      | inr e ↦
          let rest : find_active_by_refresh_hash now old sessions ≡ some s = ground (arith, e, h) in
          let again = count_where_pos (has_sid s.id) sessions (
            any-found (λ y. has_hash old y && is_active now y) (has_sid s.id) sessions s rest
              ((nat_beq_iff s.id s.id).1 refl)) in
          ground (arith, f, c, again, find-rotate_new now old new sessions s rest)
    ]

-- A hash that is not in the table differs from one that is.
fresh_differs :
    (now : ℕ) (old new : String) (sessions : List Session) (s : Session)
    → find_active_by_refresh_hash now old sessions ≡ some s
    → any (has_hash new) sessions ≡ false
    → (new == old) ≡ false
unfolding find_active_by_refresh_hash
fresh_differs now old new [] s h f = absurd (ground (arith, h))
fresh_differs now old new (x ∷ sessions) s h f = elim (Bool-cases (new == old)) [
  | inr e ↦ e
  | inl e ↦
      let same : new ≡ old = (eq_iff new old).0 e in
      let other : any (has_hash old) (x ∷ sessions) ≡ false =
        subst (λ y. any (has_hash y) (x ∷ sessions) ≡ false) same f in
      elim (Bool-cases (has_hash old x)) [
        | inl b ↦ absurd (ground (arith, b, other))
        | inr b ↦ fresh_differs now old new sessions s (ground (arith, b, h)) (ground (arith, f))
      ]
]

-- A refresh with the token of an active session whose user is not gated, and whose access token can
-- be signed, answers that access token and the new refresh token; afterwards the old refresh token
-- finds nothing, at any time, and the new one finds the same session. The session's id and the old
-- hash are taken to be unique in the table, and the new hash not to be there.
pub refresh_rotates :
    (lib : TokenLibrary) (hash : String → String) (now later ttl : ℕ) (fresh token t : String)
    (r : Request) (db : AuthDb) (s : Session)
    → get_cookie r refresh_cookie ≡ some token
    → find_active_by_refresh_hash now (hash token) db.sessions ≡ some s
    → is_gated now s db.credentials ≡ false
    → lib.sign_access (session_claims now ttl s) ≡ some t
    → count_where (has_hash (hash token)) db.sessions ≤ 1
    → count_where (has_sid s.id) db.sessions ≤ 1
    → any (has_hash (hash fresh)) db.sessions ≡ false
    → let after = (refresh lib hash now ttl fresh r db).1.sessions in
      ((refresh lib hash now ttl fresh r db).0 ≡ ok (t, fresh))
      × (find_active_by_refresh_hash later (hash token) after ≡ none)
      × (find_active_by_refresh_hash now (hash fresh) after ≡ some (rotated now (hash fresh) s))
unfolding refresh refresh_session encode_access
refresh_rotates lib hash now later ttl fresh token t r db s c f g signed hashes ids new =
    rw (refresh, c, f, refresh_session, g, encode_access, signed)
      (
        refl,
        find-rotate_old now later (hash token) (hash fresh) db.sessions s
            (fresh_differs now (hash token) (hash fresh) db.sessions s f new) f hashes,
        find-rotate_new now (hash token) (hash fresh) db.sessions s f ids new,
      )

is_live-rotate :
    (now later : ℕ) (old new : String) (sessions : List Session) (s : Session)
    → find_active_by_refresh_hash now old sessions ≡ some s
    → later < s.expires_at
    → is_live later s.id (rotate now s.id new sessions) ≡ true
unfolding rotate rotated find_active_by_refresh_hash
is_live-rotate now later old new [] s h l = absurd (ground (arith, h))
is_live-rotate now later old new (x ∷ sessions) s h l =
    elim (Bool-cases (has_hash old x && is_active now x)) [
      | inr e ↦ ground (arith, is_live-rotate now later old new sessions s (ground (arith, e, h)) l)
      | inl e ↦
          let same : x ≡ s = ground (arith, e, h) in
          let long : later < x.expires_at = subst (λ y. later < y.expires_at) (sym same) l in
          subst (λ y. is_live later y.id (rotate now y.id new (x ∷ sessions)) ≡ true) same
            (ground (arith, e, lt→ltb later x.expires_at long, nat_beq_iff x.id x.id))
    ]

-- The access token that a refresh with the token of an active session answers authenticates its
-- bearer as the user of that session until the token or the session expires, with the sessions as
-- the refresh leaves them, where signed tokens read as what was signed.
pub refresh_then_authenticate :
    (lib : TokenLibrary) (hash : String → String) (now later ttl : ℕ) (fresh token t : String)
    (r next : Request) (db : AuthDb) (s : Session)
    → SignsFaithfully lib
    → get_cookie r refresh_cookie ≡ some token
    → find_active_by_refresh_hash now (hash token) db.sessions ≡ some s
    → (refresh lib hash now ttl fresh r db).0 ≡ ok (t, fresh)
    → extract_bearer_or_cookie next access_cookie ≡ some t
    → later < now + ttl
    → later < s.expires_at
    → authenticate lib later next (some (refresh lib hash now ttl fresh r db).1.sessions)
      ≡ ok (principal_of_claims (session_claims now ttl s))
unfolding refresh refresh_session encode_access authenticate claims_of check_live decode_access
    session_claims access_claims
refresh_then_authenticate lib hash now later ttl fresh token t r next db s faithful c f done n exp
      long =
    elim (Bool-cases (is_gated now s db.credentials)) [
      | inl g ↦ absurd (ground (arith, c, f, g, done))
      | inr g ↦ elim (Option-cases (lib.sign_access (session_claims now ttl s))) [
        | inl e ↦ absurd (ground (arith, c, f, g, e, done))
        | inr (u, e) ↦
            let same : u ≡ t = ground (arith, c, f, g, e, done) in
            let read =
              faithful.read_signed (session_claims now ttl s) t later (e ∙ ap some same) exp in
            rw
              (
                refresh,
                c,
                f,
                refresh_session,
                g,
                authenticate,
                claims_of,
                n,
                decode_access,
                read,
                check_live,
                is_live-rotate now later (hash token) (hash fresh) db.sessions s f long,
              )
              refl
      ]
    ]
