-- ===== src/ReplayAccess/Sharing/Links.antt =====
-- A share link from its creation to its revocation: crates/ppb-server/src/replay/routes.rs and mod.rs.
use phira_plus_backend.Prelude.{
  ℕ, ◌≡◌, refl, sym, String, false, Option, some, ◌==◌, nat_eq, string_eq, eq_iff, nat_beq_iff, any,
  find, find-update_other, Bool-cases, arith, inl, inr,
}
use phira_plus_backend.ErrorCode.{replay_share_revoked}
use phira_plus_backend.ApiError.{ok, err, Result-cases, api_error}
use phira_plus_backend.Permissions.{Principal}
use phira_plus_backend.ReplayAccess.{
  Db, ShareLink, is_over, use_link, pin, resolve_share_token, resolve_replay_access,
}
use phira_plus_backend.ReplayAccess.Sharing.{
  create_share, ensure_owner, revoke_share, revoke_share_link, revoked_now,
}

-- A link that was created lets everyone with its token see its round and player, whatever pair the
-- request names beside the round, until it expires.
pub create_share-resolve :
    (hash : String → String) (fresh : ℕ) (token : String) (uid : ℕ) (round : String) (player : ℕ)
    (expires_at : Option ℕ) (db : Db) (now requested : ℕ) (requester : Option Principal)
    (link : ShareLink) (given : String)
    → (create_share hash fresh token uid round player expires_at db).0 ≡ ok (link, given)
    → is_over now expires_at ≡ false
    → resolve_replay_access hash now round requested requester
        (some given)
        (create_share hash fresh token uid round player expires_at db).1
      ≡ ok (some player)
unfolding create_share resolve_replay_access resolve_share_token use_link pin
create_share-resolve hash fresh token uid round player expires_at db now requested requester link
      given h lasts =
    elim (Result-cases (ensure_owner round player uid db)) [
      | inr (x, e) ↦ absurd (ground (arith, e, h))
      | inl (done, e) ↦ elim (Bool-cases (any (λ l. l.token_hash == hash token) db.links)) [
        | inl t ↦ absurd (ground (arith, e, t, h))
        | inr t ↦
            let same : token ≡ given = ground (arith, e, t, h) in
            let found = (eq_iff (hash token) (hash token)).1 refl in
            let again = (eq_iff round round).1 refl in
            rw (create_share, e, t, sym same, found, lasts, again) refl
      ]
    ]

-- A caller who may manage one pair of a round and a player, whichever it is, revokes any link by its
-- id: the token of the link is refused from then on, though the link be another pair's.
pub revoke_share-refuses :
    (hash : String → String) (now later uid : ℕ) (round : String) (player : ℕ) (link : ShareLink)
    (db : Db) (token : String)
    → ensure_owner round player uid db ≡ ok tt
    → find (λ l. l.token_hash == hash token) db.links ≡ some link
    → ((revoke_share now uid round player link.id db).0 ≡ ok tt)
      × (resolve_share_token hash later token (revoke_share now uid round player link.id db).1
          ≡ err (api_error replay_share_revoked "share link revoked"))
unfolding revoke_share revoke_share_link resolve_share_token use_link
revoke_share-refuses hash now later uid round player link db token owner found =
    let found' =
      find-update_other (λ l. l.token_hash == hash token) (λ l. l.id == link.id) (revoked_now now)
        db.links link (λ x. refl) found in
    let mine = (nat_beq_iff link.id link.id).1 refl in
    rw (revoke_share, owner) (refl, rw (found', mine) refl)
