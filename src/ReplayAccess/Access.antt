-- ===== src/ReplayAccess/Access.antt =====
-- What the access checks promise: crates/ppb-server/src/replay/visibility.rs.
use phira_plus_backend.Social
use phira_plus_backend.Prelude.{
  ap, nat_beq_iff, contains, ◌&&◌, ℕ, ◌≡◌, refl, subst, String, true, false, ◌||◌, inl, inr, Option,
  none, some, ◌==◌, nat_eq, string_eq, eq_iff, find, arith, is_some, Bool-cases, Option-cases,
}
use phira_plus_backend.ApiError.{ok}
use phira_plus_backend.Permissions.{Principal, root, user}
use phira_plus_backend.ReplayAccess.{
  Db, ShareLink, is_public, is_some_of, is_over, get_override, effective_visibility,
  requester_phira_id, owner_of, shared_with, check_private, check_pair_access, use_link, Visibility,
  ReplayOverride, UserRow, AclRow, public, friends, private, unlisted, custom, inherit, phira_of,
  or_nil, custom_access, acl_allows, resolve_share_token, pin, resolve_replay_access,
}

-- Why a user may see a replay.
pub data MaySee (round : String) (player uid : ℕ) (db : Db) : Type 0 where
  of_public : effective_visibility round player db ≡ public → MaySee round player uid db
  of_owner :
      (o : ReplayOverride)
      → get_override round player db ≡ some o
      → o.owner_user_id ≡ some uid
      → MaySee round player uid db
  of_player :
      (u : UserRow)
      → find (λ u. u.id == uid) db.users ≡ some u
      → u.phira_id ≡ player
      → MaySee round player uid db
  of_friend :
      effective_visibility round player db ≡ friends
      → contains
          (Social.list_friends (or_nil (owner_of (get_override round player db))) db.social)
          uid
        ≡ true
      → MaySee round player uid db
  of_acl :
      (o : ReplayOverride) (row : AclRow)
      → effective_visibility round player db ≡ custom
      → get_override round player db ≡ some o
      → find (λ row. row.replay_id == o.id && row.user_id == uid) db.acl ≡ some row
      → row.allows ≡ true
      → MaySee round player uid db

is_public-public : (v : Visibility) → is_public v ≡ true → v ≡ public
is_public-public public h = refl
is_public-public friends h = cc
is_public-public private h = cc
is_public-public unlisted h = cc
is_public-public custom h = cc
is_public-public inherit h = cc

is_some_of-some : (n : ℕ) (o : Option ℕ) → is_some_of n o ≡ true → o ≡ some n
is_some_of-some n none h = cc
is_some_of-some n (some m) h = ap some ((nat_beq_iff m n).0 h)

owner-MaySee :
    (round : String) (player uid : ℕ) (db : Db)
    → owner_of (get_override round player db) ≡ some uid
    → MaySee round player uid db
unfolding owner_of
owner-MaySee round player uid db h = elim (Option-cases (get_override round player db)) [
  | inl e ↦ absurd (ground (arith, e, h))
  | inr (o, e) ↦ of_owner o e (ground (arith, e, h))
]

player-MaySee :
    (round : String) (player uid : ℕ) (db : Db)
    → requester_phira_id (user uid) db ≡ some player
    → MaySee round player uid db
unfolding requester_phira_id phira_of
player-MaySee round player uid db h = elim (Option-cases (find (λ u. u.id == uid) db.users)) [
  | inl e ↦ absurd (ground (arith, e, h))
  | inr (u, e) ↦ of_player u e (ground (arith, e, h))
]

acl-MaySee :
    (round : String) (player uid : ℕ) (db : Db)
    → effective_visibility round player db ≡ custom
    → custom_access (get_override round player db) uid db ≡ true
    → MaySee round player uid db
unfolding custom_access acl_allows
acl-MaySee round player uid db v h = elim (Option-cases (get_override round player db)) [
  | inl e ↦ absurd (ground (arith, e, h))
  | inr (o, e) ↦
      let found = find (λ row. row.replay_id == o.id && row.user_id == uid) db.acl in
      elim (Option-cases found) [
        | inl n ↦ absurd (ground (arith, e, n, h))
        | inr (row, n) ↦ of_acl o row v e n (ground (arith, e, n, h))
      ]
]

shared-MaySee :
    (round : String) (player uid : ℕ) (db : Db) (v : Visibility)
    → effective_visibility round player db ≡ v
    → shared_with v (get_override round player db) uid db ≡ true
    → MaySee round player uid db
unfolding shared_with
shared-MaySee round player uid db friends e h = of_friend e h
shared-MaySee round player uid db custom e h = acl-MaySee round player uid db e h
shared-MaySee round player uid db public e h = absurd (ground (arith, h))
shared-MaySee round player uid db private e h = absurd (ground (arith, h))
shared-MaySee round player uid db unlisted e h = absurd (ground (arith, h))
shared-MaySee round player uid db inherit e h = absurd (ground (arith, h))

checked-MaySee :
    (round : String) (player uid : ℕ) (db : Db)
    → check_pair_access round player (some (user uid)) db ≡ true
    → MaySee round player uid db
unfolding check_pair_access check_private
checked-MaySee round player uid db h =
    let v = effective_visibility round player db in
    let owner = owner_of (get_override round player db) in
    let self = requester_phira_id (user uid) db in
    elim (Bool-cases (is_public v)) [
      | inl e ↦ of_public (is_public-public v e)
      | inr e ↦ elim (Bool-cases (is_some_of uid owner)) [
        | inl o ↦ owner-MaySee round player uid db (is_some_of-some uid owner o)
        | inr o ↦ elim (Bool-cases (is_some_of player self)) [
          | inl p ↦ player-MaySee round player uid db (is_some_of-some player self p)
          | inr p ↦ shared-MaySee round player uid db v refl (ground (arith, e, o, p, h))
        ]
      ]
    ]

MaySee-checked :
    (round : String) (player uid : ℕ) (db : Db)
    → MaySee round player uid db
    → check_pair_access round player (some (user uid)) db ≡ true
unfolding check_pair_access check_private owner_of requester_phira_id phira_of shared_with
    custom_access acl_allows
MaySee-checked round player uid db (of_public e) = rw (e, check_pair_access) refl
MaySee-checked round player uid db (of_owner o e own) = ground (arith, e, own, nat_beq_iff uid uid)
MaySee-checked round player uid db (of_player u e self) =
    ground (arith, e, self, nat_beq_iff player player)
MaySee-checked round player uid db (of_friend e friend) =
    rw (e, check_pair_access, check_private, shared_with) (ground (arith, friend))
MaySee-checked round player uid db (of_acl o row v e found allowed) =
    rw (v, e, check_pair_access, check_private, shared_with) (ground (arith, found, allowed))

-- Anyone without a login sees a replay exactly if it is public, Root sees every replay, and a user
-- sees it exactly for one of five reasons: it is public; the user owns its override; the user is its
-- player; it is shared with the friends of its owner and the user is one (for an override with no
-- owner, of the nil uuid); or it is shared by its list and the list's row of the user allows it. By
-- this check, which a request with a share token passes by, a private or unlisted replay is thus seen
-- by its owner, its player and Root alone.
pub check_pair_access-MaySee :
    (round : String) (player : ℕ) (db : Db)
    → (check_pair_access round player none db ≡ is_public (effective_visibility round player db))
      × (check_pair_access round player (some root) db ≡ true)
      × ((uid : ℕ)
          → (check_pair_access round player (some (user uid)) db ≡ true
              → MaySee round player uid db)
            × (MaySee round player uid db
                → check_pair_access round player (some (user uid)) db ≡ true))
unfolding check_pair_access check_private
check_pair_access-MaySee round player db = (
  ground arith,
  ground arith,
  λ uid. (checked-MaySee round player uid db, MaySee-checked round player uid db),
)

-- The link of the token is stored, not revoked, not over, and of this round and player.
pub record Pins (hash : String → String) (now : ℕ) (token round : String) (player : ℕ) (db : Db)
    : Type 0 where
  pub link : ShareLink
  pub stored : find (λ l. l.token_hash == hash token) db.links ≡ some link
  pub live : (is_some link.revoked_at || is_over now link.expires_at) ≡ false
  pub of_round : link.replay_round ≡ round
  pub of_player : link.player_phira_id ≡ player

no_link :
    (now : ℕ) (round : String) (player : ℕ) → pin round (use_link now none) ≡ ok (some player) → ⊥
unfolding use_link pin
no_link now round player h = absurd (ground (arith, h))

use_link-live :
    (hash : String → String) (now : ℕ) (round token : String) (player : ℕ) (db : Db) (l : ShareLink)
    → find (λ l. l.token_hash == hash token) db.links ≡ some l
    → pin round (use_link now (some l)) ≡ ok (some player)
    → Pins hash now token round player db
unfolding use_link pin
use_link-live hash now round token player db l e h = elim (Bool-cases (is_some l.revoked_at)) [
  | inl r ↦ absurd (ground (arith, h, r))
  | inr r ↦ elim (Bool-cases (is_over now l.expires_at)) [
    | inl o ↦ absurd (ground (arith, h, r, o))
    | inr o ↦ elim (Bool-cases (l.replay_round == round)) [
      | inr n ↦ absurd (ground (arith, h, r, o, n))
      | inl n ↦ record {
        link = l;
        stored = e;
        live = ground (arith, r, o);
        of_round = (eq_iff l.replay_round round).0 n;
        of_player = ground (arith, h, r, o, n);
      }
    ]
  ]
]

-- A share token gives access only to the round and the player of its own stored link, which is
-- neither revoked nor over, whoever asks and whatever player was asked for.
pub token-Pins :
    (hash : String → String) (now : ℕ) (round token : String) (requested player : ℕ)
    (requester : Option Principal) (db : Db)
    → resolve_replay_access hash now round requested requester (some token) db ≡ ok (some player)
    → Pins hash now token round player db
unfolding resolve_replay_access resolve_share_token
token-Pins hash now round token requested player requester db h =
    elim (Option-cases (find (λ l. l.token_hash == hash token) db.links)) [
      | inl e ↦ absurd (
          no_link now round player (subst (λ o. pin round (use_link now o) ≡ ok (some player)) e h))
      | inr (l, e) ↦
          use_link-live hash now round token player db l e
            (subst (λ o. pin round (use_link now o) ≡ ok (some player)) e h)
    ]
