-- ===== src/ReplayAccess/Sharing.antt =====
-- The owner's calls: set_replay_visibility, create_share and revoke_share of
-- crates/ppb-server/src/replay/routes.rs with ensure_owner, over the statements of replay/mod.rs. The
-- fresh ids and the fresh token are arguments. The column created_by of a link, which nothing reads,
-- is left out.
mod Ownership
mod Links
mod Tests
use phira_plus_backend.Prelude.{
  ℕ, String, Bool, true, false, not, ◌&&◌, Option, none, some, List, [], ◌∷◌, ◌==◌, nat_eq,
  string_eq, any, contains, find, update_where, nat_beq, if◌then◌else◌,
}
use phira_plus_backend.ErrorCode.{replay_visibility_invalid}
use phira_plus_backend.ApiError.{ApiError, Result, ok, err, ◌>>◌, api_error, denied, internal}
use phira_plus_backend.ReplayAccess.{
  Db, ReplayOverride, ShareLink, UserRow, Visibility, public, friends, private, unlisted, custom,
  inherit, get_override, is_of, is_some_of, phira_of,
}

-- `VISIBILITIES.contains`, with the value that the text stands for.
pub visibility_of : String → Option Visibility
visibility_of text =
    if text == "inherit"
    then some inherit
    else if text == "public"
    then some public
    else if text == "friends"
    then some friends
    else if text == "private"
    then some private
    else if text == "unlisted"
    then some unlisted
    else if text == "custom"
    then some custom
    else none

abbrev pub refuse_unless : Bool → Result (Unit {0})
refuse_unless allowed = if allowed then ok tt else err denied

pub ensure_owner : String → ℕ → ℕ → Db → Result (Unit {0})
unfolding get_override phira_of
ensure_owner round player uid db = elim (get_override round player db) [
  | some o ↦ refuse_unless (is_some_of uid o.owner_user_id)
  | none ↦ refuse_unless (is_some_of player (phira_of (find (λ u. u.id == uid) db.users)))
]

abbrev pub new_override : ℕ → String → ℕ → ℕ → Visibility → ReplayOverride
new_override fresh round player uid v = record {
  id = fresh;
  pmp_replay_id = round;
  player_phira_id = player;
  owner_user_id = some uid;
  visibility = v;
}

abbrev pub shown_as : Visibility → ReplayOverride → ReplayOverride
shown_as v o = record o { visibility = v }

-- `INSERT … ON CONFLICT … DO UPDATE`, which keeps the owner.
pub set_visibility : ℕ → String → ℕ → ℕ → Visibility → Db → Db
unfolding get_override
set_visibility fresh round player uid v db = elim (get_override round player db) [
  | none ↦ record db { overrides = new_override fresh round player uid v ∷ db.overrides }
  | some o ↦ record db { overrides = update_where (is_of round player) (shown_as v) db.overrides }
]

pub set_replay_visibility : ℕ → ℕ → String → ℕ → String → Db → Result (Unit {0}) × Db
unfolding visibility_of ensure_owner set_visibility
set_replay_visibility fresh uid round player text db = elim (visibility_of text) [
  | none ↦ (err (api_error replay_visibility_invalid "invalid replay visibility"), db)
  | some v ↦ elim (ensure_owner round player uid db) [
    | err e ↦ (err e, db)
    | ok done ↦ (ok tt, set_visibility fresh round player uid v db)
  ]
]

abbrev pub new_link : ℕ → String → String → ℕ → Option ℕ → ShareLink
new_link fresh token_hash round player expires_at = record {
  id = fresh;
  token_hash = token_hash;
  replay_round = round;
  player_phira_id = player;
  expires_at = expires_at;
  revoked_at = none;
}

-- `create_share`; the column token_hash is unique. The answer is the link and the token.
pub create_share :
    (String → String)
    → ℕ
    → String
    → ℕ
    → String
    → ℕ
    → Option ℕ
    → Db
    → Result (ShareLink × String) × Db
unfolding ensure_owner
create_share hash fresh token uid round player expires_at db =
    elim (ensure_owner round player uid db) [
      | err e ↦ (err e, db)
      | ok done ↦ if any (λ l. l.token_hash == hash token) db.links then (err internal, db) else (
        ok (new_link fresh (hash token) round player expires_at, token),
        record db { links = new_link fresh (hash token) round player expires_at ∷ db.links },
      )
    ]

abbrev pub revoked_now : ℕ → ShareLink → ShareLink
revoked_now now l = record l { revoked_at = some now }

pub revoke_share_link : ℕ → ℕ → Db → Db
revoke_share_link now link_id db = record db {
  links = update_where (λ l. l.id == link_id) (revoked_now now) db.links;
}

pub revoke_share : ℕ → ℕ → String → ℕ → ℕ → Db → Result (Unit {0}) × Db
unfolding ensure_owner revoke_share_link
revoke_share now uid round player link_id db = elim (ensure_owner round player uid db) [
  | err e ↦ (err e, db)
  | ok done ↦ (ok tt, revoke_share_link now link_id db)
]
