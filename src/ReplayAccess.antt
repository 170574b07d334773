-- ===== src/ReplayAccess.antt =====
-- Who may see a replay: crates/ppb-server/src/replay/visibility.rs, with `resolve_share_token` of
-- replay/mod.rs. A replay is a pair of a round and a player. The hash of a token, SHA-256, is an
-- argument, as is the clock. The database is taken to answer every query.
mod Access
mod Sharing
mod Tests
use phira_plus_backend.Prelude.{
  ℕ, String, Bool, true, false, not, ◌&&◌, ◌||◌, Option, none, some, List, ◌==◌, nat_eq, string_eq,
  find, contains, is_some, ltb, nat_beq, if◌then◌else◌,
}
use phira_plus_backend.ErrorCode.{replay_share_invalid, replay_share_expired, replay_share_revoked}
use phira_plus_backend.ApiError.{Result, ok, err, api_error}
use phira_plus_backend.Permissions.{Principal, root, user}
use phira_plus_backend.Social

pub data Visibility : Type 0 where
  public friends private unlisted custom inherit : Visibility

pub record ReplayOverride : Type 0 where
  pub id : ℕ
  pub pmp_replay_id : String
  pub player_phira_id : ℕ
  pub owner_user_id : Option ℕ
  pub visibility : Visibility

-- A row of `replay_acl`; `effect` is "allow" or "deny".
pub record AclRow : Type 0 where
  pub replay_id : ℕ
  pub user_id : ℕ
  pub allows : Bool

-- A row of `replay_share_links`.
pub record ShareLink : Type 0 where
  pub id : ℕ
  pub token_hash : String
  pub replay_round : String
  pub player_phira_id : ℕ
  pub expires_at : Option ℕ
  pub revoked_at : Option ℕ

pub record UserRow : Type 0 where
  pub id : ℕ
  pub phira_id : ℕ

pub record Db : Type 0 where
  pub overrides : List ReplayOverride
  pub acl : List AclRow
  pub links : List ShareLink
  pub users : List UserRow
  pub social : Social.Db

abbrev pub is_of : String → ℕ → ReplayOverride → Bool
is_of round player o = o.pmp_replay_id == round && o.player_phira_id == player

pub get_override : String → ℕ → Db → Option ReplayOverride
get_override round player db = find (is_of round player) db.overrides

-- An override that inherits counts as none.
pub or_public : Visibility → Visibility
or_public inherit = public
or_public public = public
or_public friends = friends
or_public private = private
or_public unlisted = unlisted
or_public custom = custom

pub effective_visibility : String → ℕ → Db → Visibility
unfolding get_override or_public
effective_visibility round player db = elim (get_override round player db) [
  | none ↦ public
  | some o ↦ or_public o.visibility
]

abbrev pub is_public : Visibility → Bool
is_public public = true
is_public _ = false

abbrev pub is_some_of : ℕ → Option ℕ → Bool
is_some_of n none = false
is_some_of n (some m) = nat_beq m n

pub phira_of : Option UserRow → Option ℕ
phira_of none = none
phira_of (some u) = some u.phira_id

pub requester_phira_id : Principal → Db → Option ℕ
unfolding phira_of
requester_phira_id root db = none
requester_phira_id (user id) db = phira_of (find (λ u. u.id == id) db.users)

pub owner_of : Option ReplayOverride → Option ℕ
owner_of none = none
owner_of (some o) = o.owner_user_id

-- `unwrap_or_default`: the nil uuid is 0.
pub or_nil : Option ℕ → ℕ
or_nil none = 0
or_nil (some id) = id

pub acl_allows : Option AclRow → Bool
acl_allows none = false
acl_allows (some row) = row.allows

-- The arm of `custom`.
pub custom_access : Option ReplayOverride → ℕ → Db → Bool
unfolding acl_allows
custom_access none uid db = false
custom_access (some o) uid db =
    acl_allows (find (λ row. row.replay_id == o.id && row.user_id == uid) db.acl)

-- The last `match` of `check_pair_access`.
pub shared_with : Visibility → Option ReplayOverride → ℕ → Db → Bool
unfolding or_nil owner_of custom_access
shared_with friends over uid db =
    contains (Social.list_friends (or_nil (owner_of over)) db.social) uid
shared_with custom over uid db = custom_access over uid db
shared_with _ over uid db = false

-- `check_pair_access` for a replay that is not public.
pub check_private : Visibility → Option ReplayOverride → ℕ → Option Principal → Db → Bool
unfolding shared_with requester_phira_id owner_of
check_private v over player none db = false
check_private v over player (some root) db = true
check_private v over player (some (user uid)) db =
    if is_some_of uid (owner_of over)
    then true
    else if is_some_of player (requester_phira_id (user uid) db)
    then true
    else shared_with v over uid db

pub check_pair_access : String → ℕ → Option Principal → Db → Bool
unfolding effective_visibility get_override check_private
check_pair_access round player requester db =
    if is_public (effective_visibility round player db)
    then true
    else check_private (effective_visibility round player db) (get_override round player db) player
        requester db

-- `Utc::now() > exp`.
abbrev pub is_over : ℕ → Option ℕ → Bool
is_over now none = false
is_over now (some exp) = ltb exp now

pub use_link : ℕ → Option ShareLink → Result (String × ℕ)
use_link now none = err (api_error replay_share_invalid "invalid share token")
use_link now (some l) =
    if is_some l.revoked_at
    then err (api_error replay_share_revoked "share link revoked")
    else if is_over now l.expires_at
    then err (api_error replay_share_expired "share link expired")
    else ok (l.replay_round, l.player_phira_id)

pub resolve_share_token : (String → String) → ℕ → String → Db → Result (String × ℕ)
unfolding use_link
resolve_share_token hash now token db =
    use_link now (find (λ l. l.token_hash == hash token) db.links)

pub pin : String → Result (String × ℕ) → Result (Option ℕ)
pin round (err e) = err e
pin round (ok (r, player)) = if not (r == round) then ok none else ok (some player)

pub resolve_replay_access :
    (String → String) → ℕ → String → ℕ → Option Principal → Option String → Db → Result (Option ℕ)
unfolding check_pair_access resolve_share_token pin
resolve_replay_access hash now round requested requester (some token) db =
    pin round (resolve_share_token hash now token db)
resolve_replay_access hash now round requested requester none db =
    if check_pair_access round requested requester db then ok (some requested) else ok none
