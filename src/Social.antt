-- ===== src/Social.antt =====
-- Friends and blocks: crates/ppb-server/src/social/mod.rs, over the tables `friend_requests`,
-- `friendships` and `user_blocks` of migrations/0001_init.sql. Fresh ids are arguments; times and
-- the notification that a request inserts are left out. Users are taken to exist, and statements to
-- succeed but where a constraint of the tables refuses them.
mod Ordering
mod Friendship
mod Tests
use phira_plus_backend.Prelude.{
  ℕ, Bool, true, false, not, ◌&&◌, ◌||◌, Option, none, some, List, [], ◌∷◌, ◌==◌, nat_eq, any, find,
  select, update_where, ltb, if◌then◌else◌,
}
use phira_plus_backend.ErrorCode.{
  validation_failed, already_friends, friend_request_already_sent, friend_request_not_found,
  resource_conflict,
}
use phira_plus_backend.ApiError.{Result, ok, err, api_error, validation, denied}

-- The column `status`; no statement of the program writes `cancelled`.
pub data RequestStatus : Type 0 where
  pending accepted declined : RequestStatus

pub record FriendRequest : Type 0 where
  pub id : ℕ
  pub from_user_id : ℕ
  pub to_user_id : ℕ
  pub status : RequestStatus

-- The three tables; a friendship is (user_a, user_b), a block (blocker_id, blocked_id).
pub record Db : Type 0 where
  pub requests : List FriendRequest
  pub friendships : List (ℕ × ℕ)
  pub blocks : List (ℕ × ℕ)

abbrev pub is_pair : ℕ → ℕ → ℕ × ℕ → Bool
is_pair a b row = row.0 == a && row.1 == b

-- A row that joins the two users, in either order.
abbrev pub joins : ℕ → ℕ → ℕ × ℕ → Bool
joins a b row = is_pair a b row || is_pair b a row

abbrev pub is_from_to : ℕ → ℕ → FriendRequest → Bool
is_from_to a b r = r.from_user_id == a && r.to_user_id == b

abbrev pub has_id : ℕ → FriendRequest → Bool
has_id id r = r.id == id

abbrev pub new_request : ℕ → ℕ → ℕ → FriendRequest
new_request fresh a b = record { id = fresh; from_user_id = a; to_user_id = b; status = pending }

pub send_request : ℕ → ℕ → ℕ → Db → Result FriendRequest × Db
send_request fresh a b db =
    if a == b
    then (err (api_error validation_failed "cannot friend yourself"), db)
    else if any (joins a b) db.friendships
    then (err (api_error already_friends "already friends"), db)
    else if any (is_from_to a b) db.requests
    then (err (api_error friend_request_already_sent "friend request already sent"), db)
    else (ok (new_request fresh a b), record db { requests = new_request fresh a b ∷ db.requests })

abbrev pub is_pending : RequestStatus → Bool
is_pending pending = true
is_pending _ = false

-- `UPDATE friend_requests SET status = …`.
abbrev pub answered : RequestStatus → FriendRequest → FriendRequest
answered status r = record r { status = status }

pub normalize_pair : ℕ → ℕ → ℕ × ℕ
normalize_pair a b = if ltb a b then (a, b) else (b, a)

-- `INSERT INTO friendships … ON CONFLICT DO NOTHING`.
pub insert_pair : ℕ × ℕ → List (ℕ × ℕ) → List (ℕ × ℕ)
insert_pair p rows = if any (is_pair p.0 p.1) rows then rows else p ∷ rows

-- The transaction of `respond_request`.
pub settle : FriendRequest → Bool → Db → Db
unfolding normalize_pair insert_pair
settle r true db = record db {
  requests = update_where (has_id r.id) (answered accepted) db.requests;
  friendships = insert_pair (normalize_pair r.from_user_id r.to_user_id) db.friendships;
}
settle r false db = record db {
  requests = update_where (has_id r.id) (answered declined) db.requests;
}

pub respond_request : ℕ → ℕ → Bool → Db → Result (Unit {0}) × Db
unfolding settle
respond_request id to_user accept db = elim (find (has_id id) db.requests) [
  | none ↦ (err (api_error friend_request_not_found "friend request not found"), db)
  | some r ↦
      if not (r.to_user_id == to_user)
      then (err denied, db)
      else if not (is_pending r.status)
      then (err (api_error resource_conflict "request already handled"), db)
      else (ok tt, settle r accept db)
]

pub remove_friend : ℕ → ℕ → Db → Db
unfolding normalize_pair
remove_friend a b db = record db {
  friendships =
      select (λ row. not (is_pair (normalize_pair a b).0 (normalize_pair a b).1 row))
        db.friendships;
}

-- The `CASE` of `list_friends`.
pub friends_in : ℕ → List (ℕ × ℕ) → List ℕ
friends_in user [] = []
friends_in user ((a, b) ∷ rows) =
    let rest = friends_in user rows in
    if a == user || b == user then (if a == user then b else a) ∷ rest else rest

pub list_friends : ℕ → Db → List ℕ
unfolding friends_in
list_friends user db = friends_in user db.friendships

pub are_friends : ℕ → ℕ → Db → Bool
are_friends a b db = any (joins a b) db.friendships

pub is_blocked : ℕ → ℕ → Db → Bool
is_blocked a b db = any (joins a b) db.blocks

pub block : ℕ → ℕ → Db → Result (Unit {0}) × Db
unfolding insert_pair remove_friend
block blocker blocked db =
    if blocker == blocked then (err (validation "cannot block yourself"), db) else (
      ok tt,
      remove_friend blocker blocked
          (record db { blocks = insert_pair (blocker, blocked) db.blocks }),
    )

pub unblock : ℕ → ℕ → Db → Db
unblock blocker blocked db = record db {
  blocks = select (λ row. not (is_pair blocker blocked row)) db.blocks;
}
