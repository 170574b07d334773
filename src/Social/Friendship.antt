-- ===== src/Social/Friendship.antt =====
-- What requests, answers, removals and blocks do to friendships: crates/ppb-server/src/social/mod.rs.
use phira_plus_backend.Prelude.{
  ℕ, ◌≡◌, ◌∙◌, refl, ap, Bool, true, false, not, ◌&&◌, ◌||◌, some, List, [], ◌∷◌, ◌==◌, nat_eq,
  nat_beq_iff, any, every, find, any-update_where, any-found, select, ltb, contains, arith,
  Bool-cases, inl, inr,
}
use phira_plus_backend.ErrorCode.{friend_request_already_sent}
use phira_plus_backend.ApiError.{ok, err, api_error}
use phira_plus_backend.Social.Ordering.{IsOrdered}
use phira_plus_backend.Social.{
  Db, FriendRequest, pending, accepted, declined, is_pair, joins, is_from_to, has_id, send_request,
  answered, normalize_pair, insert_pair, settle, respond_request, remove_friend, friends_in,
  list_friends, are_friends, is_blocked, block,
}

-- The normalized pair joins the users of either order, and no others.
joins-normalize_pair : (a b x y : ℕ) → joins x y (normalize_pair a b) ≡ (joins x y (a, b))
unfolding normalize_pair
joins-normalize_pair a b x y = ground arith

any-joins :
    (p : ℕ × ℕ) (x y : ℕ) (rows : List (ℕ × ℕ))
    → any (is_pair p.0 p.1) rows ≡ true
    → any (joins x y) rows ≡ (joins x y p || any (joins x y) rows)
any-joins p x y [] h = absurd (ground (arith, h))
any-joins p x y (row ∷ rows) h = ground (arith, any-joins p x y rows)

any-insert_pair :
    (p : ℕ × ℕ) (x y : ℕ) (rows : List (ℕ × ℕ))
    → any (joins x y) (insert_pair p rows) ≡ (joins x y p || any (joins x y) rows)
unfolding insert_pair
any-insert_pair p x y rows = elim (Bool-cases (any (is_pair p.0 p.1) rows)) [
  | inl e ↦ rw e (any-joins p x y rows e)
  | inr e ↦ rw e refl
]

-- Of ordered rows, removing the normalized pair leaves just those that join other users.
any-remove :
    (a b x y : ℕ) (rows : List (ℕ × ℕ))
    → every (λ row. ltb row.0 row.1) rows ≡ true
    → any
        (joins x y)
        (select (λ row. not (is_pair (normalize_pair a b).0 (normalize_pair a b).1 row)) rows)
      ≡ (not (joins x y (a, b)) && any (joins x y) rows)
unfolding normalize_pair
any-remove a b x y [] o = ground arith
any-remove a b x y (row ∷ rows) o = ground (arith, any-remove a b x y rows)

contains-friends_in :
    (user other : ℕ) (rows : List (ℕ × ℕ))
    → contains (friends_in user rows) other ≡ any (joins user other) rows
unfolding friends_in
contains-friends_in user other [] = refl
contains-friends_in user other ((a, b) ∷ rows) = ground (arith, contains-friends_in user other rows)

any-swap : (x y : ℕ) (rows : List (ℕ × ℕ)) → any (joins x y) rows ≡ any (joins y x) rows
any-swap x y [] = refl
any-swap x y (row ∷ rows) = ground (arith, any-swap x y rows)

settled :
    (x y : ℕ) (accept : Bool) (db : Db) (r : FriendRequest)
    → are_friends x y (settle r accept db)
      ≡ ((accept && joins x y (r.from_user_id, r.to_user_id)) || are_friends x y db)
unfolding settle are_friends
settled x y true db r =
    any-insert_pair (normalize_pair r.from_user_id r.to_user_id) x y db.friendships
    ∙ ap (λ b. b || any (joins x y) db.friendships)
        (joins-normalize_pair r.from_user_id r.to_user_id x y)
settled x y false db r = refl

-- `list_friends` names just the users that `are_friends` accepts, and `are_friends` does not tell
-- the two users apart.
pub list_friends-are_friends :
    (user other : ℕ) (db : Db)
    → (contains (list_friends user db) other ≡ are_friends user other db)
      × (are_friends user other db ≡ are_friends other user db)
unfolding list_friends are_friends
list_friends-are_friends user other db =
    (contains-friends_in user other db.friendships, any-swap user other db.friendships)

-- An accepted request makes its two users friends, and changes no other pair's friendship; a
-- declined one changes none. Both need a pending request and its addressee.
pub respond_request-friends :
    (id to_user x y : ℕ) (accept : Bool) (db : Db) (r : FriendRequest)
    → find (has_id id) db.requests ≡ some r
    → (r.to_user_id == to_user) ≡ true
    → r.status ≡ pending
    → ((respond_request id to_user accept db).0 ≡ ok tt)
      × (are_friends x y (respond_request id to_user accept db).1
          ≡ ((accept && joins x y (r.from_user_id, r.to_user_id)) || are_friends x y db))
unfolding respond_request
respond_request-friends id to_user x y accept db r found mine waiting =
    rw (respond_request, found, mine, waiting) (refl, settled x y accept db r)

-- A block succeeds between two different users, ends their friendship and no other, and blocks them
-- for each other, where friendships are stored in order.
pub block-ends :
    (a b x y : ℕ) (db : Db)
    → (a == b) ≡ false
    → IsOrdered db
    → ((block a b db).0 ≡ ok tt)
      × (is_blocked a b (block a b db).1 ≡ true)
      × (is_blocked b a (block a b db).1 ≡ true)
      × (are_friends x y (block a b db).1 ≡ (not (joins x y (a, b)) && are_friends x y db))
unfolding block is_blocked are_friends remove_friend
block-ends a b x y db n o =
    rw (block, n)
      (
        refl,
        any-insert_pair (a, b) a b db.blocks ∙ ground (arith, nat_beq_iff a a, nat_beq_iff b b),
        any-insert_pair (a, b) b a db.blocks ∙ ground (arith, nat_beq_iff a a, nat_beq_iff b b),
        any-remove a b x y db.friendships o.friendships,
      )

block-requests : (a b : ℕ) (db : Db) → (block a b db).1.requests ≡ db.requests
unfolding block remove_friend
block-requests a b db = ground arith

is_blocked-block :
    (a b x y : ℕ) (db : Db)
    → (a == b) ≡ false
    → is_blocked x y (block a b db).1 ≡ (joins x y (a, b) || is_blocked x y db)
unfolding block is_blocked remove_friend
is_blocked-block a b x y db n = rw (block, n) (any-insert_pair (a, b) x y db.blocks)

settle-blocks :
    (x y : ℕ) (accept : Bool) (db : Db) (r : FriendRequest)
    → is_blocked x y (settle r accept db) ≡ is_blocked x y db
unfolding settle is_blocked
settle-blocks x y true db r = refl
settle-blocks x y false db r = refl

respond_request-blocks :
    (id to_user : ℕ) (accept : Bool) (x y : ℕ) (db : Db) (r : FriendRequest)
    → find (has_id id) db.requests ≡ some r
    → (r.to_user_id == to_user) ≡ true
    → r.status ≡ pending
    → is_blocked x y (respond_request id to_user accept db).1 ≡ is_blocked x y db
unfolding respond_request
respond_request-blocks id to_user accept x y db r found mine waiting =
    rw (respond_request, found, mine, waiting) (settle-blocks x y accept db r)

settle-requests :
    (a b : ℕ) (accept : Bool) (db : Db) (r : FriendRequest)
    → any (is_from_to a b) (settle r accept db).requests ≡ any (is_from_to a b) db.requests
unfolding settle
settle-requests a b true db r =
    any-update_where (is_from_to a b) (has_id r.id) (answered accepted) db.requests (λ x. refl)
settle-requests a b false db r =
    any-update_where (is_from_to a b) (has_id r.id) (answered declined) db.requests (λ x. refl)

respond_request-requests :
    (id to_user : ℕ) (accept : Bool) (a b : ℕ) (db : Db) (r : FriendRequest)
    → find (has_id id) db.requests ≡ some r
    → (r.to_user_id == to_user) ≡ true
    → r.status ≡ pending
    → any (is_from_to a b) (respond_request id to_user accept db).1.requests
      ≡ any (is_from_to a b) db.requests
unfolding respond_request
respond_request-requests id to_user accept a b db r found mine waiting =
    rw (respond_request, found, mine, waiting) (settle-requests a b accept db r)

send_request-refused :
    (fresh a b : ℕ) (db : Db)
    → (a == b) ≡ false
    → are_friends a b db ≡ false
    → any (is_from_to a b) db.requests ≡ true
    → (send_request fresh a b db).0
      ≡ err (api_error friend_request_already_sent "friend request already sent")
unfolding send_request are_friends
send_request-refused fresh a b db n apart sent = rw (send_request, n, apart, sent) refl

-- A pending request may still be accepted after its addressee has blocked its sender: the two are
-- then friends and blocked at once.
pub accepted_after_block :
    (id a b : ℕ) (db : Db) (r : FriendRequest)
    → find (has_id id) db.requests ≡ some r
    → r.from_user_id ≡ a
    → r.to_user_id ≡ b
    → r.status ≡ pending
    → (a == b) ≡ false
    → ((respond_request id b true (block b a db).1).0 ≡ ok tt)
      × (are_friends a b (respond_request id b true (block b a db).1).1 ≡ true)
      × (is_blocked a b (respond_request id b true (block b a db).1).1 ≡ true)
accepted_after_block id a b db r found from to waiting n =
    let after = (block b a db).1 in
    let found' = ap (find (has_id id)) (block-requests b a db) ∙ found in
    let mine = (nat_beq_iff r.to_user_id b).1 to in
    let sent = (nat_beq_iff r.from_user_id a).1 from in
    let (done, friends) = respond_request-friends id b a b true after r found' mine waiting in
    (
      done,
      friends ∙ ground (arith, sent, mine),
      respond_request-blocks id b true a b after r found' mine waiting
          ∙ is_blocked-block b a a b db (ground (arith, n, nat_beq_iff a b, nat_beq_iff b a))
          ∙ ground (arith, nat_beq_iff a a, nat_beq_iff b b),
    )

-- A request that was answered, either way, keeps its sender from asking the same user again, whatever
-- has become of their friendship: the second request is refused as sent already.
pub answered_never_resent :
    (fresh id a b : ℕ) (accept : Bool) (db : Db) (r : FriendRequest)
    → find (has_id id) db.requests ≡ some r
    → r.from_user_id ≡ a
    → r.to_user_id ≡ b
    → r.status ≡ pending
    → (a == b) ≡ false
    → are_friends a b (remove_friend a b (respond_request id b accept db).1) ≡ false
    → (send_request fresh a b (remove_friend a b (respond_request id b accept db).1)).0
      ≡ err (api_error friend_request_already_sent "friend request already sent")
unfolding remove_friend
answered_never_resent fresh id a b accept db r found from to waiting n apart =
    let mine = (nat_beq_iff r.to_user_id b).1 to in
    let sent = (nat_beq_iff r.from_user_id a).1 from in
    send_request-refused fresh a b (remove_friend a b (respond_request id b accept db).1) n apart (
      respond_request-requests id b accept a b db r found mine waiting
      ∙ any-found (has_id id) (is_from_to a b) db.requests r found (ground (arith, sent, mine)))
