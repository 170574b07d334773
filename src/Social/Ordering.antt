-- ===== src/Social/Ordering.antt =====
-- Every sequence of the operations of crates/ppb-server/src/social/mod.rs keeps each friendship
-- stored once for its two users, as the table's CHECK demands.
use phira_plus_backend.Prelude.{
  ℕ, ◌≡◌, refl, Bool, true, false, not, some, List, [], ◌∷◌, ◌==◌, nat_eq, nat_beq_iff, every,
  every-select, find, update_where, ltb, arith, Option-cases, Bool-cases, inl, inr,
}
use phira_plus_backend.Social.{
  Db, FriendRequest, RequestStatus, accepted, declined, has_id, answered, send_request,
  respond_request, is_pending, normalize_pair, insert_pair, settle, remove_friend, block, unblock,
}

abbrev pub not_to_self : FriendRequest → Bool
not_to_self r = not (r.from_user_id == r.to_user_id)

abbrev pub in_order : ℕ × ℕ → Bool
in_order row = ltb row.0 row.1

-- No request is to its sender, and each friendship is stored with the smaller id first.
pub record IsOrdered (db : Db) : Type 0 where
  pub requests : every not_to_self db.requests ≡ true
  pub friendships : every in_order db.friendships ≡ true

abbrev pub empty : Db
empty = record { requests = []; friendships = []; blocks = [] }

-- One call, by any user.
pub data Step (db : Db) : Db → Type 0 where
  sent : (fresh a b : ℕ) → Step db (send_request fresh a b db).1
  responded : (id user : ℕ) (accept : Bool) → Step db (respond_request id user accept db).1
  removed : (a b : ℕ) → Step db (remove_friend a b db)
  blocked : (a b : ℕ) → Step db (block a b db).1
  unblocked : (a b : ℕ) → Step db (unblock a b db)

pub data Reach : Db → Type 0 where
  here : Reach empty
  next : {a b : Db} → Reach a → Step a b → Reach b

every-answered :
    (q : FriendRequest → Bool) (status : RequestStatus) (rs : List FriendRequest)
    → every not_to_self rs ≡ true
    → every not_to_self (update_where q (answered status) rs) ≡ true
every-answered q status [] h = refl
every-answered q status (r ∷ rs) h = ground (arith, h, every-answered q status rs)

every-found :
    (id : ℕ) (rs : List FriendRequest) (r : FriendRequest)
    → every not_to_self rs ≡ true
    → find (has_id id) rs ≡ some r
    → not_to_self r ≡ true
every-found id [] r h found = absurd (ground (arith, found))
every-found id (x ∷ rs) r h found = elim (Bool-cases (has_id id x)) [
  | inl e ↦ ground (arith, e, h, found)
  | inr e ↦ every-found id rs r (ground (arith, h)) (ground (arith, e, found))
]

insert-in_order :
    (a b : ℕ) (rows : List (ℕ × ℕ))
    → (a == b) ≡ false
    → every in_order rows ≡ true
    → every in_order (insert_pair (normalize_pair a b) rows) ≡ true
unfolding insert_pair normalize_pair
insert-in_order a b rows n h = ground (arith, n, h, nat_beq_iff a b)

settle-IsOrdered :
    (r : FriendRequest) (accept : Bool) (db : Db)
    → not_to_self r ≡ true
    → IsOrdered db
    → IsOrdered (settle r accept db)
unfolding settle
settle-IsOrdered r true db s v = record {
  requests = every-answered (has_id r.id) accepted db.requests v.requests;
  friendships =
      insert-in_order r.from_user_id r.to_user_id db.friendships (ground (arith, s)) v.friendships;
}
settle-IsOrdered r false db s v = record {
  requests = every-answered (has_id r.id) declined db.requests v.requests;
  friendships = v.friendships;
}

respond_request-IsOrdered :
    (id user : ℕ) (accept : Bool) (db : Db)
    → IsOrdered db
    → IsOrdered (respond_request id user accept db).1
unfolding respond_request
respond_request-IsOrdered id user accept db v = elim (Option-cases (find (has_id id) db.requests)) [
  | inl e ↦ rw (e, respond_request) v
  | inr (r, e) ↦
      let w = settle-IsOrdered r accept db (every-found id db.requests r v.requests e) v in
      elim (Bool-cases (r.to_user_id == user)) [
        | inr m ↦ rw (e, respond_request, m) v
        | inl m ↦ elim (Bool-cases (is_pending r.status)) [
          | inl p ↦ rw (e, respond_request, m, p) w
          | inr p ↦ rw (e, respond_request, m, p) v
        ]
      ]
]

remove_friend-IsOrdered : (a b : ℕ) (db : Db) → IsOrdered db → IsOrdered (remove_friend a b db)
unfolding remove_friend
remove_friend-IsOrdered a b db v = record {
  requests = v.requests;
  friendships = every-select in_order _ db.friendships v.friendships;
}

send_request-IsOrdered :
    (fresh a b : ℕ) (db : Db) → IsOrdered db → IsOrdered (send_request fresh a b db).1
unfolding send_request
send_request-IsOrdered fresh a b db v = record {
  requests = ground (arith, v.requests);
  friendships = ground (arith, v.friendships);
}

block-IsOrdered : (a b : ℕ) (db : Db) → IsOrdered db → IsOrdered (block a b db).1
unfolding block
block-IsOrdered a b db v = elim (Bool-cases (a == b)) [
  | inl e ↦ rw (e, block) v
  | inr e ↦
      rw (e, block)
        (remove_friend-IsOrdered a b (record db { blocks = insert_pair (a, b) db.blocks })
          (record { requests = v.requests; friendships = v.friendships }))
]

Step-IsOrdered : {d e : Db} → Step d e → IsOrdered d → IsOrdered e
unfolding unblock
Step-IsOrdered {d} (sent fresh a b) v = send_request-IsOrdered fresh a b d v
Step-IsOrdered {d} (responded id user accept) v = respond_request-IsOrdered id user accept d v
Step-IsOrdered {d} (removed a b) v = remove_friend-IsOrdered a b d v
Step-IsOrdered {d} (blocked a b) v = block-IsOrdered a b d v
Step-IsOrdered {d} (unblocked a b) v = record { requests = v.requests; friendships = v.friendships }

-- In every reachable state no friend request is to its sender, and every friendship is stored with
-- the smaller id first.
pub Reach-IsOrdered : {db : Db} → Reach db → IsOrdered db
Reach-IsOrdered here = record { requests = refl; friendships = refl }
Reach-IsOrdered (next p st) = Step-IsOrdered st (Reach-IsOrdered p)
