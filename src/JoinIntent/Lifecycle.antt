-- ===== src/JoinIntent/Lifecycle.antt =====
-- What the calls on join intents promise a client: crates/ppb-server/src/join_intent/mod.rs.
use mathlib.Core.Option
use phira_plus_backend.Prelude.{
  ℕ, ◌+◌, ◌≤◌, ◌<◌, ◌≡◌, ◌≢◌, Option, none, some, List, Bool, true, false, arith, nat_eq, lookup,
  lookup-insert, lookup-remove, lookup-modify, if◌then◌else◌, ℤ, pos, is_empty, trim, lt→ltb, ◌%◌,
  ◌∙◌, refl, nat_beq_iff, ◌^◌, Option-cases, inl, inr,
}
use phira_plus_backend.ApiError.{ok, err, denied, not_found}
use phira_plus_backend.JoinIntent.{
  JoinIntent, JoinIntentStore, Status, store_intent, create, get, cancel, update_status,
  match_online, mark_moving, mark_terminal, unindex, new_intent, ttl_or_default, ttl_in_range,
  magnitude, seconds, effective_status, is_terminal, pending, user_online, moving, completed,
  failed, expired, handle_online, fulfil,
}

-- An accepted request waits for its player: until it expires, the player's coming online returns
-- the intent just created, marked `user_online`.
pub create_then_online :
    (s : JoinIntentStore) (now later fresh user_id phira_id : ℕ) (room_id : List ℕ) (ttl : Option ℤ)
    → ttl_in_range (ttl_or_default ttl) ≡ true
    → is_empty (trim room_id) ≡ false
    → later < now + seconds (magnitude (ttl_or_default ttl))
    → (match_online (create s now fresh user_id phira_id room_id ttl).1 later phira_id).0
      ≡ some (record (new_intent now fresh user_id phira_id room_id (ttl_or_default ttl)) {
        status = user_online;
      })
unfolding create store_intent match_online
create_then_online s now later fresh user_id phira_id room_id ttl t r l =
    let i = new_intent now fresh user_id phira_id room_id (ttl_or_default ttl) in
    rw (t, r)
      (unfold new_intent in
        ground (
          arith,
          lookup-insert fresh fresh i s.intents,
          lookup-insert phira_id phira_id fresh (unindex (lookup fresh s.intents) s.by_phira),
        ))

-- Coming online wakes a waiting intent once: the same event, repeated at any time, finds none.
pub match_online_once :
    (s : JoinIntentStore) (now later phira_id : ℕ) (i : JoinIntent)
    → (match_online s now phira_id).0 ≡ some i
    → (match_online (match_online s now phira_id).1 later phira_id).0 ≡ none
unfolding match_online update_status
match_online_once s now later p i h = elim (Option-cases (lookup p s.by_phira)) [
  | inl e ↦ rw (e, match_online, e)
  | inr (k, e) ↦ ground (
    arith,
    e,
    lookup-modify k k (λ (j : JoinIntent). record j { status = user_online }) s.intents,
  )
]

-- Only its owner reads or cancels an intent. Another user's call is denied and changes nothing.
pub strangers_denied :
    (s : JoinIntentStore) (now user_id id : ℕ) (i : JoinIntent)
    → lookup id s.intents ≡ some i
    → i.user_id ≢ user_id
    → (get s now user_id id ≡ err denied) × (cancel s user_id id ≡ (err denied, s))
unfolding get cancel
strangers_denied s now user_id id i e n = (ground arith, ground arith)

-- The owner's cancellation takes the intent out: the id is then unknown, to reads and to a second
-- cancellation, and the player's coming online finds none.
pub cancel_then :
    (s : JoinIntentStore) (now id : ℕ) (i : JoinIntent)
    → lookup id s.intents ≡ some i
    → (get (cancel s i.user_id id).1 now i.user_id id ≡ err (not_found "join intent"))
      × ((cancel (cancel s i.user_id id).1 i.user_id id).0 ≡ err (not_found "join intent"))
      × ((match_online (cancel s i.user_id id).1 now i.phira_id).0 ≡ none)
unfolding get cancel match_online
cancel_then s now id i e = (
  ground (arith, lookup-remove id id s.intents),
  ground (arith, lookup-remove id id s.intents),
  ground (arith, lookup-remove i.phira_id i.phira_id s.by_phira),
)

-- From its expiry on, an intent that has not ended reads as expired to its owner and is not woken.
pub expired_reads :
    (s : JoinIntentStore) (now id : ℕ) (i : JoinIntent)
    → lookup id s.intents ≡ some i
    → lookup i.phira_id s.by_phira ≡ some id
    → is_terminal i.status ≡ false
    → i.expires_at ≤ now
    → (get s now i.user_id id ≡ ok (record i { status = expired }))
      × (match_online s now i.phira_id ≡ (none, s))
unfolding get match_online effective_status
expired_reads s now id i e x t l = (ground arith, ground arith)

match_online_waiting :
    (s : JoinIntentStore) (now phira_id id : ℕ) (i : JoinIntent)
    → lookup phira_id s.by_phira ≡ some id
    → lookup id s.intents ≡ some i
    → i.status ≡ pending
    → now < i.expires_at
    → match_online s now phira_id
      ≡ (some (record i { status = user_online }), update_status s id user_online)
unfolding match_online effective_status
match_online_waiting s now p id i x e waits l = ground arith

update_status-lookup :
    (s : JoinIntentStore) (id : ℕ) (i : JoinIntent) (st : Status)
    → lookup id s.intents ≡ some i
    → lookup id (update_status s id st).intents ≡ some (record i { status = st })
unfolding update_status
update_status-lookup s id i st e =
    ground (arith, e, lookup-modify id id (λ (j : JoinIntent). record j { status = st }) s.intents)

-- What the event task has made of the store when it starts to await the move.
marked_moving : Option JoinIntent × JoinIntentStore → JoinIntentStore
marked_moving (none, s) = s
marked_moving (some i, s) = mark_moving s i.id

pub awaiting_move : JoinIntentStore → ℕ → ℕ → JoinIntentStore
unfolding marked_moving
awaiting_move s now phira_id = marked_moving (match_online s now phira_id)

update_status-cases :
    (s : JoinIntentStore) (id : ℕ) (st : Status)
    → lookup id (update_status s id st).intents
      ≡ Option.map (λ (j : JoinIntent). record j { status = st }) (lookup id s.intents)
unfolding update_status
update_status-cases s id st = ground (
  arith,
  lookup-modify id id (λ (j : JoinIntent). record j { status = st }) s.intents,
  nat_beq_iff id id,
)

mark_terminal-cases :
    (s : JoinIntentStore) (id : ℕ) (st : Status)
    → lookup id (mark_terminal s id st).intents
      ≡ Option.map (λ (j : JoinIntent). record j { status = st }) (lookup id s.intents)
unfolding mark_terminal
mark_terminal-cases s id st = elim (Option-cases (lookup id s.intents)) [
  | inl e ↦ rw (mark_terminal, e) (update_status-cases s id st ∙ rw e refl)
  | inr (i, e) ↦ rw (mark_terminal, e) (update_status-cases s id st ∙ rw e refl)
]

mark_terminal-unindexes :
    (s : JoinIntentStore) (id : ℕ) (i : JoinIntent) (st : Status)
    → lookup id s.intents ≡ some i
    → lookup i.phira_id (mark_terminal s id st).by_phira ≡ none
unfolding mark_terminal
mark_terminal-unindexes s id i st e =
    ground (arith, e, lookup-remove i.phira_id i.phira_id s.by_phira)

-- The event task runs a waiting intent to its end, whatever other calls make of the store while the
-- move is awaited, no other call coming in between elsewhere. When it awaits the move, the intent is
-- stored as `moving`. Afterwards the intent is as those calls have left it, its status now
-- `completed` or `failed` as the move answered: no longer stored if one of them removed it, and else
-- its player is no longer indexed.
pub handle_online_ends :
    (s : JoinIntentStore) (now phira_id : ℕ) (i : JoinIntent) (moved : List ℕ → ℕ → Bool)
    (meanwhile : JoinIntentStore → JoinIntentStore)
    → 0 < phira_id
    → lookup phira_id s.by_phira ≡ some i.id
    → lookup i.id s.intents ≡ some i
    → i.status ≡ pending
    → now < i.expires_at
    → (lookup i.id (awaiting_move s now phira_id).intents ≡ some (record i { status = moving }))
      × (lookup i.id (handle_online s now (pos phira_id) moved meanwhile).intents
          ≡ Option.map
              (λ (j : JoinIntent). record j {
                status = if moved i.room_id (phira_id % 2 ^ 32) then completed else failed;
              })
              (lookup i.id (meanwhile (awaiting_move s now phira_id)).intents))
      × ((j : JoinIntent)
          → lookup i.id (meanwhile (awaiting_move s now phira_id)).intents ≡ some j
          → lookup j.phira_id (handle_online s now (pos phira_id) moved meanwhile).by_phira ≡ none)
unfolding handle_online fulfil mark_moving awaiting_move marked_moving
handle_online_ends s now p i moved meanwhile positive x e waits l =
    let s1 = update_status s i.id user_online in
    let s2 = update_status s1 i.id moving in
    let e1 = update_status-lookup s i.id i user_online e in
    let e2 = update_status-lookup s1 i.id (record i { status = user_online }) moving e1 in
    let done = if moved i.room_id (p % 2 ^ 32) then completed else failed in
    rw
      (
        lt→ltb 0 p positive,
        handle_online,
        awaiting_move,
        match_online_waiting s now p i.id i x e waits l,
        fulfil,
      )
      (
        e2,
        mark_terminal-cases (meanwhile s2) i.id done,
        λ j h. mark_terminal-unindexes (meanwhile s2) i.id j done h,
      )

-- Where a user has two intents for one player, cancelling the older one takes the player out of the
-- index: the newer one is stored as it was, waiting, and the player's coming online wakes none.
pub older_cancelled :
    (s : JoinIntentStore) (now user_id phira_id older newer : ℕ) (i j : JoinIntent)
    → older ≢ newer
    → lookup older s.intents ≡ some i
    → i.user_id ≡ user_id
    → i.phira_id ≡ phira_id
    → lookup newer s.intents ≡ some j
    → j.status ≡ pending
    → (lookup newer (cancel s user_id older).1.intents ≡ some j)
      × ((match_online (cancel s user_id older).1 now phira_id).0 ≡ none)
unfolding cancel match_online
older_cancelled s now user_id p older newer i j ne e owner player e' waits = (
  ground (arith, lookup-remove older newer s.intents),
  ground (arith, lookup-remove p p s.by_phira),
)

create-lookup :
    (s : JoinIntentStore) (now fresh user_id phira_id : ℕ) (room_id : List ℕ) (ttl : Option ℤ)
    → ttl_in_range (ttl_or_default ttl) ≡ true
    → is_empty (trim room_id) ≡ false
    → lookup fresh (create s now fresh user_id phira_id room_id ttl).1.intents
      ≡ some (new_intent now fresh user_id phira_id room_id (ttl_or_default ttl))
unfolding create store_intent
create-lookup s now fresh user_id phira_id room_id ttl t r =
    let i = new_intent now fresh user_id phira_id room_id (ttl_or_default ttl) in
    rw (t, r) (unfold new_intent in ground (arith, lookup-insert fresh fresh i s.intents))

create-lookup_ne :
    (s : JoinIntentStore) (now fresh user_id phira_id old : ℕ) (room_id : List ℕ) (ttl : Option ℤ)
    → old ≢ fresh
    → lookup old (create s now fresh user_id phira_id room_id ttl).1.intents ≡ lookup old s.intents
unfolding create store_intent new_intent
create-lookup_ne s now fresh user_id phira_id old room_id ttl ne =
    let i = new_intent now fresh user_id phira_id room_id (ttl_or_default ttl) in
    ground (arith, lookup-insert fresh old i s.intents)

-- Two requests of one user and player: the second does not replace the first, which still reads as
-- pending to its owner until it expires.
pub second_create_keeps_first :
    (s : JoinIntentStore) (t1 t2 older newer user_id phira_id : ℕ) (room1 room2 : List ℕ)
    (ttl1 ttl2 : Option ℤ)
    → older ≢ newer
    → ttl_in_range (ttl_or_default ttl1) ≡ true
    → is_empty (trim room1) ≡ false
    → t2 < t1 + seconds (magnitude (ttl_or_default ttl1))
    → get
        (create
          (create s t1 older user_id phira_id room1 ttl1).1
          t2
          newer
          user_id
          phira_id
          room2
          ttl2).1
        t2
        user_id
        older
      ≡ ok (new_intent t1 older user_id phira_id room1 (ttl_or_default ttl1))
unfolding get effective_status
second_create_keeps_first s t1 t2 older newer user_id p room1 room2 ttl1 ttl2 ne t r l =
    let s1 = (create s t1 older user_id p room1 ttl1).1 in
    rw (create-lookup_ne s1 t2 newer user_id p older room2 ttl2 ne, get)
      (rw (create-lookup s t1 older user_id p room1 ttl1 t r, get)
        (unfold new_intent in ground arith))
