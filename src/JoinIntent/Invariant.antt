-- ===== src/JoinIntent/Invariant.antt =====
-- The index by player stays sound: crates/ppb-server/src/join_intent/mod.rs.
use mathlib.Core.Option
use phira_plus_backend.Prelude.{
  ℕ, ◌≡◌, refl, map, Option, none, some, List, arith, ◌==◌, nat_eq, lookup, remove, lookup-insert,
  lookup-remove, lookup-modify, if◌then◌else◌, ℤ, false, [], ◌∷◌, Option-cases, Bool-cases, inl,
  inr,
}
use phira_plus_backend.JoinIntent.{
  JoinIntent, JoinIntentStore, Status, new_store, store_intent, create, cancel, update_status,
  match_online, mark_terminal, cleanup_one, cleanup_loop, cleanup_expired, values, unindex,
  new_intent, ttl_or_default, is_pending, effective_status, user_online, moving, mark_moving,
  expired,
}

-- The player of the intent under an id.
abbrev pub player_of : JoinIntentStore → ℕ → Option ℕ
player_of s k = Option.map (λ i. i.phira_id) (lookup k s.intents)

-- Where an id has an intent, that is the intent's own id.
abbrev pub IsKeyed : ℕ → Option JoinIntent → Type 0
IsKeyed k none = Unit
IsKeyed k (some i) = i.id ≡ k

-- An intent stands under its own id, and each index entry names an intent of that player.
pub record IsIndexed (s : JoinIntentStore) : Type 0 where
  pub keyed : (k : ℕ) → IsKeyed k (lookup k s.intents)
  pub indexed : (p k : ℕ) → lookup p s.by_phira ≡ some k → player_of s k ≡ some p

pub new_store-IsIndexed : IsIndexed new_store
new_store-IsIndexed = record { keyed = λ k. tt; indexed = λ p k h. cc }

pub update_status-IsIndexed :
    (s : JoinIntentStore) (id : ℕ) (st : Status) → IsIndexed s → IsIndexed (update_status s id st)
unfolding update_status
update_status-IsIndexed s id st v = record {
  keyed = λ k. rw lookup-modify (ground (arith, v.keyed k));
  indexed = λ p k h. rw lookup-modify (ground (arith, v.indexed p k));
}

lookup-unindex :
    (o : Option JoinIntent) (m : List (ℕ × ℕ)) (p : ℕ)
    → lookup p (unindex o m)
      ≡ (if Option.get_or (Option.map (λ i. i.phira_id == p) o) false then none else lookup p m)
unfolding unindex
lookup-unindex none m p = refl
lookup-unindex (some prev) m p = lookup-remove prev.phira_id p m

store_intent-IsIndexed :
    (i : JoinIntent) (s : JoinIntentStore) → IsIndexed s → IsIndexed (store_intent i s)
unfolding store_intent
store_intent-IsIndexed i s v = record {
  keyed = λ k. rw lookup-insert (ground (arith, v.keyed k));
  indexed = λ p k h. ground (
    arith,
    lookup-insert i.id k i s.intents,
    lookup-insert i.phira_id p i.id (unindex (lookup i.id s.intents) s.by_phira),
    lookup-unindex (lookup i.id s.intents) s.by_phira p,
    v.indexed p k,
  );
}

pub create-IsIndexed :
    (s : JoinIntentStore) (now fresh user_id phira_id : ℕ) (room_id : List ℕ) (ttl : Option ℤ)
    → IsIndexed s
    → IsIndexed (create s now fresh user_id phira_id room_id ttl).1
unfolding create
create-IsIndexed s now fresh user_id phira_id room_id ttl v = ground (
  arith,
  store_intent-IsIndexed (new_intent now fresh user_id phira_id room_id (ttl_or_default ttl)) s v,
)

-- Removing an intent with the index entry of its player.
removal-IsIndexed :
    (s : JoinIntentStore) (k : ℕ) (i : JoinIntent)
    → lookup k s.intents ≡ some i
    → IsIndexed s
    → IsIndexed (record { intents = remove k s.intents; by_phira = remove i.phira_id s.by_phira })
removal-IsIndexed s k i found v = record {
  keyed = λ j. rw lookup-remove (ground (arith, v.keyed j));
  indexed = λ p j h.
      ground
        (arith, lookup-remove k j s.intents, lookup-remove i.phira_id p s.by_phira, v.indexed p j);
}

unindexing-IsIndexed :
    (s : JoinIntentStore) (p : ℕ)
    → IsIndexed s
    → IsIndexed (record s { by_phira = remove p s.by_phira })
unindexing-IsIndexed s p v = record {
  keyed = v.keyed;
  indexed = λ q j h. ground (arith, lookup-remove p q s.by_phira, v.indexed q j);
}

pub cancel-IsIndexed :
    (s : JoinIntentStore) (user_id id : ℕ) → IsIndexed s → IsIndexed (cancel s user_id id).1
unfolding cancel
cancel-IsIndexed s user_id id v = elim (Option-cases (lookup id s.intents)) [
  | inl e ↦ rw (e, cancel) v
  | inr (i, e) ↦ ground (arith, e, removal-IsIndexed s id i e v)
]

pub match_online-IsIndexed :
    (s : JoinIntentStore) (now p : ℕ) → IsIndexed s → IsIndexed (match_online s now p).1
unfolding match_online
match_online-IsIndexed s now p v = elim (Option-cases (lookup p s.by_phira)) [
  | inl e ↦ rw (e, match_online) v
  | inr (k, e) ↦ elim (Option-cases (lookup k s.intents)) [
    | inl e' ↦ rw (e, e', match_online) v
    | inr (i, e') ↦ elim (Bool-cases (is_pending (effective_status now i))) [
      | inl f ↦ rw (e, e', f, match_online) (update_status-IsIndexed s k user_online v)
      | inr f ↦ rw (e, e', f, match_online) v
    ]
  ]
]

pub mark_terminal-IsIndexed :
    (s : JoinIntentStore) (id : ℕ) (st : Status) → IsIndexed s → IsIndexed (mark_terminal s id st)
unfolding mark_terminal
mark_terminal-IsIndexed s id st v = elim (Option-cases (lookup id s.intents)) [
  | inl e ↦ rw (e, mark_terminal) (update_status-IsIndexed s id st v)
  | inr (i, e) ↦
      rw (e, mark_terminal)
        (unindexing-IsIndexed (update_status s id st) i.phira_id
          (update_status-IsIndexed s id st v))
]

pub cleanup_one-IsIndexed :
    (now id : ℕ) (s : JoinIntentStore) (n : ℕ)
    → IsIndexed s
    → IsIndexed (cleanup_one now id (s, n)).0
unfolding cleanup_one
cleanup_one-IsIndexed now id s n v = elim (Option-cases (lookup id s.intents)) [
  | inl e ↦ rw (e, cleanup_one) (update_status-IsIndexed s id expired v)
  | inr (i, e) ↦
      rw (e, cleanup_one)
        (ground (arith, update_status-IsIndexed s id expired v, removal-IsIndexed s id i e v))
]

pub cleanup_loop-IsIndexed :
    (now : ℕ) (ids : List ℕ) (s : JoinIntentStore) (n : ℕ)
    → IsIndexed s
    → IsIndexed (cleanup_loop now ids (s, n)).0
unfolding cleanup_loop
cleanup_loop-IsIndexed now [] s n v = v
cleanup_loop-IsIndexed now (id ∷ ids) s n v =
    cleanup_loop-IsIndexed now ids (cleanup_one now id (s, n)).0 (cleanup_one now id (s, n)).1
      (cleanup_one-IsIndexed now id s n v)

-- The calls that the routes, the event task and the cleanup task make, one after another, in any
-- order and at any times. The event task's three calls are separate steps, so that others may come
-- between them.
pub data Step (s : JoinIntentStore) : JoinIntentStore → Type 0 where
  created :
      (now fresh user_id phira_id : ℕ) (room_id : List ℕ) (ttl : Option ℤ)
      → Step s (create s now fresh user_id phira_id room_id ttl).1
  cancelled : (user_id id : ℕ) → Step s (cancel s user_id id).1
  matched : (now phira_id : ℕ) → Step s (match_online s now phira_id).1
  moved : (id : ℕ) → Step s (mark_moving s id)
  ended : (id : ℕ) (status : Status) → Step s (mark_terminal s id status)
  cleaned : (now : ℕ) → Step s (cleanup_expired s now).0

pub data Reach : JoinIntentStore → Type 0 where
  start : Reach new_store
  next : {s t : JoinIntentStore} → Reach s → Step s t → Reach t

Step-IsIndexed : {s t : JoinIntentStore} → Step s t → IsIndexed s → IsIndexed t
unfolding cleanup_expired mark_moving
Step-IsIndexed {s} (created now fresh user_id phira_id room_id ttl) v =
    create-IsIndexed s now fresh user_id phira_id room_id ttl v
Step-IsIndexed {s} (cancelled user_id id) v = cancel-IsIndexed s user_id id v
Step-IsIndexed {s} (matched now phira_id) v = match_online-IsIndexed s now phira_id v
Step-IsIndexed {s} (moved id) v = update_status-IsIndexed s id moving v
Step-IsIndexed {s} (ended id status) v = mark_terminal-IsIndexed s id status v
Step-IsIndexed {s} (cleaned now) v =
    cleanup_loop-IsIndexed now (map (λ i. i.id) (values s.intents)) s 0 v

-- In every store that calls reach of which none comes in the middle of another, an intent stands
-- under its own id, and the index sends a player to an intent of that player that is still stored.
pub Reach-IsIndexed : {s : JoinIntentStore} → Reach s → IsIndexed s
Reach-IsIndexed start = new_store-IsIndexed
Reach-IsIndexed (next r st) = Step-IsIndexed st (Reach-IsIndexed r)
