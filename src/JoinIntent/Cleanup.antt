-- ===== src/JoinIntent/Cleanup.antt =====
-- The cleanup of join intents: crates/ppb-server/src/join_intent/mod.rs.
use phira_plus_backend.Prelude.{
  ℕ, ◌≡◌, refl, Option, none, some, List, [], ◌∷◌, map, false, not, arith, ◌==◌, nat_eq, contains,
  lookup, insert, remove, modify, lookup-remove, lookup-modify, if◌then◌else◌, leb, is_some, ℤ,
  Option-cases, inl, inr,
}
use phira_plus_backend.JoinIntent.{
  JoinIntent, JoinIntentStore, Status, update_status, cleanup_one, cleanup_loop, cleanup_expired,
  is_terminal, past_retention, expired, values, create, store_intent, cancel, match_online,
  mark_moving, mark_terminal, moving, user_online, new_intent, ttl_or_default,
}
use phira_plus_backend.JoinIntent.Invariant.{
  Step, created, cancelled, matched, moved, ended, cleaned, Reach, start, next,
}

-- What one cleanup is to do with an intent: nothing before its expiry; then mark it expired unless
-- it has ended; and forget an ended one whose retention is over.
abbrev pub retire : ℕ → JoinIntent → Option JoinIntent
retire now i =
    if not (leb i.expires_at now)
    then some i
    else if not (is_terminal i.status)
    then some (record i { status = expired })
    else if past_retention now i
    then none
    else some i

abbrev pub retire? : ℕ → Option JoinIntent → Option JoinIntent
retire? now none = none
retire? now (some i) = retire now i

abbrev Distinct : List ℕ → Type 0
Distinct [] = Unit
Distinct (x ∷ xs) = (contains xs x ≡ false) × Distinct xs

cleanup_one-lookup :
    (now id k : ℕ) (s : JoinIntentStore) (n : ℕ)
    → lookup k (cleanup_one now id (s, n)).0.intents
      ≡ (if id == k then retire? now (lookup k s.intents) else lookup k s.intents)
unfolding cleanup_one update_status
cleanup_one-lookup now id k s n = ground (
  arith,
  lookup-modify id k (λ (j : JoinIntent). record j { status = expired }) s.intents,
  lookup-remove id k s.intents,
)

cleanup_loop-lookup :
    (now k : ℕ) (ids : List ℕ) (s : JoinIntentStore) (n : ℕ)
    → Distinct ids
    → lookup k (cleanup_loop now ids (s, n)).0.intents
      ≡ (if contains ids k then retire? now (lookup k s.intents) else lookup k s.intents)
unfolding cleanup_loop
cleanup_loop-lookup now k [] s n d = refl
cleanup_loop-lookup now k (id ∷ ids) s n d = ground (
  arith,
  cleanup_loop-lookup now k ids (cleanup_one now id (s, n)).0 (cleanup_one now id (s, n)).1 d.1,
  cleanup_one-lookup now id k s n,
)

-- Each id once, with the intent that bears it: what a hash map keyed by ids holds.
abbrev IsMap : List (ℕ × JoinIntent) → Type 0
IsMap [] = Unit
IsMap ((k, i) ∷ m) = (i.id ≡ k) × (lookup k m ≡ none) × IsMap m

remove-IsMap : (k : ℕ) (m : List (ℕ × JoinIntent)) → IsMap m → IsMap (remove k m)
unfolding remove
remove-IsMap k [] d = tt
remove-IsMap k ((j, i) ∷ m) d = ground (arith, remove-IsMap k m d.2, lookup-remove k j m)

insert-IsMap : (i : JoinIntent) (m : List (ℕ × JoinIntent)) → IsMap m → IsMap (insert i.id i m)
unfolding insert
insert-IsMap i m d = (refl, ground (arith, lookup-remove i.id i.id m), remove-IsMap i.id m d)

status-IsMap :
    (k : ℕ) (st : Status) (m : List (ℕ × JoinIntent))
    → IsMap m
    → IsMap (modify k (λ i. record i { status = st }) m)
unfolding modify
status-IsMap k st [] d = tt
status-IsMap k st ((j, i) ∷ m) d = ground (
  arith,
  status-IsMap k st m d.2,
  lookup-modify k j (λ (x : JoinIntent). record x { status = st }) m,
)

cleanup_one-IsMap :
    (now id : ℕ) (s : JoinIntentStore) (n : ℕ)
    → IsMap s.intents
    → IsMap (cleanup_one now id (s, n)).0.intents
unfolding cleanup_one update_status
cleanup_one-IsMap now id s n d =
    ground (arith, status-IsMap id expired s.intents d, remove-IsMap id s.intents d)

cleanup_loop-IsMap :
    (now : ℕ) (ids : List ℕ) (s : JoinIntentStore) (n : ℕ)
    → IsMap s.intents
    → IsMap (cleanup_loop now ids (s, n)).0.intents
unfolding cleanup_loop
cleanup_loop-IsMap now [] s n d = d
cleanup_loop-IsMap now (id ∷ ids) s n d =
    cleanup_loop-IsMap now ids (cleanup_one now id (s, n)).0 (cleanup_one now id (s, n)).1
      (cleanup_one-IsMap now id s n d)

create-IsMap :
    (s : JoinIntentStore) (now fresh user_id phira_id : ℕ) (room_id : List ℕ) (ttl : Option ℤ)
    → IsMap s.intents
    → IsMap (create s now fresh user_id phira_id room_id ttl).1.intents
unfolding create store_intent new_intent
create-IsMap s now fresh user_id phira_id room_id ttl d = ground (
  arith,
  insert-IsMap (new_intent now fresh user_id phira_id room_id (ttl_or_default ttl)) s.intents d,
)

Step-IsMap : {s t : JoinIntentStore} → Step s t → IsMap s.intents → IsMap t.intents
unfolding cancel match_online mark_moving mark_terminal update_status cleanup_expired
Step-IsMap {s} (created now fresh user_id phira_id room_id ttl) d =
    create-IsMap s now fresh user_id phira_id room_id ttl d
Step-IsMap {s} (cancelled user_id id) d = ground (arith, remove-IsMap id s.intents d)
Step-IsMap {s} (matched now phira_id) d = elim (Option-cases (lookup phira_id s.by_phira)) [
  | inl e ↦ rw (e, match_online) d
  | inr (k, e) ↦ rw (e, match_online) (ground (arith, status-IsMap k user_online s.intents d))
]
Step-IsMap {s} (moved id) d = status-IsMap id moving s.intents d
Step-IsMap {s} (ended id status) d = ground (arith, status-IsMap id status s.intents d)
Step-IsMap {s} (cleaned now) d = cleanup_loop-IsMap now (map (λ i. i.id) (values s.intents)) s 0 d

Reach-IsMap : {s : JoinIntentStore} → Reach s → IsMap s.intents
Reach-IsMap start = tt
Reach-IsMap (next r st) = Step-IsMap st (Reach-IsMap r)

abbrev ids : List (ℕ × JoinIntent) → List ℕ
unfolding values
ids m = map (λ i. i.id) (values m)

contains-ids :
    (k : ℕ) (m : List (ℕ × JoinIntent)) → IsMap m → contains (ids m) k ≡ is_some (lookup k m)
unfolding values
contains-ids k [] d = refl
contains-ids k ((j, i) ∷ m) d = ground (arith, contains-ids k m d.2)

ids-Distinct : (m : List (ℕ × JoinIntent)) → IsMap m → Distinct (ids m)
unfolding values
ids-Distinct [] d = tt
ids-Distinct ((j, i) ∷ m) d = ground (arith, ids-Distinct m d.2, contains-ids j m d.2)

-- In any reachable store a cleanup does to each intent what `retire` says, once, and to no other:
-- an intent before its expiry stays as it is, one that has not ended is marked expired, one that
-- ended is forgotten when its retention is over.
pub cleanup_expired-lookup :
    {s : JoinIntentStore} (now k : ℕ)
    → Reach s
    → lookup k (cleanup_expired s now).0.intents ≡ retire? now (lookup k s.intents)
unfolding cleanup_expired
cleanup_expired-lookup {s} now k r = ground (
  arith,
  cleanup_loop-lookup now k (ids s.intents) s 0 (ids-Distinct s.intents (Reach-IsMap r)),
  contains-ids k s.intents (Reach-IsMap r),
)
