-- ===== src/JoinIntent.antt =====
-- Join intents, crates/ppb-server/src/join_intent/mod.rs, with the task of
-- crates/ppb-server/src/app.rs that fulfils them. Times are nanoseconds; the clock's reading and a
-- fresh uuid are arguments. Uuids and `phira_id`s are numbers, compared for equality only. A method
-- here runs without another call in between; Interleaving takes the methods apart into their calls
-- of `DashMap`, between which others may run.
mod Interleaving
mod Invariant
mod Lifecycle
mod Cleanup
mod Tests
use phira_plus_backend.Prelude.{
  ℕ, suc, ◌+◌, ◌*◌, ◌%◌, ◌^◌, ℤ, pos, negsuc, String, Bool, true, false, not, ◌&&◌, Option, none,
  some, List, [], ◌∷◌, map, leb, ltb, ◌==◌, nat_eq, lookup, insert, remove, modify, select, trim,
  is_empty, if◌then◌else◌,
}
use phira_plus_backend.ErrorCode.{validation_failed}
use phira_plus_backend.ApiError.{ApiError, Result, ok, err, validation, denied, not_found}

abbrev pub seconds : ℕ → ℕ
seconds n = n * 1000000000

abbrev pub default_ttl_secs : ℤ
default_ttl_secs = pos 300

abbrev pub max_ttl_secs : ℕ
max_ttl_secs = 900

abbrev pub terminal_retention_secs : ℕ
terminal_retention_secs = 3600

-- The texts `STATUS_PENDING` to `STATUS_EXPIRED`.
pub data Status : Type 0 where
  pending user_online moving completed failed expired : Status

pub record JoinIntent : Type 0 where
  pub id : ℕ
  pub user_id : ℕ
  pub phira_id : ℕ
  pub room_id : List ℕ
  pub created_at : ℕ
  pub expires_at : ℕ
  pub status : Status

abbrev pub is_terminal : Status → Bool
is_terminal completed = true
is_terminal failed = true
is_terminal expired = true
is_terminal _ = false

abbrev pub is_pending : Status → Bool
is_pending pending = true
is_pending _ = false

unfoldable pub effective_status : ℕ → JoinIntent → Status
effective_status now i =
    if leb i.expires_at now && not (is_terminal i.status) then expired else i.status

pub record JoinIntentStore : Type 0 where
  pub intents : List (ℕ × JoinIntent)
  pub by_phira : List (ℕ × ℕ)

-- `JoinIntentStore::new`.
abbrev pub new_store : JoinIntentStore
new_store = record { intents = []; by_phira = [] }

-- `(1..=MAX_TTL_SECS).contains(&ttl)`.
abbrev pub ttl_in_range : ℤ → Bool
ttl_in_range (pos n) = leb 1 n && leb n max_ttl_secs
ttl_in_range (negsuc n) = false

abbrev pub magnitude : ℤ → ℕ
magnitude (pos n) = n
magnitude (negsuc n) = suc n

abbrev pub ttl_or_default : Option ℤ → ℤ
ttl_or_default none = default_ttl_secs
ttl_or_default (some t) = t

unfoldable pub new_intent : ℕ → ℕ → ℕ → ℕ → List ℕ → ℤ → JoinIntent
new_intent now fresh user_id phira_id room_id ttl = record {
  id = fresh;
  user_id = user_id;
  phira_id = phira_id;
  room_id = trim room_id;
  created_at = now;
  expires_at = now + seconds (magnitude ttl);
  status = pending;
}

-- The index entry of an intent that an insertion replaced.
pub unindex : Option JoinIntent → List (ℕ × ℕ) → List (ℕ × ℕ)
unindex none m = m
unindex (some prev) m = remove prev.phira_id m

pub store_intent : JoinIntent → JoinIntentStore → JoinIntentStore
unfolding unindex
store_intent i s = record {
  intents = insert i.id i s.intents;
  by_phira = insert i.phira_id i.id (unindex (lookup i.id s.intents) s.by_phira);
}

pub create :
    JoinIntentStore → ℕ → ℕ → ℕ → ℕ → List ℕ → Option ℤ → Result JoinIntent × JoinIntentStore
unfolding store_intent new_intent
create s now fresh user_id phira_id room_id ttl_secs =
    if not (ttl_in_range (ttl_or_default ttl_secs))
    then (err (validation "ttl_secs must be between 1 and 900"), s)
    else if is_empty (trim room_id)
    then (err (validation "room_id required"), s)
    else (
      ok (new_intent now fresh user_id phira_id room_id (ttl_or_default ttl_secs)),
      store_intent (new_intent now fresh user_id phira_id room_id (ttl_or_default ttl_secs)) s,
    )

pub get : JoinIntentStore → ℕ → ℕ → ℕ → Result JoinIntent
unfolding effective_status
get s now user_id intent_id = elim (lookup intent_id s.intents) [
  | none ↦ err (not_found "join intent")
  | some i ↦
      if i.user_id == user_id then ok (record i { status = effective_status now i }) else err denied
]

pub cancel : JoinIntentStore → ℕ → ℕ → Result (Unit {0}) × JoinIntentStore
cancel s user_id intent_id = elim (lookup intent_id s.intents) [
  | none ↦ (err (not_found "join intent"), s)
  | some i ↦
      if i.user_id == user_id
      then (
        ok tt,
        record { intents = remove intent_id s.intents; by_phira = remove i.phira_id s.by_phira },
      )
      else (err denied, s)
]

pub values : List (ℕ × JoinIntent) → List JoinIntent
values [] = []
values ((k, i) ∷ m) = i ∷ values m

-- `e.expires_at > now - retention`, with the subtraction on the other side.
pub listed : ℕ → ℕ → JoinIntent → Bool
listed now user_id i =
    i.user_id == user_id && ltb now (i.expires_at + seconds terminal_retention_secs)

pub list_for_user : JoinIntentStore → ℕ → ℕ → List JoinIntent
unfolding values listed effective_status
list_for_user s now user_id =
    map {A = JoinIntent} (λ i. record i { status = effective_status now i })
      (select (listed now user_id) (values s.intents))

-- No intent is added: an unknown id changes nothing.
pub update_status : JoinIntentStore → ℕ → Status → JoinIntentStore
update_status s intent_id status = record s {
  intents = modify intent_id (λ i. record i { status = status }) s.intents;
}

pub match_online : JoinIntentStore → ℕ → ℕ → Option JoinIntent × JoinIntentStore
unfolding effective_status update_status
match_online s now phira_id = elim (lookup phira_id s.by_phira) [
  | none ↦ (none, s)
  | some intent_id ↦ elim (lookup intent_id s.intents) [
    | none ↦ (none, s)
    | some i ↦
        if is_pending (effective_status now i)
        then (some (record i { status = user_online }), update_status s intent_id user_online)
        else (none, s)
  ]
]

pub mark_moving : JoinIntentStore → ℕ → JoinIntentStore
unfolding update_status
mark_moving s intent_id = update_status s intent_id moving

pub mark_terminal : JoinIntentStore → ℕ → Status → JoinIntentStore
unfolding update_status
mark_terminal s intent_id status = elim (lookup intent_id s.intents) [
  | none ↦ update_status s intent_id status
  | some i ↦ record (update_status s intent_id status) { by_phira = remove i.phira_id s.by_phira }
]

-- Whether a terminal intent is past its retention: `now - expires_at > retention`, where
-- `expires_at <= now` holds already.
abbrev pub past_retention : ℕ → JoinIntent → Bool
past_retention now i = ltb (i.expires_at + seconds terminal_retention_secs) now

-- One id of the loop of `cleanup_expired`, with the count of intents removed so far.
pub cleanup_one : ℕ → ℕ → JoinIntentStore × ℕ → JoinIntentStore × ℕ
unfolding update_status
cleanup_one now id (s, removed) = elim (lookup id s.intents) [
  | none ↦ (update_status s id expired, removed)
  | some i ↦
      if not (leb i.expires_at now)
      then (s, removed)
      else if not (is_terminal i.status)
      then (update_status s id expired, removed)
      else if past_retention now i
      then (
        record { intents = remove id s.intents; by_phira = remove i.phira_id s.by_phira },
        removed + 1,
      )
      else (s, removed)
]

pub cleanup_loop : ℕ → List ℕ → JoinIntentStore × ℕ → JoinIntentStore × ℕ
cleanup_loop now [] state = state
cleanup_loop now (id ∷ ids) state = cleanup_loop now ids (cleanup_one now id state)

pub cleanup_expired : JoinIntentStore → ℕ → JoinIntentStore × ℕ
unfolding values cleanup_loop cleanup_one
cleanup_expired s now = cleanup_loop now (map (λ i. i.id) (values s.intents)) (s, 0)

-- The event task's work for a player: `moved` is the answer of `rooms.force_move`, a call to PMP,
-- whose second argument is the player's number as an `i32`, here its low 32 bits; `meanwhile` is what
-- other calls make of the store while this one is awaited.
fulfil :
    ℕ
    → (List ℕ → ℕ → Bool)
    → (JoinIntentStore → JoinIntentStore)
    → Option JoinIntent × JoinIntentStore
    → JoinIntentStore
fulfil phira_id moved meanwhile (none, s) = s
fulfil phira_id moved meanwhile (some i, s) =
    mark_terminal (meanwhile (mark_moving s i.id)) i.id
      (if moved i.room_id (phira_id % 2 ^ 32) then completed else failed)

-- What the event task of `spawn_join_intent_task` does with a `user.online` event, by its `user_id`
-- (0 if it has none).
pub handle_online :
    JoinIntentStore
    → ℕ
    → ℤ
    → (List ℕ → ℕ → Bool)
    → (JoinIntentStore → JoinIntentStore)
    → JoinIntentStore
unfolding fulfil
handle_online s now (negsuc n) moved meanwhile = s
handle_online s now (pos phira_id) moved meanwhile =
    if ltb 0 phira_id then fulfil phira_id moved meanwhile (match_online s now phira_id) else s
