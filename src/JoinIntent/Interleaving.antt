-- ===== src/JoinIntent/Interleaving.antt =====
-- Calls that run at the same time: crates/ppb-server/src/join_intent/mod.rs and the event task of
-- crates/ppb-server/src/app.rs, taken apart into their single calls of `DashMap`, each of which
-- locks its shard. Other tasks may run between any two of them, and during the await of the move.
mod Attribution
mod Alone
mod Tests
use phira_plus_backend.Prelude.{
  ℕ, ◌≡◌, List, [], ◌∷◌, ◌++◌, Option, none, some, Bool, true, false, not, ◌==◌, nat_eq, lookup,
  insert, remove, leb, ltb, if◌then◌else◌, ℤ, is_empty, trim,
}
use phira_plus_backend.JoinIntent.{
  JoinIntent, JoinIntentStore, Status, new_store, new_intent, ttl_in_range, ttl_or_default,
  update_status, effective_status, is_pending, is_terminal, past_retention, user_online, moving,
  completed, failed, expired,
}

-- What a call has still to do, from its next call of a map on.
pub data Task : Type 0 where
  finished : Task
  -- `create`, from the insertion of the intent, and from that of its index entry.
  inserting : JoinIntent → Task
  indexing : JoinIntent → Task
  -- `by_phira.remove`, `intents.remove` and `update_status`.
  unindexing : ℕ → Task → Task
  dropping : ℕ → Task
  setting : ℕ → Status → Task → Task
  -- `cancel` of an intent by a user, from its read on.
  cancelling : ℕ → ℕ → Task
  -- `match_online` for a player, from the read of the index, and from that of the intent.
  matching : ℕ → Task
  matched : ℕ → ℕ → Task
  -- The event task while it awaits the move of a player for an intent.
  awaiting : ℕ → JoinIntent → Task
  -- `mark_terminal`, from its read on.
  ending : ℕ → Status → Task
  -- `cleanup_expired` at a time, with the ids that it has still to see, and its removal of an intent.
  cleaning : ℕ → List ℕ → Task
  purging : ℕ → Task → Task

unindexing_of : Option JoinIntent → Task → Task
unindexing_of none k = k
unindexing_of (some i) k = unindexing i.phira_id k

cancel_read : ℕ → ℕ → Option JoinIntent → Task
cancel_read user_id id none = finished
cancel_read user_id id (some i) =
    if i.user_id == user_id then unindexing i.phira_id (dropping id) else finished

match_read : ℕ → Option ℕ → Task
match_read p none = finished
match_read p (some id) = matched p id

-- The end of `match_online`, and `mark_moving`.
intent_read : ℕ → ℕ → ℕ → Option JoinIntent → Task
unfolding effective_status
intent_read now p id none = finished
intent_read now p id (some i) =
    if is_pending (effective_status now i)
    then setting id user_online (setting i.id moving (awaiting p i))
    else finished

cleanup_read : ℕ → ℕ → List ℕ → Option JoinIntent → Task
cleanup_read now id ids none = setting id expired (cleaning now ids)
cleanup_read now id ids (some i) =
    if not (leb i.expires_at now)
    then cleaning now ids
    else if not (is_terminal i.status)
    then setting id expired (cleaning now ids)
    else if past_retention now i
    then purging id (cleaning now ids)
    else cleaning now ids

-- One call of a map, or the answer of the move; `now` is the clock and `moved` that answer.
pub resume : ℕ → Bool → Task → JoinIntentStore → Task × JoinIntentStore
unfolding unindexing_of cancel_read match_read intent_read cleanup_read update_status
resume now moved finished s = (finished, s)
resume now moved (inserting i) s = (
  unindexing_of (lookup i.id s.intents) (indexing i),
  record s { intents = insert i.id i s.intents },
)
resume now moved (indexing i) s =
    (finished, record s { by_phira = insert i.phira_id i.id s.by_phira })
resume now moved (unindexing p k) s = (k, record s { by_phira = remove p s.by_phira })
resume now moved (dropping id) s = (finished, record s { intents = remove id s.intents })
resume now moved (setting id st k) s = (k, update_status s id st)
resume now moved (cancelling user_id id) s = (cancel_read user_id id (lookup id s.intents), s)
resume now moved (matching p) s = (match_read p (lookup p s.by_phira), s)
resume now moved (matched p id) s = (intent_read now p id (lookup id s.intents), s)
resume now moved (awaiting p i) s = (ending i.id (if moved then completed else failed), s)
resume now moved (ending id st) s =
    (setting id st (unindexing_of (lookup id s.intents) finished), s)
resume now moved (cleaning t []) s = (finished, s)
resume now moved (cleaning t (id ∷ ids)) s = (cleanup_read t id ids (lookup id s.intents), s)
resume now moved (purging id k) s =
    (unindexing_of (lookup id s.intents) k, record s { intents = remove id s.intents })

pub record World : Type 0 where
  pub store : JoinIntentStore
  pub tasks : List Task

-- A uuid is drawn once: `player` sends each uuid to the player for whose intent it is drawn.
pub data Step (player : ℕ → ℕ) (w : World) : World → Type 0 where
  creates :
      (now fresh user_id phira_id : ℕ) (room_id : List ℕ) (ttl : Option ℤ)
      → player fresh ≡ phira_id
      → ttl_in_range (ttl_or_default ttl) ≡ true
      → is_empty (trim room_id) ≡ false
      → Step player w (record w {
        tasks =
            inserting (new_intent now fresh user_id phira_id room_id (ttl_or_default ttl))
            ∷ w.tasks;
      })
  cancels : (user_id id : ℕ) → Step player w (record w { tasks = cancelling user_id id ∷ w.tasks })
  comes_online : (p : ℕ) → Step player w (record w { tasks = matching p ∷ w.tasks })
  cleans :
      (now : ℕ) (ids : List ℕ) → Step player w (record w { tasks = cleaning now ids ∷ w.tasks })
  resumes :
      (before after : List Task) (t : Task) (now : ℕ) (moved : Bool)
      → w.tasks ≡ before ++ t ∷ after
      → Step player w (record {
        store = (resume now moved t w.store).1;
        tasks = before ++ (resume now moved t w.store).0 ∷ after;
      })

pub data Reach (player : ℕ → ℕ) : World → Type 0 where
  start : Reach player (record { store = new_store; tasks = [] })
  next : {v w : World} → Reach player v → Step player v w → Reach player w
