-- ===== src/JoinIntent/Tests.antt =====
-- Runs of the join intent store, and the theorems about it at concrete inputs.
use mathlib.Core.Option
use phira_plus_backend.Prelude.{
  ℕ, ◌+◌, ◌≡◌, refl, none, some, List, [], ◌∷◌, true, codes, lookup, nat_eq, pos, arith, Bool,
  insert,
}
use phira_plus_backend.ApiError.{ok}
use phira_plus_backend.JoinIntent.{
  JoinIntent, JoinIntentStore, new_store, create, cancel, match_online, moving, mark_terminal,
  handle_online, cleanup_expired, new_intent, pending, user_online, completed, seconds,
}
use phira_plus_backend.JoinIntent.Invariant
use phira_plus_backend.JoinIntent.Invariant.{created, ended}
use phira_plus_backend.JoinIntent.Lifecycle.{create_then_online, handle_online_ends, awaiting_move}
use phira_plus_backend.JoinIntent.Cleanup.{cleanup_expired-lookup, retire?}

abbrev room : List ℕ
room = codes " ABC "

abbrev intent : JoinIntent
intent = record {
  id = 5;
  user_id = 1;
  phira_id = 77;
  room_id = codes "ABC";
  created_at = 100;
  expires_at = 100 + seconds 300;
  status = pending;
}

abbrev one : JoinIntentStore
one = record { intents = (5, intent) ∷ []; by_phira = (77, 5) ∷ [] }

abbrev newer : JoinIntent
newer = record intent { id = 6 }

abbrev two : JoinIntentStore
two = record { intents = (6, newer) ∷ (5, intent) ∷ []; by_phira = (77, 6) ∷ [] }

first_request : create new_store 100 5 1 77 room none ≡ (ok intent, one)
unfolding create insert
first_request = refl

second_request : (create one 100 6 1 77 room none).1 ≡ two
unfolding create insert
second_request = refl

create_then_online_example :
    (match_online (create new_store 100 5 1 77 room none).1 200 77).0
    ≡ some (record (new_intent 100 5 1 77 room (pos 300)) { status = user_online })
create_then_online_example =
    create_then_online new_store 100 200 5 1 77 room none refl refl (omega arith)

abbrev moves : List ℕ → ℕ → Bool
moves r p = true

-- While the move is awaited, the user's newer request is cancelled, and with it the index entry.
abbrev cancelled_newer : JoinIntentStore → JoinIntentStore
cancelled_newer s = (cancel s 1 6).1

handle_online_ends_example :
    (lookup 5 (awaiting_move one 200 77).intents ≡ some (record intent { status = moving }))
    × (lookup 5 (handle_online one 200 (pos 77) moves cancelled_newer).intents
        ≡ Option.map
            (λ (j : JoinIntent). record j { status = completed })
            (lookup 5 (cancelled_newer (awaiting_move one 200 77)).intents))
    × ((j : JoinIntent)
        → lookup 5 (cancelled_newer (awaiting_move one 200 77)).intents ≡ some j
        → lookup j.phira_id (handle_online one 200 (pos 77) moves cancelled_newer).by_phira ≡ none)
handle_online_ends_example =
    handle_online_ends one 200 77 intent moves cancelled_newer (omega arith) refl refl refl
      (omega arith)

abbrev reached : JoinIntentStore
reached = mark_terminal (create new_store 100 5 1 77 room none).1 5 completed

reached-Reach : Invariant.Reach reached
reached-Reach =
    Invariant.next (Invariant.next Invariant.start (created 100 5 1 77 room none))
      (ended 5 completed)

cleanup_expired-lookup_example :
    lookup 5 (cleanup_expired reached (seconds 4000)).0.intents
    ≡ retire? (seconds 4000) (lookup 5 reached.intents)
cleanup_expired-lookup_example = cleanup_expired-lookup (seconds 4000) 5 reached-Reach
