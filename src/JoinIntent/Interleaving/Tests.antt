-- ===== src/JoinIntent/Interleaving/Tests.antt =====
-- A request whose intent is cancelled between its two writes.
use phira_plus_backend.Prelude.{ℕ, ◌≡◌, ◌+◌, refl, true, List, [], ◌∷◌, codes, insert, remove}
use phira_plus_backend.JoinIntent.{JoinIntent, JoinIntentStore, pending, seconds}
use phira_plus_backend.JoinIntent.Interleaving.{resume, indexing, cancelling}
use phira_plus_backend.JoinIntent.Interleaving.Alone.{alone}

abbrev room : List ℕ
room = codes " ABC "

abbrev intent : JoinIntent
intent = record {
  id = 5;
  user_id = 1;
  phira_id = 77;
  room_id = codes "ABC";
  created_at = 100;
  expires_at = 100 + seconds 300;
  status = pending;
}

abbrev always_77 : ℕ → ℕ
always_77 id = 77

abbrev inserted : JoinIntentStore
inserted = record { intents = (5, intent) ∷ []; by_phira = [] }

-- The index then names an intent that is not stored.
dangling :
    (alone 1 100 true (indexing intent, (alone 3 100 true (cancelling 1 5, inserted)).1)).1
    ≡ record { intents = []; by_phira = (77, 5) ∷ [] }
unfolding alone resume insert remove
dangling = refl
