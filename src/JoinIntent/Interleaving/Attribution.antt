-- ===== src/JoinIntent/Interleaving/Attribution.antt =====
-- No player is moved for another's intent, however the calls interleave:
-- crates/ppb-server/src/join_intent/mod.rs and crates/ppb-server/src/app.rs.
use phira_plus_backend.Prelude.{ℕ, ◌≡◌, List, ◌∷◌, ◌++◌, some, nat_eq, lookup, All}
use phira_plus_backend.JoinIntent.{JoinIntent, JoinIntentStore}
use phira_plus_backend.JoinIntent.Interleaving.{
  Task, World, inserting, indexing, unindexing, setting, matched, awaiting, purging,
}

-- Every intent and every index entry is of the player of its uuid.
record IsOwned (player : ℕ → ℕ) (s : JoinIntentStore) : Type 0 where
  stored :
      (k : ℕ) (i : JoinIntent) → lookup k s.intents ≡ some i → (i.id ≡ k) × (i.phira_id ≡ player k)
  indexed : (p k : ℕ) → lookup p s.by_phira ≡ some k → player k ≡ p

-- The same of what a task has in hand.
IsOwn : (ℕ → ℕ) → Task → Type 0
IsOwn player (inserting i) = i.phira_id ≡ player i.id
IsOwn player (indexing i) = i.phira_id ≡ player i.id
IsOwn player (unindexing p k) = IsOwn player k
IsOwn player (setting id st k) = IsOwn player k
IsOwn player (matched p id) = player id ≡ p
IsOwn player (awaiting p i) = i.phira_id ≡ p
IsOwn player (purging id k) = IsOwn player k
IsOwn player _ = Unit

abbrev Owned : (ℕ → ℕ) → World → Type 0
Owned player w = IsOwned player w.store × All (IsOwn player) w.tasks

-- An intent stands under its own id, an index entry leads to no intent of another player, and the
-- event task moves no player for an intent of another.
pub record IsAttributed (w : World) : Type 0 where
  pub keyed : (k : ℕ) (i : JoinIntent) → lookup k w.store.intents ≡ some i → i.id ≡ k
  pub woken :
      (p k : ℕ) (i : JoinIntent)
      → lookup p w.store.by_phira ≡ some k
      → lookup k w.store.intents ≡ some i
      → i.phira_id ≡ p
  pub moved :
      (before after : List Task) (p : ℕ) (i : JoinIntent)
      → w.tasks ≡ before ++ awaiting p i ∷ after
      → i.phira_id ≡ p
