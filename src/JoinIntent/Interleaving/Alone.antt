-- ===== src/JoinIntent/Interleaving/Alone.antt =====
-- A task that runs without another in between is its method: crates/ppb-server/src/join_intent/mod.rs.
use phira_plus_backend.Prelude.{
  ℕ, zero, suc, ◌≡◌, refl, Bool, lookup, ◌==◌, nat_eq, Bool-cases, Option-cases, inl, inr,
}
use phira_plus_backend.JoinIntent.{
  JoinIntent, JoinIntentStore, Status, store_intent, cancel, mark_terminal, unindex, update_status,
}
use phira_plus_backend.JoinIntent.Interleaving.{
  Task, resume, finished, inserting, cancelling, ending, unindexing_of, cancel_read,
}

-- So many calls of one task, one after another.
unfoldable pub alone : ℕ → ℕ → Bool → Task × JoinIntentStore → Task × JoinIntentStore
unfolding resume
alone zero now moved (t, s) = (t, s)
alone (suc n) now moved (t, s) = alone n now moved (resume now moved t s)

pub alone-create :
    (now : ℕ) (moved : Bool) (i : JoinIntent) (s : JoinIntentStore)
    → alone 3 now moved (inserting i, s) ≡ (finished, store_intent i s)
unfolding alone resume store_intent unindex unindexing_of
alone-create now moved i s = elim (Option-cases (lookup i.id s.intents)) [
  | inl e ↦ rw (e, alone, unindexing_of, unindex) refl
  | inr (q, e) ↦ rw (e, alone, unindexing_of, unindex) refl
]

pub alone-cancel :
    (now : ℕ) (moved : Bool) (user_id id : ℕ) (s : JoinIntentStore)
    → alone 3 now moved (cancelling user_id id, s) ≡ (finished, (cancel s user_id id).1)
unfolding alone resume cancel cancel_read
alone-cancel now moved user_id id s = elim (Option-cases (lookup id s.intents)) [
  | inl e ↦ rw (e, alone, cancel_read, cancel) refl
  | inr (i, e) ↦ elim (Bool-cases (i.user_id == user_id)) [
    | inl o ↦ rw (e, o, alone, cancel_read, cancel) refl
    | inr o ↦ rw (e, o, alone, cancel_read, cancel) refl
  ]
]

pub alone-mark_terminal :
    (now : ℕ) (moved : Bool) (id : ℕ) (st : Status) (s : JoinIntentStore)
    → alone 3 now moved (ending id st, s) ≡ (finished, mark_terminal s id st)
unfolding alone resume mark_terminal unindexing_of update_status
alone-mark_terminal now moved id st s = elim (Option-cases (lookup id s.intents)) [
  | inl e ↦ rw (e, alone, unindexing_of, mark_terminal) refl
  | inr (i, e) ↦ rw (e, alone, unindexing_of, mark_terminal) refl
]
