-- ===== src/ReplayAccess/Sharing/Ownership.antt =====
-- Who manages a replay: ensure_owner and set_replay_visibility of
-- crates/ppb-server/src/replay/routes.rs.
use phira_plus_backend.Prelude.{
  ℕ, ◌≡◌, refl, ap, String, Bool, true, false, Option, none, some, ◌==◌, nat_eq, string_eq, eq_iff,
  nat_beq_iff, find, find-update_where, Option-cases, arith, inl, inr,
}
use phira_plus_backend.ApiError.{ok, err, Result-cases, denied}
use phira_plus_backend.ReplayAccess.{
  Db, ReplayOverride, Visibility, get_override, effective_visibility, is_of, is_some_of, or_public,
}
use phira_plus_backend.ReplayAccess.Sharing.{
  ensure_owner, new_override, refuse_unless, set_replay_visibility, set_visibility, shown_as,
  visibility_of,
}

-- The pair has an override that is the caller's and shows the visibility.
record IsStored (round : String) (player uid : ℕ) (v : Visibility) (db : Db) : Type 0 where
  row : ReplayOverride
  stored : get_override round player db ≡ some row
  owned : is_some_of uid row.owner_user_id ≡ true
  shown : row.visibility ≡ v

refuse_unless-ok : (allowed : Bool) → refuse_unless allowed ≡ ok tt → allowed ≡ true
refuse_unless-ok allowed h = ground (arith, h)

set_visibility-IsStored :
    (fresh : ℕ) (round : String) (player uid : ℕ) (v : Visibility) (db : Db)
    → ensure_owner round player uid db ≡ ok tt
    → IsStored round player uid v (set_visibility fresh round player uid v db)
unfolding set_visibility ensure_owner get_override
set_visibility-IsStored fresh round player uid v db h =
    elim (Option-cases (find (is_of round player) db.overrides)) [
      | inl e ↦
          rw (set_visibility, e)
            (record {
              row = new_override fresh round player uid v;
              stored =
                  ground (arith, (eq_iff round round).1 refl, (nat_beq_iff player player).1 refl);
              owned = (nat_beq_iff uid uid).1 refl;
              shown = refl;
            })
      | inr (o, e) ↦
          rw (set_visibility, e)
            (record {
              row = shown_as v o;
              stored =
                  find-update_where (is_of round player) (shown_as v) db.overrides o (λ x. refl) e;
              owned = refuse_unless-ok (is_some_of uid o.owner_user_id) (ground (arith, e, h));
              shown = refl;
            })
    ]

only_one :
    (uid other : ℕ) (owner : Option ℕ)
    → (uid == other) ≡ false
    → is_some_of uid owner ≡ true
    → is_some_of other owner ≡ false
only_one uid other none n h = refl
only_one uid other (some o) n h = ground (arith, n, h, nat_beq_iff o uid)

-- What a user who sets the visibility of a replay gets.
pub record IsOwned (round : String) (player uid : ℕ) (text : String) (db : Db) : Type 0 where
  pub visibility : Visibility
  pub read : visibility_of text ≡ some visibility
  pub shown : effective_visibility round player db ≡ or_public visibility
  pub mine : ensure_owner round player uid db ≡ ok tt
  pub others :
      (other : ℕ) → (uid == other) ≡ false → ensure_owner round player other db ≡ err denied

IsStored-IsOwned :
    (round : String) (player uid : ℕ) (text : String) (v : Visibility) (db : Db)
    → visibility_of text ≡ some v
    → IsStored round player uid v db
    → IsOwned round player uid text db
unfolding ensure_owner effective_visibility
IsStored-IsOwned round player uid text v db read s = record {
  visibility = v;
  read = read;
  shown = rw (effective_visibility, s.stored) (ap or_public s.shown);
  mine = rw (ensure_owner, s.stored, s.owned) refl;
  others =
      λ other n. rw (ensure_owner, s.stored, only_one uid other s.row.owner_user_id n s.owned) refl;
}

-- A caller who sets the visibility of a replay owns its override afterwards: the replay has the
-- visibility that was asked for, the caller may manage it on, and no other user may.
pub set_replay_visibility-IsOwned :
    (fresh uid : ℕ) (round : String) (player : ℕ) (text : String) (db : Db)
    → (set_replay_visibility fresh uid round player text db).0 ≡ ok tt
    → IsOwned round player uid text (set_replay_visibility fresh uid round player text db).1
unfolding set_replay_visibility
set_replay_visibility-IsOwned fresh uid round player text db h =
    elim (Option-cases (visibility_of text)) [
      | inl n ↦ absurd (ground (arith, n, h))
      | inr (v, read) ↦ elim (Result-cases (ensure_owner round player uid db)) [
        | inr (x, e) ↦ absurd (ground (arith, read, e, h))
        | inl (done, e) ↦
            rw (set_replay_visibility, read, e)
              (IsStored-IsOwned round player uid text v (set_visibility fresh round player uid v db)
                read (set_visibility-IsStored fresh round player uid v db e))
      ]
    ]
