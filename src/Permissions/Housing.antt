-- ===== src/Permissions/Housing.antt =====
-- Who stays in some group: crates/ppb-server/src/permissions/repo.rs.
use phira_plus_backend.Prelude.{
  ℕ, ◌≡◌, refl, ◌∙◌, sym, subst, true, false, ◌||◌, List, [], ◌∷◌, ◌==◌, nat_eq, nat_beq_iff, any,
  every, contains, select, not, arith, Bool-cases, inl, inr,
}
use phira_plus_backend.ApiError.{ok, err, internal}
use phira_plus_backend.Permissions.{
  Db, Fresh, has_id, of_user, insert_member, insert_members, then_rescue, remove_member,
  replace_group_members,
}
use phira_plus_backend.Permissions.Validity.{HasDefault}
use phira_plus_backend.Permissions.Membership.{
  insert_member-joins, insert_member-Keeps, refers, remove_member-joins,
  replace_group_members-joins,
}

-- Where a default group exists, removing a member who is a user succeeds, leaves groups and grants as they are, and
-- leaves the member, and every user who was in some group before, in some group.
pub remove_member_houses :
    (f : Fresh) (gid uid v : ℕ) (db : Db)
    → HasDefault db.groups
    → contains db.users uid ≡ true
    → (v == uid || any (of_user v) db.members) ≡ true
    → ((remove_member f gid uid db).0 ≡ ok tt)
      × ((remove_member f gid uid db).1.groups ≡ db.groups)
      × ((remove_member f gid uid db).1.grants ≡ db.grants)
      × (any (of_user v) (remove_member f gid uid db).1.members ≡ true)
remove_member_houses f gid uid v db h known w =
    let (done, joined, kept) = remove_member-joins f gid uid db h known in
    let after = (remove_member f gid uid db).1 in
    (
      done,
      kept.groups,
      kept.grants,
      elim (Bool-cases (v == uid)) [
        | inl e ↦
            subst (λ u. any (of_user u) after.members ≡ true) (sym ((nat_beq_iff v uid).0 e)) joined
        | inr e ↦ kept.members v (ground (arith, e, w))
      ],
    )

replace_known :
    (f : Fresh) (gid : ℕ) (uids : List ℕ) (v : ℕ) (db : Db)
    → any (has_id gid) db.groups ≡ true
    → HasDefault db.groups
    → every (refers db.users) db.members ≡ true
    → every (contains db.users) uids ≡ true
    → (contains uids v || any (of_user v) db.members) ≡ true
    → ((replace_group_members f gid uids db).0 ≡ ok tt)
      × (any (of_user v) (replace_group_members f gid uids db).1.members ≡ true)
replace_known f gid uids v db g h referred known w =
    let (done, joined, kept) = replace_group_members-joins f gid uids db g h referred known in
    (
      done,
      elim (Bool-cases (contains uids v)) [
        | inl e ↦ joined v e
        | inr e ↦ kept.members v (ground (arith, e, w))
      ],
    )

insert_member-others :
    (gid uid v : ℕ) (db : Db)
    → (uid == v) ≡ false
    → any (of_user v) (insert_member gid uid db).1.members ≡ any (of_user v) db.members
unfolding insert_member
insert_member-others gid uid v db n = ground (arith, n)

insert_member-unknown :
    (gid uid : ℕ) (db : Db)
    → contains db.users uid ≡ false
    → (insert_member gid uid db).0 ≡ err internal
unfolding insert_member
insert_member-unknown gid uid db u = ground (arith, u)

-- The loop ends at the first id that is of no user, and joins no user but those it is given.
insert_members-unknown :
    (gid : ℕ) (uids : List ℕ) (v : ℕ) (db : Db)
    → any (has_id gid) db.groups ≡ true
    → every (contains db.users) uids ≡ false
    → contains uids v ≡ false
    → ((insert_members gid uids db).0 ≡ err internal)
      × (any (of_user v) (insert_members gid uids db).1.members ≡ any (of_user v) db.members)
unfolding insert_members
insert_members-unknown gid [] v db g k n = absurd (ground (arith, k))
insert_members-unknown gid (uid ∷ uids) v db g k n =
    let kept = insert_member-Keeps gid uid db in
    let other = insert_member-others gid uid v db (ground (arith, n)) in
    elim (Bool-cases (contains db.users uid)) [
      | inl u ↦
          let (done, joined) = insert_member-joins gid uid db g u in
          let (failed, same) =
            insert_members-unknown gid uids v (insert_member gid uid db).1 (rw kept.groups g)
              (rw kept.users (ground (arith, k, u))) (ground (arith, n)) in
          rw (done, insert_members) (failed, same ∙ other)
      | inr u ↦ rw (insert_member-unknown gid uid db u, insert_members) (refl, other)
    ]

replace_unknown :
    (f : Fresh) (gid : ℕ) (uids : List ℕ) (v : ℕ) (db : Db)
    → any (has_id gid) db.groups ≡ true
    → every (contains db.users) uids ≡ false
    → contains uids v ≡ false
    → ((replace_group_members f gid uids db).0 ≡ err internal)
      × (any (of_user v) (replace_group_members f gid uids db).1.members
          ≡ any (of_user v) (select (λ m. not (m.0 == gid)) db.members))
unfolding replace_group_members then_rescue
replace_unknown f gid uids v db g unknown n =
    let cleared = record db { members = select (λ m. not (m.0 == gid)) db.members } in
    let (failed, same) = insert_members-unknown gid uids v cleared g unknown n in
    rw (replace_group_members, then_rescue, failed) (refl, same)

-- Replacing the members of an existing group, where a default group exists and every membership is
-- of a user that exists. If all the ids given are of users, it succeeds, and every new member, and
-- every user who was in some group before, is in some group afterwards. If one is not, it fails after
-- the old members have been deleted: a user who is not among the ids is then in some group only if
-- in another than this one, so that a member of this group alone is left in none.
pub replace_group_members_houses :
    (f : Fresh) (gid : ℕ) (uids : List ℕ) (v : ℕ) (db : Db)
    → any (has_id gid) db.groups ≡ true
    → HasDefault db.groups
    → every (refers db.users) db.members ≡ true
    → (every (contains db.users) uids ≡ true
        → (contains uids v || any (of_user v) db.members) ≡ true
        → ((replace_group_members f gid uids db).0 ≡ ok tt)
          × (any (of_user v) (replace_group_members f gid uids db).1.members ≡ true))
      × (every (contains db.users) uids ≡ false
          → contains uids v ≡ false
          → ((replace_group_members f gid uids db).0 ≡ err internal)
            × (any (of_user v) (replace_group_members f gid uids db).1.members
                ≡ any (of_user v) (select (λ m. not (m.0 == gid)) db.members)))
replace_group_members_houses f gid uids v db g h referred =
    (replace_known f gid uids v db g h referred, replace_unknown f gid uids v db g)
