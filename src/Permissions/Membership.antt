-- ===== src/Permissions/Membership.antt =====
-- Who is in a group after a change of members: crates/ppb-server/src/permissions/repo.rs
-- and groups.rs.
use phira_plus_backend.Prelude.{
  ℕ, ◌≡◌, ◌∙◌, sym, subst, refl, true, false, not, some, List, [], ◌∷◌, ◌==◌, nat_eq, nat_beq_iff,
  any, every, every-select, find, select, Bool, contains, arith, Bool-cases, inl, inr,
}
use phira_plus_backend.ApiError.{ok}
use phira_plus_backend.Permissions.{
  Db, Group, Fresh, has_id, of_user, is_member, insert_member, insert_default,
  ensure_user_not_orphaned, without_member, remove_member, insert_members, rescue_members,
  then_rescue, replace_group_members,
}
use phira_plus_backend.Permissions.Validity.{HasDefault}
use phira_plus_backend.Permissions.Bootstrap.{default_group_id-found}

-- The groups and the grants are the same, and no user has lost the last membership.
pub record Keeps (before after : Db) : Type 0 where
  pub groups : after.groups ≡ before.groups
  pub grants : after.grants ≡ before.grants
  pub users : after.users ≡ before.users
  pub members :
      (v : ℕ) → any (of_user v) before.members ≡ true → any (of_user v) after.members ≡ true

Keeps-refl : (db : Db) → Keeps db db
Keeps-refl db = record { groups = refl; grants = refl; users = refl; members = λ v h. h }

Keeps-trans : {a b c : Db} → Keeps a b → Keeps b c → Keeps a c
Keeps-trans p q = record {
  groups = q.groups ∙ p.groups;
  grants = q.grants ∙ p.grants;
  users = q.users ∙ p.users;
  members = λ v h. q.members v (p.members v h);
}

pub insert_member-Keeps : (gid uid : ℕ) (db : Db) → Keeps db (insert_member gid uid db).1
unfolding insert_member
insert_member-Keeps gid uid db = record {
  groups = ground arith;
  grants = ground arith;
  users = ground arith;
  members = λ v h. ground (arith, h);
}

any_member-of_user :
    (gid uid : ℕ) (members : List (ℕ × ℕ))
    → any (is_member gid uid) members ≡ true
    → any (of_user uid) members ≡ true
any_member-of_user gid uid [] h = h
any_member-of_user gid uid (m ∷ members) h = ground (arith, any_member-of_user gid uid members)

pub insert_member-joins :
    (gid uid : ℕ) (db : Db)
    → any (has_id gid) db.groups ≡ true
    → contains db.users uid ≡ true
    → ((insert_member gid uid db).0 ≡ ok tt)
      × (any (of_user uid) (insert_member gid uid db).1.members ≡ true)
unfolding insert_member
insert_member-joins gid uid db h u = (
  ground (arith, h, u),
  ground (arith, h, u, any_member-of_user gid uid db.members, nat_beq_iff uid uid),
)

any-has_id :
    (g : Group) (groups : List Group)
    → find (λ g. g.is_default) groups ≡ some g
    → any (has_id g.id) groups ≡ true
any-has_id g [] h = cc
any-has_id g (x ∷ groups) h = ground (arith, nat_beq_iff g.id g.id, any-has_id g groups)

-- The user is in a group afterwards.
pub orphan-joins :
    (f : Fresh) (uid : ℕ) (db : Db)
    → HasDefault db.groups
    → contains db.users uid ≡ true
    → ((ensure_user_not_orphaned f uid db).0 ≡ ok tt)
      × (any (of_user uid) (ensure_user_not_orphaned f uid db).1.members ≡ true)
      × Keeps db (ensure_user_not_orphaned f uid db).1
unfolding ensure_user_not_orphaned insert_default
orphan-joins f uid db h u = elim (Bool-cases (any (of_user uid) db.members)) [
  | inl e ↦ rw e (refl, e, Keeps-refl db)
  | inr e ↦
      let (g, found, same) = default_group_id-found f db h in
      let (done, joined) = insert_member-joins g.id uid db (any-has_id g db.groups found) u in
      rw (e, same) (done, joined, insert_member-Keeps g.id uid db)
]

without_member-others :
    (gid uid v : ℕ) (members : List (ℕ × ℕ))
    → (v == uid) ≡ false
    → any (of_user v) members ≡ true
    → any (of_user v) (select (λ m. not (is_member gid uid m)) members) ≡ true
without_member-others gid uid v [] n h = h
without_member-others gid uid v (m ∷ members) n h = ground (
  arith,
  without_member-others gid uid v members n,
  nat_beq_iff m.1 v,
  nat_beq_iff m.1 uid,
  nat_beq_iff v uid,
)

-- The user who leaves is in some group, and no other loses the last membership.
pub remove_member-joins :
    (f : Fresh) (gid uid : ℕ) (db : Db)
    → HasDefault db.groups
    → contains db.users uid ≡ true
    → ((remove_member f gid uid db).0 ≡ ok tt)
      × (any (of_user uid) (remove_member f gid uid db).1.members ≡ true)
      × Keeps db (remove_member f gid uid db).1
unfolding remove_member without_member
remove_member-joins f gid uid db h known =
    let (done, joined, kept) = orphan-joins f uid (without_member gid uid db) h known in
    (
      done,
      joined,
      record {
        groups = kept.groups;
        grants = kept.grants;
        users = kept.users;
        members = λ v w. elim (Bool-cases (v == uid)) [
          | inl e ↦
              subst (λ u. any (of_user u) (remove_member f gid uid db).1.members ≡ true)
                (sym ((nat_beq_iff v uid).0 e)) joined
          | inr e ↦ kept.members v (without_member-others gid uid v db.members e w)
        ];
      },
    )

insert_members-joins :
    (gid : ℕ) (uids : List ℕ) (db : Db)
    → any (has_id gid) db.groups ≡ true
    → every (contains db.users) uids ≡ true
    → ((insert_members gid uids db).0 ≡ ok tt)
      × ((v : ℕ)
          → contains uids v ≡ true
          → any (of_user v) (insert_members gid uids db).1.members ≡ true)
      × Keeps db (insert_members gid uids db).1
unfolding insert_members
insert_members-joins gid [] db h k = (refl, λ v e. absurd (ground (arith, e)), Keeps-refl db)
insert_members-joins gid (uid ∷ uids) db h k =
    let (done, joined) = insert_member-joins gid uid db h (ground (arith, k)) in
    let kept = insert_member-Keeps gid uid db in
    let (rest, all, more) =
      insert_members-joins gid uids (insert_member gid uid db).1 (rw kept.groups h)
        (rw kept.users (ground (arith, k))) in
    rw (done, insert_members)
      (
        rest,
        (λ v e. elim (Bool-cases (uid == v)) [
          | inl u ↦ more.members v (
              subst (λ u. any (of_user u) (insert_member gid uid db).1.members ≡ true)
                ((nat_beq_iff uid v).0 u) joined)
          | inr u ↦ all v (ground (arith, e, u))
        ]),
        Keeps-trans kept more,
      )

-- The user of a membership is there.
abbrev pub refers : List ℕ → ℕ × ℕ → Bool
refers users m = contains users m.1

rescue_members-joins :
    (f : Fresh) (kept : List ℕ) (old : List (ℕ × ℕ)) (db : Db)
    → HasDefault db.groups
    → every (refers db.users) old ≡ true
    → ((rescue_members f kept old db).0 ≡ ok tt)
      × ((v : ℕ)
          → any (of_user v) old ≡ true
          → contains kept v ≡ false
          → any (of_user v) (rescue_members f kept old db).1.members ≡ true)
      × Keeps db (rescue_members f kept old db).1
unfolding rescue_members
rescue_members-joins f kept [] db h k = (refl, λ v e n. absurd (ground (arith, e)), Keeps-refl db)
rescue_members-joins f kept ((g, uid) ∷ old) db h k = elim (Bool-cases (contains kept uid)) [
  | inl c ↦
      let (rest, all, more) = rescue_members-joins f kept old db h (ground (arith, k)) in
      rw (c, rescue_members)
        (rest, (λ v e n. all v (ground (arith, e, n, c, nat_beq_iff uid v)) n), more)
  | inr c ↦
      let (done, joined, one) = orphan-joins f uid db h (ground (arith, k)) in
      let (rest, all, more) =
        rescue_members-joins f kept old (ensure_user_not_orphaned f uid db).1 (rw one.groups h)
          (rw one.users (ground (arith, k))) in
      rw (c, rescue_members, done)
        (
          rest,
          (λ v e n. elim (Bool-cases (uid == v)) [
            | inl u ↦ more.members v (
                subst (λ u. any (of_user u) (ensure_user_not_orphaned f uid db).1.members ≡ true)
                  ((nat_beq_iff uid v).0 u) joined)
            | inr u ↦ all v (ground (arith, e, u)) n
          ]),
          Keeps-trans one more,
        )
]

-- A membership stands in the group that is replaced, or in another.
any-split :
    (gid v : ℕ) (members : List (ℕ × ℕ))
    → any (of_user v) members ≡ true
    → any (of_user v) (select (λ m. not (m.0 == gid)) members) ≡ false
    → any (of_user v) (select (λ m. m.0 == gid) members) ≡ true
any-split gid v [] h n = h
any-split gid v (m ∷ members) h n = ground (arith, h, n, any-split gid v members)

-- The new members are in a group, and no user loses the last membership.
pub replace_group_members-joins :
    (f : Fresh) (gid : ℕ) (uids : List ℕ) (db : Db)
    → any (has_id gid) db.groups ≡ true
    → HasDefault db.groups
    → every (refers db.users) db.members ≡ true
    → every (contains db.users) uids ≡ true
    → ((replace_group_members f gid uids db).0 ≡ ok tt)
      × ((v : ℕ)
          → contains uids v ≡ true
          → any (of_user v) (replace_group_members f gid uids db).1.members ≡ true)
      × Keeps db (replace_group_members f gid uids db).1
unfolding replace_group_members then_rescue
replace_group_members-joins f gid uids db g h referred known =
    let cleared = record db { members = select (λ m. not (m.0 == gid)) db.members } in
    let old = select (λ m. m.0 == gid) db.members in
    let (done, joined, kept) = insert_members-joins gid uids cleared g known in
    let (rest, all, more) =
      rescue_members-joins f uids old (insert_members gid uids cleared).1 (rw kept.groups h)
        (rw kept.users (every-select (refers db.users) (λ m. m.0 == gid) db.members referred)) in
    rw (replace_group_members, then_rescue, done)
      (
        rest,
        (λ v e. more.members v (joined v e)),
        record {
          groups = more.groups ∙ kept.groups;
          grants = more.grants ∙ kept.grants;
          users = more.users ∙ kept.users;
          members = λ v w. elim (Bool-cases (contains uids v)) [
            | inl c ↦ more.members v (joined v c)
            | inr c ↦ elim (Bool-cases (any (of_user v) cleared.members)) [
              | inl e ↦ more.members v (kept.members v e)
              | inr e ↦ all v (any-split gid v db.members w e) c
            ]
          ];
        },
      )
