-- ===== src/Permissions/Groups/Reachable.antt =====
-- Every sequence of the operations on groups, members and grants:
-- crates/ppb-server/src/permissions/repo.rs and groups.rs.
use phira_plus_backend.Prelude.{
  ℕ, ◌≡◌, refl, sym, subst, String, Bool, false, Option, List, nat_eq, any, arith, contains, select,
  not, ◌==◌, Bool-cases, inl, inr, ◌∷◌, [], ◌∙◌,
}
use phira_plus_backend.ApiError.{Result, ok, err, Result-cases}
use phira_plus_backend.Permissions.{
  Db, Group, Fresh, has_id, of_user, default_group_id, ensure_user_not_orphaned, insert_default,
  bootstrap, insert_member, insert_members, rescue_members, then_rescue, without_member, add_member,
  remove_member, replace_group_members,
}
use phira_plus_backend.Permissions.Groups.{
  insert_grant, insert_grants, all_grantable, grantable, create_group, rename_group, add_permission,
  remove_permission, replace_group_permissions, set_default_group, patch_group, delete_group,
}
use phira_plus_backend.Permissions.Validity.{IsSound, HasDefault}
use phira_plus_backend.Permissions.Bootstrap.{
  IsFresh, empty, empty-IsSound, bootstrap-IsSound, bootstrap-HasDefault,
  bootstrap-empty-HasDefault, default_group_id-found,
}
use phira_plus_backend.Permissions.Membership.{insert_member-Keeps}
use phira_plus_backend.Permissions.Groups.Keeping.{
  IsKept, same, create_group-IsKept, rename_group-IsKept, set_default_group-IsKept,
  delete_group-IsKept,
}
use phira_plus_backend.Permissions.Groups.Patching.{patch_group-IsKept}

-- One call, run to its end before the next. The server bootstraps the groups whenever it starts,
-- and users are registered by their first login.
pub data Step (db : Db) : Db → Type 0 where
  restarted : (f : Fresh) → IsFresh f db.groups → Step db (bootstrap f db)
  registered : (uid : ℕ) → Step db (record db { users = uid ∷ db.users })
  created :
      (fresh : ℕ) (name : List ℕ) (description : String) (is_default : Option Bool)
      → any (has_id fresh) db.groups ≡ false
      → Step db (create_group fresh name description is_default db).1
  renamed : (id : ℕ) (name : List ℕ) → Step db (rename_group id name db).1
  patched :
      (id : ℕ) (name : Option (List ℕ)) (description : Option String) (is_default : Option Bool)
      → Step db (patch_group id name description is_default db).1
  defaulted : (id : ℕ) → Step db (set_default_group id db).1
  deleted : (id : ℕ) → Step db (delete_group id db).1
  granted : (gid : ℕ) (permission : String) → Step db (add_permission gid permission db).1
  revoked : (gid : ℕ) (permission : String) → Step db (remove_permission gid permission db).1
  replaced : (gid : ℕ) (ps : List String) → Step db (replace_group_permissions gid ps db).1
  ensured : (f : Fresh) (uid : ℕ) → Step db (ensure_user_not_orphaned f uid db).1
  joined : (gid uid : ℕ) → Step db (add_member gid uid db).1
  left : (f : Fresh) (gid uid : ℕ) → Step db (remove_member f gid uid db).1
  members_replaced :
      (f : Fresh) (gid : ℕ) (uids : List ℕ) → Step db (replace_group_members f gid uids db).1

-- The first start of the server finds the tables empty.
pub data Reach : Db → Type 0 where
  first_start : (f : Fresh) → IsFresh f [] → Reach (bootstrap f empty)
  next : {a b : Db} → Reach a → Step a b → Reach b

by_groups : {a b : List Group} → b ≡ a → IsSound a → IsKept a b
by_groups {a} e v = subst (IsKept a) (sym e) (same v)

insert_default-groups : (uid : ℕ) (r : Result ℕ × Db) → (insert_default uid r).1.groups ≡ r.1.groups
unfolding insert_default
insert_default-groups uid (ok gid, db) = (insert_member-Keeps gid uid db).groups
insert_default-groups uid (err e, db) = refl

ensure_user_not_orphaned-groups :
    (f : Fresh) (uid : ℕ) (db : Db)
    → HasDefault db.groups
    → (ensure_user_not_orphaned f uid db).1.groups ≡ db.groups
unfolding ensure_user_not_orphaned
ensure_user_not_orphaned-groups f uid db h = elim (Bool-cases (any (of_user uid) db.members)) [
  | inl e ↦ rw e refl
  | inr e ↦
      let (g, found, same) = default_group_id-found f db h in
      rw (e, insert_default-groups uid (default_group_id f db), same) refl
]

insert_members-groups :
    (gid : ℕ) (uids : List ℕ) (db : Db) → (insert_members gid uids db).1.groups ≡ db.groups
unfolding insert_members
insert_members-groups gid [] db = refl
insert_members-groups gid (uid ∷ uids) db =
    let one = (insert_member-Keeps gid uid db).groups in
    elim (Result-cases (insert_member gid uid db).0) [
      | inl (done, e) ↦
          rw (e, insert_members) (insert_members-groups gid uids (insert_member gid uid db).1 ∙ one)
      | inr (x, e) ↦ rw (e, insert_members) one
    ]

rescue_members-groups :
    (f : Fresh) (kept : List ℕ) (old : List (ℕ × ℕ)) (db : Db)
    → HasDefault db.groups
    → (rescue_members f kept old db).1.groups ≡ db.groups
unfolding rescue_members
rescue_members-groups f kept [] db h = refl
rescue_members-groups f kept ((gid, uid) ∷ old) db h =
    let one = ensure_user_not_orphaned-groups f uid db h in
    let after = (ensure_user_not_orphaned f uid db).1 in
    elim (Bool-cases (contains kept uid)) [
      | inl c ↦ rw (c, rescue_members) (rescue_members-groups f kept old db h)
      | inr c ↦ elim (Result-cases (ensure_user_not_orphaned f uid db).0) [
        | inl (done, e) ↦
            rw (c, e, rescue_members) (rescue_members-groups f kept old after (rw one h) ∙ one)
        | inr (x, e) ↦ rw (c, e, rescue_members) one
      ]
    ]

replace_group_members-groups :
    (f : Fresh) (gid : ℕ) (uids : List ℕ) (db : Db)
    → HasDefault db.groups
    → (replace_group_members f gid uids db).1.groups ≡ db.groups
unfolding replace_group_members then_rescue
replace_group_members-groups f gid uids db h =
    let cleared = record db { members = select (λ m. not (m.0 == gid)) db.members } in
    let old = select (λ m. m.0 == gid) db.members in
    let one = insert_members-groups gid uids cleared in
    elim (Result-cases (insert_members gid uids cleared).0) [
      | inl (done, e) ↦
          rw (replace_group_members, then_rescue, e)
            (rescue_members-groups f uids old (insert_members gid uids cleared).1 (rw one h) ∙ one)
      | inr (x, e) ↦ rw (replace_group_members, then_rescue, e) one
    ]

insert_grant-groups :
    (gid : ℕ) (p : String) (db : Db) → (insert_grant gid p db).1.groups ≡ db.groups
unfolding insert_grant
insert_grant-groups gid p db = ground arith

insert_grants-groups :
    (gid : ℕ) (ps : List String) (db : Db) → (insert_grants gid ps db).1.groups ≡ db.groups
unfolding insert_grants
insert_grants-groups gid [] db = refl
insert_grants-groups gid (p ∷ ps) db = elim (Result-cases (insert_grant gid p db).0) [
  | inl (done, e) ↦
      rw (e, insert_grants)
        (insert_grants-groups gid ps (insert_grant gid p db).1 ∙ insert_grant-groups gid p db)
  | inr (x, e) ↦ rw (e, insert_grants) (insert_grant-groups gid p db)
]

add_permission-groups :
    (gid : ℕ) (p : String) (db : Db) → (add_permission gid p db).1.groups ≡ db.groups
unfolding add_permission
add_permission-groups gid p db = elim (Result-cases (grantable "unknown permission id" p)) [
  | inl (done, e) ↦ rw (e, add_permission) (insert_grant-groups gid p db)
  | inr (x, e) ↦ rw (e, add_permission) refl
]

replace_group_permissions-groups :
    (gid : ℕ) (ps : List String) (db : Db)
    → (replace_group_permissions gid ps db).1.groups ≡ db.groups
unfolding replace_group_permissions
replace_group_permissions-groups gid ps db = elim (Result-cases (all_grantable ps)) [
  | inl (done, e) ↦ rw (e, replace_group_permissions) (insert_grants-groups gid ps _)
  | inr (x, e) ↦ rw (e, replace_group_permissions) refl
]

Step-IsKept :
    {a b : Db} → Step a b → IsSound a.groups → HasDefault a.groups → IsKept a.groups b.groups
unfolding remove_permission add_member remove_member without_member
Step-IsKept {a} (restarted f n) v h = record {
  sound = bootstrap-IsSound f a n v;
  has_default = bootstrap-HasDefault f a;
}
Step-IsKept {a} (registered uid) v h = same v
Step-IsKept {a} (created fresh name d is_default n) v h =
    create_group-IsKept fresh name d is_default a n v
Step-IsKept {a} (renamed id name) v h = rename_group-IsKept id name a v
Step-IsKept {a} (patched id name d is_default) v h = patch_group-IsKept id name d is_default a v
Step-IsKept {a} (defaulted id) v h = set_default_group-IsKept id a v
Step-IsKept {a} (deleted id) v h = delete_group-IsKept id a v
Step-IsKept {a} (granted gid p) v h = by_groups (add_permission-groups gid p a) v
Step-IsKept {a} (revoked gid p) v h = same v
Step-IsKept {a} (replaced gid ps) v h = by_groups (replace_group_permissions-groups gid ps a) v
Step-IsKept {a} (ensured f uid) v h = by_groups (ensure_user_not_orphaned-groups f uid a h) v
Step-IsKept {a} (joined gid uid) v h = by_groups (insert_member-Keeps gid uid a).groups v
Step-IsKept {a} (left f gid uid) v h =
    by_groups (ensure_user_not_orphaned-groups f uid (without_member gid uid a) h) v
Step-IsKept {a} (members_replaced f gid uids) v h =
    by_groups (replace_group_members-groups f gid uids a h) v

-- From the first start of the server on, whatever calls and later starts follow one another, group
-- ids and names are unique, one group exactly is the default, and it is not an `admin_scope` group.
pub Reach-IsSound : {db : Db} → Reach db → IsSound db.groups × HasDefault db.groups
Reach-IsSound (first_start f n) =
    (bootstrap-IsSound f empty n empty-IsSound, bootstrap-empty-HasDefault f)
Reach-IsSound (next p st) =
    let (v, h) = Reach-IsSound p in
    let kept = Step-IsKept st v h in (kept.sound, kept.has_default h)
