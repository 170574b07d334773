-- ===== src/Permissions.antt =====
-- Permissions: the resolver, the groups and their management in crates/ppb-server/src/permissions
-- (manifest.rs, resolver.rs, groups.rs, repo.rs), over the tables `groups`, `group_members` and
-- `group_permissions` of migrations/0001_init.sql. Fresh ids are arguments; times are left out.
-- Statements are taken to succeed but where a constraint of the tables refuses them, and the
-- statements of a call to run without another call between them.
mod Manifest
mod Groups
mod Bootstrap
pub mod Resolution
pub mod Validity
mod Membership
mod Housing
mod Tests
pub use Manifest.{
  Risk, low, medium, high, critical, PermissionDef, permission_manifest, root_wildcard,
}
unfoldable pub use Manifest.{root_only_ids, non_root_only_ids}
use phira_plus_backend.Prelude.{
  ℕ, ◌+◌, String, Bool, true, false, not, ◌&&◌, ◌||◌, Option, none, some, List, [], ◌∷◌, ◌++◌, map,
  ◌==◌, nat_eq, string_eq, any, find, select, update_where, contains, codes, trim, is_empty,
  split_count, is_some, nat_beq, if◌then◌else◌,
}
use phira_plus_backend.ErrorCode.{validation_failed, resource_conflict}
use phira_plus_backend.ApiError.{
  ApiError, Result, ok, err, ◌>>=◌, ◌>>◌, api_error, validation, denied, not_found, internal,
}

-- `system_kind`, which the table restricts to one value.
pub data SystemKind : Type 0 where
  admin_scope : SystemKind

pub record Group : Type 0 where
  pub id : ℕ
  pub name : List ℕ
  pub description : String
  pub system_kind : Option SystemKind
  pub is_default : Bool
  pub protected : Bool

-- The three tables, a membership being (group_id, user_id) and a grant (group_id, permission), and
-- the ids of the table `users`, to which a membership refers.
pub record Db : Type 0 where
  pub groups : List Group
  pub members : List (ℕ × ℕ)
  pub grants : List (ℕ × String)
  pub users : List ℕ

abbrev pub text_eq : List ℕ → List ℕ → Bool
text_eq [] [] = true
text_eq [] (d ∷ t) = false
text_eq (c ∷ s) [] = false
text_eq (c ∷ s) (d ∷ t) = nat_beq c d && text_eq s t

abbrev pub has_id : ℕ → Group → Bool
has_id id g = g.id == id

abbrev pub has_name : List ℕ → Group → Bool
has_name name g = text_eq g.name name

abbrev pub is_admin_scope : Group → Bool
is_admin_scope g = is_some g.system_kind

-- `PermissionResolver::validate_group_permission`.
pub validate_group_permission : String → Result (Unit {0})
validate_group_permission permission =
    if permission == root_wildcard
    then err (api_error validation_failed "*:* 仅允许授予 Root，普通用户组禁止")
    else if not (split_count b':' (codes permission) == 2)
    then err (validation "permission must be <resource>:<action>")
    else ok tt

-- `PermissionResolver::permission_by_id`.
pub permission_by_id : String → Option PermissionDef
permission_by_id id = find (λ p. p.id == id) permission_manifest

-- One row of the join of a membership with its group and the group's grants.
abbrev pub Row : Type 0
Row = Option SystemKind × Option String

pub grant_rows : Group → List (ℕ × String) → List Row
grant_rows g [] = []
grant_rows g ((gid, p) ∷ grants) =
    let rest = grant_rows g grants in if gid == g.id then (g.system_kind, some p) ∷ rest else rest

-- `LEFT JOIN`: a group with no grant has one row.
pub or_null_row : Group → List Row → List Row
or_null_row g [] = (g.system_kind, none) ∷ []
or_null_row g (row ∷ rows) = row ∷ rows

pub group_rows : ℕ → List Group → List (ℕ × String) → List Row
unfolding grant_rows or_null_row
group_rows gid [] grants = []
group_rows gid (g ∷ groups) grants =
    let rest = group_rows gid groups grants in
    if g.id == gid then or_null_row g (grant_rows g grants) ++ rest else rest

pub member_rows : ℕ → List (ℕ × ℕ) → Db → List Row
unfolding group_rows
member_rows user_id [] db = []
member_rows user_id ((gid, uid) ∷ members) db =
    let rest = member_rows user_id members db in
    if uid == user_id then group_rows gid db.groups db.grants ++ rest else rest

-- The loop over the rows: the permissions that it inserts, and `admin_scope`.
pub collect : List Row → List String
collect [] = []
collect ((kind, none) ∷ rows) = collect rows
collect ((kind, some p) ∷ rows) =
    let rest = collect rows in if p == root_wildcard then rest else p ∷ rest

abbrev pub row_is_admin : Row → Bool
row_is_admin row = is_some row.0

-- `PermissionResolver::permissions_for_user`; the set is a list.
pub permissions_for_user : Db → ℕ → List String
unfolding member_rows collect
permissions_for_user db user_id =
    let rows = member_rows user_id db.members db in
    collect rows ++ (if any row_is_admin rows then non_root_only_ids else [])

pub data Principal : Type 0 where
  root : Principal
  user : ℕ → Principal

-- `permissions_for_principal`, with the database as an option.
unfoldable pub permissions_for_principal : Option Db → Principal → Result (List String)
unfolding permissions_for_user
permissions_for_principal db root = ok (root_wildcard ∷ [])
permissions_for_principal none (user id) = err internal
permissions_for_principal (some db) (user id) = ok (permissions_for_user db id)

unfoldable pub has_permission : Option Db → Principal → String → Result Bool
unfolding permissions_for_principal
has_permission db auth permission = do
  perms ← permissions_for_principal db auth
  ok (contains perms root_wildcard || contains perms permission)

unfoldable pub require : Option Db → Principal → String → Result (Unit {0})
unfolding has_permission
require db auth permission = do
  held ← has_permission db auth permission
  if held then ok tt else err denied

-- `UPDATE groups SET is_default = (…)`.
pub make_default : (Group → Bool) → List Group → List Group
make_default p [] = []
make_default p (g ∷ groups) = record g { is_default = p g } ∷ make_default p groups

-- `INSERT INTO groups … ON CONFLICT (name) DO NOTHING`, with whether it inserted the row.
pub insert_seed : Group → List Group → Bool × List Group
insert_seed row groups =
    if any (has_name row.name) groups then (false, groups) else (true, row ∷ groups)

-- The `UPDATE` that follows, for a row that was inserted, and clears the old default. Until it is
-- made, there may be two defaults.
pub clear_others : List ℕ → Bool → Bool × List Group → List Group
unfolding make_default
clear_others name is_default (true, groups) =
    if is_default then make_default (has_name name) groups else groups
clear_others name is_default (false, groups) = groups

pub ensure_group : ℕ → List ℕ → String → Option SystemKind → Bool → Bool → List Group → List Group
unfolding insert_seed clear_others
ensure_group fresh name description kind is_default protected groups =
    clear_others name is_default (insert_seed row groups)
  where
    row : Group
    row = record {
      id = fresh;
      name = name;
      description = description;
      system_kind = kind;
      is_default = is_default;
      protected = protected;
    }

abbrev pub members_name : List ℕ
members_name = codes "Members"

-- `bootstrap_groups`, with the four ids that it may need.
pub bootstrap_groups : ℕ → ℕ → ℕ → ℕ → List Group → List Group
unfolding ensure_group
bootstrap_groups a b c d groups = ensure_group d members_name "默认成员组" none true true (
    ensure_group c (codes "Developers") "开发者模板组" none false false (
      ensure_group b (codes "Moderators") "版主模板组" none false false (
        ensure_group a (codes "Administrators") "系统管理员（admin_scope）" (some admin_scope) false true
          groups)))

-- Four ids for the groups that a bootstrap may create.
pub record Fresh : Type 0 where
  pub administrators : ℕ
  pub moderators : ℕ
  pub developers : ℕ
  pub members : ℕ

pub bootstrap : Fresh → Db → Db
unfolding bootstrap_groups
bootstrap f db = record db {
  groups = bootstrap_groups f.administrators f.moderators f.developers f.members db.groups;
}

id_or_missing : Option Group → Result ℕ
id_or_missing none = err (not_found "group")
id_or_missing (some g) = ok g.id

-- `default_group_id`; the groups may be bootstrapped on the way.
pub default_group_id : Fresh → Db → Result ℕ × Db
unfolding bootstrap id_or_missing
default_group_id f db = elim (find (λ g. g.is_default) db.groups) [
  | some g ↦ (ok g.id, db)
  | none ↦ (id_or_missing (find (has_name members_name) (bootstrap f db).groups), bootstrap f db)
]

abbrev pub is_member : ℕ → ℕ → ℕ × ℕ → Bool
is_member gid uid m = m.0 == gid && m.1 == uid

abbrev pub of_user : ℕ → ℕ × ℕ → Bool
of_user uid m = m.1 == uid

-- `INSERT INTO group_members … ON CONFLICT DO NOTHING`, refused for a group or a user that is not
-- there.
pub insert_member : ℕ → ℕ → Db → Result (Unit {0}) × Db
insert_member gid uid db =
    if not (any (has_id gid) db.groups && contains db.users uid)
    then (err internal, db)
    else if any (is_member gid uid) db.members
    then (ok tt, db)
    else (ok tt, record db { members = (gid, uid) ∷ db.members })

pub insert_default : ℕ → Result ℕ × Db → Result (Unit {0}) × Db
unfolding insert_member
insert_default uid (ok gid, db) = insert_member gid uid db
insert_default uid (err e, db) = (err e, db)

-- `ensure_user_in_default_group` and `ensure_user_not_orphaned`: both add a user with no membership
-- to the default group.
pub ensure_user_not_orphaned : Fresh → ℕ → Db → Result (Unit {0}) × Db
unfolding default_group_id insert_default
ensure_user_not_orphaned f uid db =
    if any (of_user uid) db.members then (ok tt, db) else insert_default uid (default_group_id f db)

pub add_member : ℕ → ℕ → Db → Result (Unit {0}) × Db
unfolding insert_member
add_member gid uid db = insert_member gid uid db

pub without_member : ℕ → ℕ → Db → Db
without_member gid uid db = record db {
  members = select (λ m. not (is_member gid uid m)) db.members;
}

pub remove_member : Fresh → ℕ → ℕ → Db → Result (Unit {0}) × Db
unfolding ensure_user_not_orphaned without_member
remove_member f gid uid db = ensure_user_not_orphaned f uid (without_member gid uid db)

-- The loop that inserts the new members, ended by the first error.
pub insert_members : ℕ → List ℕ → Db → Result (Unit {0}) × Db
unfolding insert_member
insert_members gid [] db = (ok tt, db)
insert_members gid (uid ∷ uids) db = elim (insert_member gid uid db).0 [
  | err e ↦ (err e, (insert_member gid uid db).1)
  | ok done ↦ insert_members gid uids (insert_member gid uid db).1
]

-- The loop over the old members that are not in the new set.
pub rescue_members : Fresh → List ℕ → List (ℕ × ℕ) → Db → Result (Unit {0}) × Db
unfolding ensure_user_not_orphaned
rescue_members f kept [] db = (ok tt, db)
rescue_members f kept ((gid, uid) ∷ old) db = elim (contains kept uid) [
  | true ↦ rescue_members f kept old db
  | false ↦ elim (ensure_user_not_orphaned f uid db).0 [
    | err e ↦ (err e, (ensure_user_not_orphaned f uid db).1)
    | ok done ↦ rescue_members f kept old (ensure_user_not_orphaned f uid db).1
  ]
]

pub then_rescue : Fresh → List ℕ → List (ℕ × ℕ) → Result (Unit {0}) × Db → Result (Unit {0}) × Db
unfolding rescue_members
then_rescue f kept old (err e, db) = (err e, db)
then_rescue f kept old (ok done, db) = rescue_members f kept old db

pub replace_group_members : Fresh → ℕ → List ℕ → Db → Result (Unit {0}) × Db
unfolding insert_members then_rescue
replace_group_members f gid uids db =
    then_rescue f uids (select (λ m. m.0 == gid) db.members)
      (insert_members gid uids (record db { members = select (λ m. not (m.0 == gid)) db.members }))
