-- ===== src/Permissions/Groups.antt =====
-- The management of groups: crates/ppb-server/src/permissions/repo.rs.
mod Keeping
mod Patching
pub mod Reachable
pub mod Grants
pub mod Deletion
use Prim.Native.String.{◌++◌ as string_append}
use phira_plus_backend.Prelude.{
  ℕ, String, Bool, true, false, not, ◌&&◌, ◌||◌, Option, none, some, List, [], ◌∷◌, ◌==◌, nat_eq,
  string_eq, any, find, select, update_where, trim, is_empty, is_some, if◌then◌else◌,
}
use phira_plus_backend.ErrorCode.{resource_conflict}
use phira_plus_backend.ApiError.{
  ApiError, Result, ok, err, ◌>>◌, api_error, validation, not_found, internal,
}
use phira_plus_backend.Permissions.{
  Db, Group, has_id, has_name, is_admin_scope, make_default, validate_group_permission,
  permission_by_id, non_root_only_ids,
}

pub get_group : ℕ → Db → Result Group
get_group id db = elim (find (has_id id) db.groups) [
  | none ↦ err (not_found "group")
  | some g ↦ ok g
]

pub make_default_id : ℕ → Db → Db
unfolding make_default
make_default_id id db = record db { groups = make_default (has_id id) db.groups }

-- The row of `INSERT INTO groups (name, description)`.
abbrev pub new_group : ℕ → List ℕ → String → Group
new_group fresh name description = record {
  id = fresh;
  name = name;
  description = description;
  system_kind = none;
  is_default = false;
  protected = false;
}

pub with_group : Group → Db → Db
with_group g db = record db { groups = g ∷ db.groups }

abbrev pub is_yes : Option Bool → Bool
is_yes (some true) = true
is_yes _ = false

pub create_group : ℕ → List ℕ → String → Option Bool → Db → Result Group × Db
unfolding with_group make_default_id get_group
create_group fresh name description is_default db =
    if is_empty (trim name)
    then (err (validation "group name required"), db)
    else if any (has_name (trim name)) db.groups
    then (err (api_error resource_conflict "group name already exists"), db)
    else let g = new_group fresh (trim name) description in
      if is_yes is_default
      then (
        get_group fresh (make_default_id fresh (with_group g db)),
        make_default_id fresh (with_group g db),
      )
      else (ok g, with_group g db)

-- `UPDATE groups SET name = …` would break the uniqueness of the names.
pub name_taken : ℕ → List ℕ → List Group → Bool
name_taken id name groups =
    any (has_id id) groups && any (λ g. not (has_id id g) && has_name name g) groups

abbrev pub named : List ℕ → Group → Group
named name g = record g { name = name }

-- `UPDATE groups SET name = … WHERE id = …`.
pub set_name : ℕ → List ℕ → Db → Result (Unit {0}) × Db
unfolding name_taken
set_name id name db =
    if name_taken id name db.groups
    then (err internal, db)
    else (ok tt, record db { groups = update_where (has_id id) (named name) db.groups })

pub rename_group : ℕ → List ℕ → Db → Result (Unit {0}) × Db
unfolding set_name
rename_group id new_name db =
    if is_empty (trim new_name)
    then (err (validation "group name required"), db)
    else set_name id (trim new_name) db

-- `validate_group_permission` and the test of the manifest, with the text of the refusal.
pub grantable : String → String → Result (Unit {0})
unfolding validate_group_permission permission_by_id
grantable refusal permission =
    validate_group_permission permission
    >> (if is_some (permission_by_id permission) then ok tt else err (validation refusal))

abbrev pub is_grant : ℕ → String → ℕ × String → Bool
is_grant gid permission grant = grant.0 == gid && grant.1 == permission

-- `INSERT INTO group_permissions … ON CONFLICT DO NOTHING`.
pub insert_grant : ℕ → String → Db → Result (Unit {0}) × Db
insert_grant gid permission db =
    if not (any (has_id gid) db.groups)
    then (err internal, db)
    else if any (is_grant gid permission) db.grants
    then (ok tt, db)
    else (ok tt, record db { grants = (gid, permission) ∷ db.grants })

pub add_permission : ℕ → String → Db → Result (Unit {0}) × Db
unfolding grantable insert_grant
add_permission gid permission db = elim (grantable "unknown permission id" permission) [
  | err e ↦ (err e, db)
  | ok done ↦ insert_grant gid permission db
]

pub remove_permission : ℕ → String → Db → Result (Unit {0}) × Db
remove_permission gid permission db =
    (ok tt, record db { grants = select (λ p. not (is_grant gid permission p)) db.grants })

pub all_grantable : List String → Result (Unit {0})
unfolding grantable
all_grantable [] = ok tt
all_grantable (p ∷ ps) = grantable (string_append "unknown permission id: " p) p >> all_grantable ps

pub insert_grants : ℕ → List String → Db → Result (Unit {0}) × Db
unfolding insert_grant
insert_grants gid [] db = (ok tt, db)
insert_grants gid (p ∷ ps) db = elim (insert_grant gid p db).0 [
  | err e ↦ (err e, (insert_grant gid p db).1)
  | ok done ↦ insert_grants gid ps (insert_grant gid p db).1
]

pub replace_group_permissions : ℕ → List String → Db → Result (Unit {0}) × Db
unfolding all_grantable insert_grants
replace_group_permissions gid permissions db = elim (all_grantable permissions) [
  | err e ↦ (err e, db)
  | ok done ↦
      insert_grants gid permissions
        (record db { grants = select (λ p. not (p.0 == gid)) db.grants })
]

abbrev pub no_admin_default : ApiError
no_admin_default = validation "admin_scope group cannot be the default group"

pub set_default_group : ℕ → Db → Result (Unit {0}) × Db
unfolding get_group make_default_id
set_default_group id db = elim (get_group id db) [
  | err e ↦ (err e, db)
  | ok g ↦ if is_admin_scope g then (err no_admin_default, db) else (ok tt, make_default_id id db)
]

-- The three statements of the transaction of `patch_group`.
pub patch_name : ℕ → Option (List ℕ) → Db → Result (Unit {0}) × Db
unfolding set_name
patch_name id none db = (ok tt, db)
patch_name id (some name) db =
    if is_empty (trim name) then (ok tt, db) else set_name id (trim name) db

abbrev pub described : String → Group → Group
described description g = record g { description = description }

pub patch_description : ℕ → Option String → Db → Db
patch_description id none db = db
patch_description id (some d) db = record db {
  groups = update_where (has_id id) (described d) db.groups;
}

pub patch_default : ℕ → Bool → Group → Db → Result (Unit {0}) × Db
unfolding make_default_id
patch_default id false g db = (ok tt, db)
patch_default id true g db =
    if is_admin_scope g then (err no_admin_default, db) else (ok tt, make_default_id id db)

-- What a transaction leaves: on an error, the database before it.
pub commit : ℕ → Db → Result (Unit {0}) × Db → Result Group × Db
unfolding get_group
commit id before (err e, after) = (err e, before)
commit id before (ok done, after) = (get_group id after, after)

pub patch_group : ℕ → Option (List ℕ) → Option String → Option Bool → Db → Result Group × Db
unfolding get_group patch_name patch_description patch_default commit
patch_group id name description is_default db = elim (get_group id db) [
  | err e ↦ (err e, db)
  | ok g ↦ elim (patch_name id name db).0 [
    | err e ↦ (err e, db)
    | ok done ↦ commit id db (
        patch_default id (is_yes is_default) g
          (patch_description id description (patch_name id name db).1))
  ]
]

pub grants_of : ℕ → List (ℕ × String) → List String
grants_of gid [] = []
grants_of gid ((g, p) ∷ grants) =
    let rest = grants_of gid grants in if g == gid then p ∷ rest else rest

-- The order of the result is left out.
pub effective_group_permissions : ℕ → Db → Result (List String)
unfolding get_group grants_of
effective_group_permissions id db = elim (get_group id db) [
  | err e ↦ err e
  | ok g ↦ if is_admin_scope g then ok non_root_only_ids else ok (grants_of id db.grants)
]

-- `DELETE FROM groups`, which deletes the group's memberships and grants too.
pub without_group : ℕ → Db → Db
without_group id db = record db {
  groups = select (λ g. not (has_id id g)) db.groups;
  members = select (λ m. not (m.0 == id)) db.members;
  grants = select (λ p. not (p.0 == id)) db.grants;
}

-- The refusal of a protected group leaves out its name.
pub delete_group : ℕ → Db → Result (Unit {0}) × Db
unfolding get_group without_group
delete_group id db = elim (get_group id db) [
  | err e ↦ (err e, db)
  | ok g ↦
      if g.protected
      then (err (api_error resource_conflict "protected group cannot be deleted"), db)
      else if g.is_default
      then (
        err (
            api_error resource_conflict
              "current default group cannot be deleted; switch default first"),
        db,
      )
      else (ok tt, without_group id db)
]
