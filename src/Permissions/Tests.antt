-- ===== src/Permissions/Tests.antt =====
-- Runs of the resolver and of the group operations on small tables.
use phira_plus_backend.Prelude.{
  ◌≡◌, refl, true, false, not, ◌&&◌, ◌||◌, none, some, [], ◌∷◌, ◌==◌, nat_eq, string_eq, any,
  contains, codes,
}
use phira_plus_backend.ApiError.{ok}
use phira_plus_backend.Permissions.{
  Db, Group, Fresh, admin_scope, has_id, of_user, permissions_for_user, require, root, user,
  root_wildcard, root_only_ids, ensure_user_not_orphaned, bootstrap, remove_member,
  replace_group_members,
}
use phira_plus_backend.Permissions.Validity.{IsSound, HasDefault}
use phira_plus_backend.Permissions.Bootstrap.{IsFresh, empty}
use phira_plus_backend.Permissions.Housing.{replace_group_members_houses}
use phira_plus_backend.Permissions.Resolution.{
  permissions_for_user-holds, granted_through, in_admin_scope,
}
use phira_plus_backend.Permissions.Groups.Reachable.{
  Reach, first_start, registered, next, ensured, Reach-IsSound,
}
use phira_plus_backend.Permissions.Groups.Grants.{IsGranted}
use phira_plus_backend.Permissions

abbrev members_group : Group
members_group = record {
  id = 4;
  name = codes "Members";
  description = "";
  system_kind = none;
  is_default = true;
  protected = true;
}

abbrev admins : Group
admins = record members_group {
  id = 1;
  name = codes "Administrators";
  system_kind = some admin_scope;
  is_default = false;
}

abbrev helpers : Group
helpers = record members_group {
  id = 5;
  name = codes "Helpers";
  is_default = false;
  protected = false;
}

-- User 100 is an administrator and user 101 a helper, who may kick.
abbrev tables : Db
tables = record {
  groups = admins ∷ members_group ∷ helpers ∷ [];
  members = (1, 100) ∷ (5, 101) ∷ [];
  grants = (5, "room:kick") ∷ (5, "coupon:manage") ∷ [];
  users = 100 ∷ 101 ∷ [];
}

abbrev ids : Fresh
ids = record { administrators = 11; moderators = 12; developers = 13; members = 14 }

helper_kicks : require (some tables) (user 101) "room:kick" ≡ ok tt
unfolding require Permissions.has_permission Permissions.permissions_for_principal
    permissions_for_user Permissions.member_rows Permissions.collect Permissions.group_rows
    Permissions.grant_rows Permissions.or_null_row Permissions.non_root_only_ids
helper_kicks = refl

permissions_for_user-holds_example : contains (permissions_for_user tables 101) "room:kick" ≡ (
    (not ("room:kick" == root_wildcard) && granted_through tables 101 "room:kick")
    || (in_admin_scope tables 101 && contains Permissions.non_root_only_ids "room:kick"))
permissions_for_user-holds_example = permissions_for_user-holds tables 101 "room:kick"

coupon_root_only : contains root_only_ids "coupon:manage" ≡ true
unfolding root_only_ids
coupon_root_only = refl

replace_group_members_houses_example :
    ((replace_group_members ids 5 (100 ∷ []) tables).0 ≡ ok tt)
    × (any (of_user 101) (replace_group_members ids 5 (100 ∷ []) tables).1.members ≡ true)
replace_group_members_houses_example =
    (replace_group_members_houses ids 5 (100 ∷ []) 101 tables refl refl refl).0 refl refl

-- An id of no user: user 101 is left without a group.
orphaned : any (of_user 101) (replace_group_members ids 5 (100 ∷ 999 ∷ []) tables).1.members ≡ false
unfolding replace_group_members Permissions.insert_members Permissions.insert_member
    Permissions.then_rescue
orphaned = refl

tables-IsGranted : IsGranted tables
unfolding Permissions.permission_by_id
tables-IsGranted = refl

ids-IsFresh : IsFresh ids []
ids-IsFresh = record {
  new = (refl, refl, refl, refl);
  administrators_differs = (refl, refl, refl);
  moderators_differs = (refl, refl);
  developers_differs = refl;
}

-- The first start, then the first login.
abbrev started : Db
started = bootstrap ids empty

abbrev first_login : Db
first_login = (ensure_user_not_orphaned ids 100 (record started { users = 100 ∷ started.users })).1

first_login_reached : Reach first_login
first_login_reached = next (next (first_start ids ids-IsFresh) (registered 100)) (ensured ids 100)

Reach-IsSound_example : IsSound first_login.groups × HasDefault first_login.groups
Reach-IsSound_example = Reach-IsSound first_login_reached
