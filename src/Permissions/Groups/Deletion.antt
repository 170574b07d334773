-- ===== src/Permissions/Groups/Deletion.antt =====
-- What the deletion of a group leaves of its members: crates/ppb-server/src/permissions/repo.rs, with
-- the cascades of migrations/0001_init.sql.
use phira_plus_backend.Prelude.{
  ℕ, ◌≡◌, Bool, true, false, not, ◌||◌, some, List, [], ◌∷◌, ◌==◌, nat_eq, any, every, select, find,
  arith, refl,
}
use phira_plus_backend.ApiError.{ok}
use phira_plus_backend.Permissions.{Db, Group, has_id, of_user}
use phira_plus_backend.Permissions.Groups.{get_group, without_group, delete_group}

-- The user has no membership but of the group.
abbrev pub only_member_of : ℕ → ℕ → List (ℕ × ℕ) → Bool
only_member_of gid uid members = every (λ m. not (of_user uid m) || m.0 == gid) members

without-member :
    (gid uid : ℕ) (members : List (ℕ × ℕ))
    → only_member_of gid uid members ≡ true
    → any (of_user uid) (select (λ m. not (m.0 == gid)) members) ≡ false
without-member gid uid [] h = refl
without-member gid uid (m ∷ members) h = ground (arith, h, without-member gid uid members)

-- A group that is neither protected nor the default is deleted, and a user who was in no other group
-- is then in none.
pub delete_group-orphans :
    (gid uid : ℕ) (db : Db) (g : Group)
    → find (has_id gid) db.groups ≡ some g
    → g.protected ≡ false
    → g.is_default ≡ false
    → only_member_of gid uid db.members ≡ true
    → ((delete_group gid db).0 ≡ ok tt)
      × (any (of_user uid) (delete_group gid db).1.members ≡ false)
unfolding delete_group without_group get_group
delete_group-orphans gid uid db g found p d h =
    rw (delete_group, found, p, d) (refl, without-member gid uid db.members h)
