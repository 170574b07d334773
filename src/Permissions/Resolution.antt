-- ===== src/Permissions/Resolution.antt =====
-- What the resolver answers: crates/ppb-server/src/permissions/resolver.rs.
use phira_plus_backend.Prelude.{
  ℕ, ◌≡◌, ◌∙◌, refl, ap, subst, String, Bool, true, false, not, ◌&&◌, ◌||◌, Option, none, some,
  List, [], ◌∷◌, ◌++◌, ◌==◌, nat_eq, string_eq, eq_iff, any, every, any-append, contains, arith,
  Bool-cases, inl, inr, if◌then◌else◌,
}
use phira_plus_backend.ApiError.{ok, err, denied}
use phira_plus_backend.Permissions.{
  Db, Group, Row, row_is_admin, has_id, is_admin_scope, of_user, grant_rows, or_null_row,
  group_rows, member_rows, collect, permissions_for_user, permissions_for_principal, root, user,
  has_permission, require, insert_member, root_wildcard, root_only_ids, non_root_only_ids,
}

-- Some group of the user stores the permission.
pub granted_through : Db → ℕ → String → Bool
granted_through db uid p =
    any
      (λ m.
        of_user uid m
        && any (λ g. has_id m.0 g && any (λ grant. grant.0 == g.id && grant.1 == p) db.grants)
            db.groups)
      db.members

-- Some group of the user is an `admin_scope` one.
pub in_admin_scope : Db → ℕ → Bool
in_admin_scope db uid =
    any (λ m. of_user uid m && any (λ g. has_id m.0 g && is_admin_scope g) db.groups) db.members

abbrev row_has : String → Row → Bool
row_has p (kind, none) = false
row_has p (kind, some q) = q == p

contains-append :
    (xs ys : List String) (p : String) → contains (xs ++ ys) p ≡ (contains xs p || contains ys p)
contains-append [] ys p = refl
contains-append (x ∷ xs) ys p = ground (arith, contains-append xs ys p)

contains-guard :
    (b : Bool) (xs : List String) (p : String)
    → contains (if b then xs else []) p ≡ (b && contains xs p)
contains-guard true xs p = refl
contains-guard false xs p = refl

-- The wildcard is skipped, every other permission of a row is taken.
contains-collect :
    (rows : List Row) (p : String)
    → contains (collect rows) p ≡ (not (p == root_wildcard) && any (row_has p) rows)
unfolding collect
contains-collect [] p = ground arith
contains-collect ((kind, none) ∷ rows) p = contains-collect rows p
contains-collect ((kind, some q) ∷ rows) p =
    ground
      (arith, contains-collect rows p, eq_iff q p, eq_iff q root_wildcard, eq_iff p root_wildcard)

any-grant_rows :
    (p : String) (g : Group) (grants : List (ℕ × String))
    → any (row_has p) (grant_rows g grants) ≡ any (λ grant. grant.0 == g.id && grant.1 == p) grants
unfolding grant_rows
any-grant_rows p g [] = refl
any-grant_rows p g ((gid, q) ∷ grants) = ground (arith, any-grant_rows p g grants)

any-or_null_row :
    (p : String) (g : Group) (rows : List Row)
    → any (row_has p) (or_null_row g rows) ≡ any (row_has p) rows
unfolding or_null_row
any-or_null_row p g [] = refl
any-or_null_row p g (r ∷ rows) = refl

any-group_rows :
    (p : String) (gid : ℕ) (groups : List Group) (grants : List (ℕ × String))
    → any (row_has p) (group_rows gid groups grants)
      ≡ any (λ g. has_id gid g && any (λ grant. grant.0 == g.id && grant.1 == p) grants) groups
unfolding group_rows
any-group_rows p gid [] grants = refl
any-group_rows p gid (g ∷ groups) grants = ground (
  arith,
  any-group_rows p gid groups grants,
  any-append (row_has p) (or_null_row g (grant_rows g grants)) (group_rows gid groups grants),
  any-or_null_row p g (grant_rows g grants),
  any-grant_rows p g grants,
)

any-member_rows :
    (p : String) (uid : ℕ) (members : List (ℕ × ℕ)) (db : Db)
    → any (row_has p) (member_rows uid members db)
      ≡ any
          (λ m.
            of_user uid m
            && any
                (λ g. has_id m.0 g && any (λ grant. grant.0 == g.id && grant.1 == p) db.grants)
                db.groups)
          members
unfolding member_rows
any-member_rows p uid [] db = refl
any-member_rows p uid ((gid, v) ∷ members) db = ground (
  arith,
  any-member_rows p uid members db,
  any-append (row_has p) (group_rows gid db.groups db.grants) (member_rows uid members db),
  any-group_rows p gid db.groups db.grants,
)

no_admin-grant_rows :
    (g : Group) (grants : List (ℕ × String))
    → is_admin_scope g ≡ false
    → any row_is_admin (grant_rows g grants) ≡ false
unfolding grant_rows
no_admin-grant_rows g [] h = refl
no_admin-grant_rows g ((gid, q) ∷ grants) h = ground (arith, h, no_admin-grant_rows g grants)

every-grant_rows :
    (g : Group) (grants : List (ℕ × String))
    → is_admin_scope g ≡ true
    → every row_is_admin (grant_rows g grants) ≡ true
unfolding grant_rows
every-grant_rows g [] h = refl
every-grant_rows g ((gid, q) ∷ grants) h = ground (arith, h, every-grant_rows g grants)

any-or_null_row-kind :
    (g : Group) (rows : List Row)
    → (is_admin_scope g ≡ false → any row_is_admin rows ≡ false)
    → (is_admin_scope g ≡ true → every row_is_admin rows ≡ true)
    → any row_is_admin (or_null_row g rows) ≡ is_admin_scope g
unfolding or_null_row
any-or_null_row-kind g [] none_is all = ground arith
any-or_null_row-kind g (r ∷ rows) none_is all = elim (Bool-cases (is_admin_scope g)) [
  | inl e ↦ ground (arith, e, all e)
  | inr e ↦ ground (arith, e, none_is e)
]

any-group_rows-kind :
    (gid : ℕ) (groups : List Group) (grants : List (ℕ × String))
    → any row_is_admin (group_rows gid groups grants)
      ≡ any (λ g. has_id gid g && is_admin_scope g) groups
unfolding group_rows
any-group_rows-kind gid [] grants = refl
any-group_rows-kind gid (g ∷ groups) grants = ground (
  arith,
  any-group_rows-kind gid groups grants,
  any-append row_is_admin (or_null_row g (grant_rows g grants)) (group_rows gid groups grants),
  any-or_null_row-kind g (grant_rows g grants) (no_admin-grant_rows g grants)
      (every-grant_rows g grants),
)

any-member_rows-kind :
    (uid : ℕ) (members : List (ℕ × ℕ)) (db : Db)
    → any row_is_admin (member_rows uid members db)
      ≡ any (λ m. of_user uid m && any (λ g. has_id m.0 g && is_admin_scope g) db.groups) members
unfolding member_rows
any-member_rows-kind uid [] db = refl
any-member_rows-kind uid ((gid, v) ∷ members) db = ground (
  arith,
  any-member_rows-kind uid members db,
  any-append row_is_admin (group_rows gid db.groups db.grants) (member_rows uid members db),
  any-group_rows-kind gid db.groups db.grants,
)

-- A user holds a permission exactly if it is not the wildcard and one of the user's groups stores
-- it, or if it is not `root_only` and one of them is an `admin_scope` group.
pub permissions_for_user-holds :
    (db : Db) (uid : ℕ) (p : String)
    → contains (permissions_for_user db uid) p ≡ (
        (not (p == root_wildcard) && granted_through db uid p)
        || (in_admin_scope db uid && contains non_root_only_ids p))
unfolding permissions_for_user granted_through in_admin_scope
permissions_for_user-holds db uid p =
    let rows = member_rows uid db.members db in
    contains-append (collect rows) (if any row_is_admin rows then non_root_only_ids else []) p
    ∙ ap (λ b. b || contains (if any row_is_admin rows then non_root_only_ids else []) p)
        (contains-collect rows p
          ∙ ap (λ b. not (p == root_wildcard) && b) (any-member_rows p uid db.members db))
    ∙ ap (λ b. (not (p == root_wildcard) && granted_through db uid p) || b)
        (contains-guard (any row_is_admin rows) non_root_only_ids p
          ∙ ap (λ b. b && contains non_root_only_ids p) (any-member_rows-kind uid db.members db))

wildcard_excluded : contains non_root_only_ids root_wildcard ≡ false
unfolding non_root_only_ids
wildcard_excluded = refl

-- No user holds the wildcard, whatever the tables store.
pub user_never_wildcard :
    (db : Db) (uid : ℕ) → contains (permissions_for_user db uid) root_wildcard ≡ false
user_never_wildcard db uid =
    permissions_for_user-holds db uid root_wildcard
    ∙ ground (arith, wildcard_excluded, eq_iff root_wildcard root_wildcard)

-- Root passes every check, with or without a database; without one, a user's check is an error.
pub root_passes : (db : Option Db) (p : String) → require db root p ≡ ok tt
unfolding require has_permission permissions_for_principal
root_passes db p = refl

-- A user passes the check of a permission exactly if the user holds it; the wildcard opens nothing
-- for a user.
pub require-decides :
    (db : Db) (uid : ℕ) (p : String)
    → require (some db) (user uid) p
      ≡ (if contains (permissions_for_user db uid) p then ok tt else err denied)
unfolding require has_permission permissions_for_principal
require-decides db uid p = ground (arith, user_never_wildcard db uid)

disjoint : every (λ p. not (contains non_root_only_ids p)) root_only_ids ≡ true
unfolding root_only_ids non_root_only_ids
disjoint = refl

every-contains :
    (q : String → Bool) (ps : List String) (p : String)
    → every q ps ≡ true
    → contains ps p ≡ true
    → q p ≡ true
every-contains q [] p h c = absurd (ground (arith, c))
every-contains q (x ∷ ps) p h c = elim (Bool-cases (x == p)) [
  | inl e ↦ subst (λ y. q y ≡ true) ((eq_iff x p).0 e) (ground (arith, h))
  | inr e ↦ every-contains q ps p (ground (arith, h)) (ground (arith, c, e))
]

-- A `root_only` permission reaches a user only where a group of the user stores it: `admin_scope`
-- does not give it.
pub root_only-explicit :
    (db : Db) (uid : ℕ) (p : String)
    → contains root_only_ids p ≡ true
    → contains (permissions_for_user db uid) p
      ≡ (not (p == root_wildcard) && granted_through db uid p)
root_only-explicit db uid p c =
    permissions_for_user-holds db uid p
    ∙ ground
        (arith, every-contains (λ p. not (contains non_root_only_ids p)) root_only_ids p disjoint c)

-- A new membership in a group that is not an `admin_scope` one makes nobody an administrator.
pub insert_member-in_admin_scope :
    (gid uid v : ℕ) (db : Db)
    → any (λ g. has_id gid g && is_admin_scope g) db.groups ≡ false
    → in_admin_scope (insert_member gid uid db).1 v ≡ in_admin_scope db v
unfolding insert_member in_admin_scope
insert_member-in_admin_scope gid uid v db h = ground (arith, h)
