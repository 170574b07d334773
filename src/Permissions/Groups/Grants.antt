-- ===== src/Permissions/Groups/Grants.antt =====
-- The stored grants are of the manifest: crates/ppb-server/src/permissions/repo.rs and resolver.rs.
use Prim.Native.String.{◌++◌ as string_append}
use phira_plus_backend.Prelude.{
  ap, subst, codes, split_count, false, if◌then◌else◌, ℕ, ◌≡◌, refl, String, Bool, true, not, ◌&&◌,
  List, [], ◌∷◌, every, every-select, is_some, ◌==◌, string_eq, nat_eq, arith, inl, inr,
}
use phira_plus_backend.ApiError.{ApiError, ◌>>◌, Result, ok, err, Result-cases}
use phira_plus_backend.Permissions.{Db, permission_by_id, root_wildcard, validate_group_permission}
use phira_plus_backend.Permissions.Groups.{
  grantable, insert_grant, add_permission, remove_permission, all_grantable, insert_grants,
  is_grant, replace_group_permissions,
}

-- The permission is of the manifest, and not the wildcard.
abbrev pub is_known : String → Bool
is_known p = is_some (permission_by_id p) && not (p == root_wildcard)

abbrev pub IsGranted : Db → Type 0
IsGranted db = every (λ grant. is_known grant.1) db.grants ≡ true

is_ok : Result (Unit {0}) → Bool
is_ok (ok done) = true
is_ok (err e) = false

>>-known :
    (wildcard valid known : Bool) (e refusal malformed : ApiError)
    → is_ok (
        (if wildcard then err e else if not valid then err malformed else ok tt)
        >> (if known then ok tt else err refusal))
      ≡ true
    → (known && not wildcard) ≡ true
unfolding is_ok
>>-known true valid known e refusal malformed h = absurd (ground (arith, h))
>>-known false false known e refusal malformed h = absurd (ground (arith, h))
>>-known false true true e refusal malformed h = refl
>>-known false true false e refusal malformed h = absurd (ground (arith, h))

grantable-known :
    (refusal p : String) (done : Unit {0}) → grantable refusal p ≡ ok done → is_known p ≡ true
unfolding grantable validate_group_permission is_ok
grantable-known refusal p done h =
    >>-known (p == root_wildcard) (split_count b':' (codes p) == 2) (is_some (permission_by_id p)) _
      _ _ (ap is_ok h)

insert_grant-IsGranted :
    (gid : ℕ) (p : String) (db : Db)
    → is_known p ≡ true
    → IsGranted db
    → IsGranted (insert_grant gid p db).1
unfolding insert_grant
insert_grant-IsGranted gid p db k v = ground (arith, k, v)

pub add_permission-IsGranted :
    (gid : ℕ) (p : String) (db : Db) → IsGranted db → IsGranted (add_permission gid p db).1
unfolding add_permission
add_permission-IsGranted gid p db v = elim (Result-cases (grantable "unknown permission id" p)) [
  | inl (done, e) ↦
      rw (e, add_permission)
        (insert_grant-IsGranted gid p db (grantable-known "unknown permission id" p done e) v)
  | inr (x, e) ↦ rw (e, add_permission) v
]

pub remove_permission-IsGranted :
    (gid : ℕ) (p : String) (db : Db) → IsGranted db → IsGranted (remove_permission gid p db).1
unfolding remove_permission
remove_permission-IsGranted gid p db v = every-select _ (λ x. not (is_grant gid p x)) db.grants v

abbrev all_known : List String → Bool
all_known ps = every is_known ps

err-ok : {e : ApiError} {done : Unit {0}} → err e ≡ ok done → ⊥
unfolding is_ok
err-ok h = subst (λ r. elim (is_ok r) as (λ b. Type 0) [ true ↦ ⊥ | false ↦ Unit ]) h tt

all_grantable-known :
    (ps : List String) (done : Unit {0}) → all_grantable ps ≡ ok done → all_known ps ≡ true
unfolding all_grantable
all_grantable-known [] done h = refl
all_grantable-known (p ∷ ps) done h =
    let refusal = string_append "unknown permission id: " p in
    elim (Result-cases (grantable refusal p)) [
      | inl (one, e) ↦
          let k = grantable-known refusal p one e in
          rw k (all_grantable-known ps done (subst (λ r. (r >> all_grantable ps) ≡ ok done) e h))
      | inr (x, e) ↦ absurd (err-ok (subst (λ r. (r >> all_grantable ps) ≡ ok done) e h))
    ]

insert_grants-IsGranted :
    (gid : ℕ) (ps : List String) (db : Db)
    → all_known ps ≡ true
    → IsGranted db
    → IsGranted (insert_grants gid ps db).1
unfolding insert_grants
insert_grants-IsGranted gid [] db k v = v
insert_grants-IsGranted gid (p ∷ ps) db k v =
    let w = insert_grant-IsGranted gid p db (ground (arith, k)) v in
    elim (Result-cases (insert_grant gid p db).0) [
      | inl (done, e) ↦
          rw (e, insert_grants)
            (insert_grants-IsGranted gid ps (insert_grant gid p db).1 (ground (arith, k)) w)
      | inr (x, e) ↦ rw (e, insert_grants) w
    ]

-- Where every stored grant is a permission of the manifest other than the wildcard, replacing the
-- permissions of a group, with whatever result, leaves it so.
pub replace_group_permissions-IsGranted :
    (gid : ℕ) (ps : List String) (db : Db)
    → IsGranted db
    → IsGranted (replace_group_permissions gid ps db).1
unfolding replace_group_permissions
replace_group_permissions-IsGranted gid ps db v = elim (Result-cases (all_grantable ps)) [
  | inl (done, e) ↦
      rw (e, replace_group_permissions)
        (insert_grants-IsGranted gid ps _ (all_grantable-known ps done e)
          (every-select _ (λ p. not (p.0 == gid)) db.grants v))
  | inr (x, e) ↦ rw (e, replace_group_permissions) v
]
