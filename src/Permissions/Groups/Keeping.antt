-- ===== src/Permissions/Groups/Keeping.antt =====
-- What the operations on groups keep: crates/ppb-server/src/permissions/repo.rs.
use phira_plus_backend.Prelude.{
  ℕ, ◌≡◌, refl, String, Bool, true, false, not, ◌&&◌, Option, some, List, nat_eq, any, find, trim,
  is_empty, arith, Bool-cases, Option-cases, inl, inr, any-find, update_where-of_none, nat_beq_iff,
  count_where-found,
}
use phira_plus_backend.ApiError.{ok, Result-cases}
use phira_plus_backend.Permissions.{Db, Group, has_id, has_name, is_admin_scope}
use phira_plus_backend.Permissions.Groups.{
  get_group, make_default_id, new_group, with_group, is_yes, create_group, rename_group, set_name,
  name_taken, named, set_default_group, without_group, delete_group,
}
use phira_plus_backend.Permissions.Validity.{
  IsSound, HasDefault, make_default-IsSound, make_default-HasDefault, insert-IsSound, named-IsSound,
  update_where-HasDefault, select-IsSound, without-HasDefault,
}

-- Sound groups, and a default group if there was one before.
pub record IsKept (before after : List Group) : Type 0 where
  pub sound : IsSound after
  pub has_default : HasDefault before → HasDefault after

pub same : {groups : List Group} → IsSound groups → IsKept groups groups
same v = record { sound = v; has_default = λ h. h }

pub make_default_id-IsKept :
    (id : ℕ) (g : Group) (db : Db)
    → find (has_id id) db.groups ≡ some g
    → is_admin_scope g ≡ false
    → IsSound db.groups
    → IsKept db.groups (make_default_id id db).groups
unfolding make_default_id
make_default_id-IsKept id g db found a v = record {
  sound =
      make_default-IsSound (has_id id) db.groups (v.distinct id)
        (ground (
          arith,
          a,
          count_where-found (has_id id) is_admin_scope db.groups g found (v.distinct id),
        ))
        v;
  has_default = λ h.
      make_default-HasDefault (has_id id) db.groups
        (ground (arith, found, any-find (has_id id) db.groups));
}

pub create_group-IsKept :
    (fresh : ℕ) (name : List ℕ) (d : String) (is_default : Option Bool) (db : Db)
    → any (has_id fresh) db.groups ≡ false
    → IsSound db.groups
    → IsKept db.groups (create_group fresh name d is_default db).1.groups
unfolding create_group with_group
create_group-IsKept fresh name d is_default db new v = elim (Bool-cases (is_empty (trim name))) [
  | inl e ↦ rw (e, create_group) (same v)
  | inr e ↦ elim (Bool-cases (any (has_name (trim name)) db.groups)) [
    | inl t ↦ rw (e, t, create_group) (same v)
    | inr t ↦
        let g = new_group fresh (trim name) d in
        let w = insert-IsSound g db.groups new t refl v in
        let k =
          make_default_id-IsKept fresh g (with_group g db) (ground (arith, nat_beq_iff fresh fresh))
            refl w in
        elim (Bool-cases (is_yes is_default)) [
          | inl y ↦
              rw (e, t, y, create_group) (record { sound = k.sound; has_default = k.has_default })
          | inr y ↦ rw (e, t, y, create_group) (record { sound = w; has_default = λ h. h })
        ]
  ]
]

pub set_name-IsKept :
    (id : ℕ) (name : List ℕ) (db : Db)
    → IsSound db.groups
    → IsKept db.groups (set_name id name db).1.groups
unfolding set_name name_taken
set_name-IsKept id name db v = elim (Option-cases (find (has_id id) db.groups)) [
  | inl e ↦
      let absent : any (has_id id) db.groups ≡ false =
        ground (arith, e, any-find (has_id id) db.groups) in
      rw (absent, set_name)
        (rw (update_where-of_none (has_id id) (named name) db.groups absent) (same v))
  | inr (g, e) ↦
      let present : any (has_id id) db.groups ≡ true =
        ground (arith, e, any-find (has_id id) db.groups) in
      elim (Bool-cases (any (λ g. not (has_id id g) && has_name name g) db.groups)) [
        | inl t ↦ rw (present, t, set_name) (same v)
        | inr t ↦
            rw (present, t, set_name)
              (record {
                sound = named-IsSound id name db.groups g e t v;
                has_default =
                    update_where-HasDefault (has_id id) (named name) db.groups (λ g. refl);
              })
      ]
]

pub rename_group-IsKept :
    (id : ℕ) (name : List ℕ) (db : Db)
    → IsSound db.groups
    → IsKept db.groups (rename_group id name db).1.groups
unfolding rename_group
rename_group-IsKept id name db v = elim (Bool-cases (is_empty (trim name))) [
  | inl e ↦ rw e (same v)
  | inr e ↦ rw e (set_name-IsKept id (trim name) db v)
]

pub get_group-found :
    (id : ℕ) (db : Db) (g : Group) → get_group id db ≡ ok g → find (has_id id) db.groups ≡ some g
unfolding get_group
get_group-found id db g h = ground (arith, h)

pub set_default_group-IsKept :
    (id : ℕ) (db : Db) → IsSound db.groups → IsKept db.groups (set_default_group id db).1.groups
unfolding set_default_group
set_default_group-IsKept id db v = elim (Result-cases (get_group id db)) [
  | inr (x, e) ↦ rw (e, set_default_group) (same v)
  | inl (g, e) ↦ elim (Bool-cases (is_admin_scope g)) [
    | inl a ↦ rw (e, a, set_default_group) (same v)
    | inr a ↦
        rw (e, a, set_default_group)
          (make_default_id-IsKept id g db (get_group-found id db g e) a v)
  ]
]

pub delete_group-IsKept :
    (id : ℕ) (db : Db) → IsSound db.groups → IsKept db.groups (delete_group id db).1.groups
unfolding delete_group without_group
delete_group-IsKept id db v = elim (Result-cases (get_group id db)) [
  | inr (x, e) ↦ rw (e, delete_group) (same v)
  | inl (g, e) ↦ elim (Bool-cases g.protected) [
    | inl p ↦ rw (e, delete_group, p) (same v)
    | inr p ↦ elim (Bool-cases g.is_default) [
      | inl d ↦ rw (e, delete_group, p, d) (same v)
      | inr d ↦
          rw (e, delete_group, p, d)
            (record {
              sound = select-IsSound (λ g. not (has_id id g)) db.groups v;
              has_default =
                  without-HasDefault id db.groups g (get_group-found id db g e) d (v.distinct id);
            })
    ]
  ]
]
