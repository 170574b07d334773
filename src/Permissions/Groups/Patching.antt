-- ===== src/Permissions/Groups/Patching.antt =====
-- What `patch_group` keeps: crates/ppb-server/src/permissions/repo.rs.
use phira_plus_backend.Prelude.{
  ℕ, ◌≡◌, refl, ◌∙◌, String, Bool, true, false, Option, none, some, List, nat_eq, find,
  find-update_where, trim, is_empty, Bool-cases, inl, inr,
}
use phira_plus_backend.ApiError.{Result-cases}
use phira_plus_backend.Permissions.{Db, Group, has_id, is_admin_scope}
use phira_plus_backend.Permissions.Groups.{
  get_group, set_name, name_taken, named, described, is_yes, patch_name, patch_description,
  patch_default, commit, patch_group,
}
use phira_plus_backend.Permissions.Validity.{IsSound, described-IsSound, update_where-HasDefault}
use phira_plus_backend.Permissions.Groups.Keeping.{
  IsKept, same, set_name-IsKept, get_group-found, make_default_id-IsKept,
}

-- The group of the id is there, and of the same kind as `g`.
record Finds (id : ℕ) (g : Group) (groups : List Group) : Type 0 where
  row : Group
  found : find (has_id id) groups ≡ some row
  kind : is_admin_scope row ≡ is_admin_scope g

then-IsKept : {a b c : List Group} → IsKept a b → IsKept b c → IsKept a c
then-IsKept p q = record { sound = q.sound; has_default = λ h. q.has_default (p.has_default h) }

set_name-Finds :
    (id : ℕ) (name : List ℕ) (g : Group) (db : Db)
    → Finds id g db.groups
    → Finds id g (set_name id name db).1.groups
unfolding set_name
set_name-Finds id name g db v = elim (Bool-cases (name_taken id name db.groups)) [
  | inl t ↦ rw (t, set_name) v
  | inr t ↦
      rw (t, set_name)
        (record {
          row = named name v.row;
          found = find-update_where (has_id id) (named name) db.groups v.row (λ x. refl) v.found;
          kind = v.kind;
        })
]

patch_name-keeps :
    (id : ℕ) (name : Option (List ℕ)) (g : Group) (db : Db)
    → Finds id g db.groups
    → IsSound db.groups
    → IsKept db.groups (patch_name id name db).1.groups
      × Finds id g (patch_name id name db).1.groups
unfolding patch_name
patch_name-keeps id none g db w v = (same v, w)
patch_name-keeps id (some name) g db w v = elim (Bool-cases (is_empty (trim name))) [
  | inl e ↦ rw e (same v, w)
  | inr e ↦ rw e (set_name-IsKept id (trim name) db v, set_name-Finds id (trim name) g db w)
]

patch_description-keeps :
    (id : ℕ) (d : Option String) (g : Group) (db : Db)
    → Finds id g db.groups
    → IsSound db.groups
    → IsKept db.groups (patch_description id d db).groups
      × Finds id g (patch_description id d db).groups
unfolding patch_description
patch_description-keeps id none g db w v = (same v, w)
patch_description-keeps id (some d) g db w v = (
  record {
    sound = described-IsSound id d db.groups v;
    has_default = update_where-HasDefault (has_id id) (described d) db.groups (λ x. refl);
  },
  record {
    row = described d w.row;
    found = find-update_where (has_id id) (described d) db.groups w.row (λ x. refl) w.found;
    kind = w.kind;
  },
)

-- The database after the last statement of the transaction, where it succeeds.
patch_default-keeps :
    (id : ℕ) (default : Bool) (g : Group) (before db : Db)
    → Finds id g db.groups
    → IsSound before.groups
    → IsSound db.groups
    → IsKept before.groups db.groups
    → IsKept before.groups (commit id before (patch_default id default g db)).1.groups
unfolding patch_default commit
patch_default-keeps id false g before db w b v k = k
patch_default-keeps id true g before db w b v k = elim (Bool-cases (is_admin_scope g)) [
  | inl a ↦ rw a (same b)
  | inr a ↦ rw a (then-IsKept k (make_default_id-IsKept id w.row db w.found (w.kind ∙ a) v))
]

pub patch_group-IsKept :
    (id : ℕ) (name : Option (List ℕ)) (d : Option String) (default : Option Bool) (db : Db)
    → IsSound db.groups
    → IsKept db.groups (patch_group id name d default db).1.groups
unfolding patch_group
patch_group-IsKept id name d default db v = elim (Result-cases (get_group id db)) [
  | inr (x, e) ↦ rw (e, patch_group) (same v)
  | inl (g, e) ↦
      let here : Finds id g db.groups = record {
        row = g;
        found = get_group-found id db g e;
        kind = refl;
      } in
      let (k, w) = patch_name-keeps id name g db here v in
      let (k', w') = patch_description-keeps id d g (patch_name id name db).1 w k.sound in
      elim (Result-cases (patch_name id name db).0) [
        | inr (x, n) ↦ rw (e, patch_group, n) (same v)
        | inl (done, n) ↦
            rw (e, patch_group, n)
              (patch_default-keeps id (is_yes default) g db
                (patch_description id d (patch_name id name db).1) w' v k'.sound (then-IsKept k k'))
      ]
]
