-- ===== src/Permissions/Bootstrap.antt =====
-- What `bootstrap_groups` keeps and makes: crates/ppb-server/src/permissions/groups.rs.
use phira_plus_backend.Prelude.{
  ℕ, ◌≡◌, refl, String, Bool, true, false, Option, none, some, List, [], ◌∷◌, ◌==◌, nat_eq, any,
  any-find, Option-cases, find, arith, Bool-cases, inl, inr, count_where-of_none,
  count_where-and_left,
}
use phira_plus_backend.Permissions.{
  Group, SystemKind, Db, Fresh, has_id, has_name, is_admin_scope, make_default, ensure_group,
  insert_seed, clear_others, bootstrap_groups, bootstrap, default_group_id, admin_scope,
}
use phira_plus_backend.Permissions.Validity.{
  IsSound, HasDefault, make_default-IsSound, make_default-HasDefault, insert-IsSound, text_eq_refl,
}
use phira_plus_backend.ApiError.{ok}
use phira_plus_backend.Permissions.Groups.{new_group}

-- An ordinary seed group.
ensure-IsSound :
    (fresh : ℕ) (name : List ℕ) (d : String) (kind : Option SystemKind) (p : Bool)
    (groups : List Group)
    → any (has_id fresh) groups ≡ false
    → IsSound groups
    → IsSound (ensure_group fresh name d kind false p groups)
unfolding ensure_group insert_seed clear_others
ensure-IsSound fresh name d kind p groups i v = elim (Bool-cases (any (has_name name) groups)) [
  | inl e ↦ rw e v
  | inr e ↦ rw e (insert-IsSound _ groups i e refl v)
]

-- The seed group that is the default.
ensure_default-IsSound :
    (fresh : ℕ) (name : List ℕ) (d : String) (p : Bool) (groups : List Group)
    → any (has_id fresh) groups ≡ false
    → IsSound groups
    → IsSound (ensure_group fresh name d none true p groups)
unfolding ensure_group insert_seed clear_others
ensure_default-IsSound fresh name d p groups i v = elim (Bool-cases (any (has_name name) groups)) [
  | inl e ↦ rw e v
  | inr e ↦
      let plain = record (new_group fresh name d) { protected = p } in
      let w = insert-IsSound plain groups i e refl v in
      rw e (
        make_default-IsSound (has_name name) (plain ∷ groups) (w.names name)
          (ground (
            arith,
            count_where-and_left (has_name name) is_admin_scope groups,
            count_where-of_none (has_name name) groups e,
          ))
          w)
]

ensure-fresh :
    (k fresh : ℕ) (name : List ℕ) (d : String) (kind : Option SystemKind) (p : Bool)
    (groups : List Group)
    → (fresh == k) ≡ false
    → any (has_id k) groups ≡ false
    → any (has_id k) (ensure_group fresh name d kind false p groups) ≡ false
unfolding ensure_group insert_seed clear_others
ensure-fresh k fresh name d kind p groups n i = ground (arith, n, i)

ensure-HasDefault :
    (fresh : ℕ) (name : List ℕ) (d : String) (kind : Option SystemKind) (is_default p : Bool)
    (groups : List Group)
    → HasDefault groups
    → HasDefault (ensure_group fresh name d kind is_default p groups)
unfolding ensure_group insert_seed clear_others
ensure-HasDefault fresh name d kind is_default p groups h =
    ground (arith, h, text_eq_refl name, make_default-HasDefault (has_name name) groups)

-- Four distinct ids that no group has.
pub record IsFresh (f : Fresh) (groups : List Group) : Type 0 where
  pub new :
      (any (has_id f.administrators) groups ≡ false)
      × (any (has_id f.moderators) groups ≡ false)
      × (any (has_id f.developers) groups ≡ false)
      × (any (has_id f.members) groups ≡ false)
  pub administrators_differs :
      ((f.administrators == f.moderators) ≡ false)
      × ((f.administrators == f.developers) ≡ false)
      × ((f.administrators == f.members) ≡ false)
  pub moderators_differs :
      ((f.moderators == f.developers) ≡ false) × ((f.moderators == f.members) ≡ false)
  pub developers_differs : (f.developers == f.members) ≡ false

-- The groups after the first three seeds.
pub bootstrap-IsSound :
    (f : Fresh) (db : Db)
    → IsFresh f db.groups
    → IsSound db.groups
    → IsSound (bootstrap f db).groups
unfolding bootstrap bootstrap_groups
bootstrap-IsSound f db n v =
    let (na, nm, nd, nn) = n.new in
    let (am, ad, an) = n.administrators_differs in
    let (md, mn) = n.moderators_differs in
    let a = ensure-IsSound f.administrators _ _ (some admin_scope) true db.groups na v in
    let m =
      ensure-IsSound f.moderators _ _ none false _
        (ensure-fresh f.moderators f.administrators _ _ (some admin_scope) true db.groups am nm)
        a in
    let d =
      ensure-IsSound f.developers _ _ none false _
        (ensure-fresh f.developers f.moderators _ _ none false _ md
          (ensure-fresh f.developers f.administrators _ _ (some admin_scope) true db.groups ad nd))
        m in
    ensure_default-IsSound f.members _ _ true _
      (ensure-fresh f.members f.developers _ _ none false _ n.developers_differs (
        ensure-fresh f.members f.moderators _ _ none false _ mn
          (ensure-fresh f.members f.administrators _ _ (some admin_scope) true db.groups an nn)))
      d

pub bootstrap-HasDefault :
    (f : Fresh) (db : Db) → HasDefault db.groups → HasDefault (bootstrap f db).groups
unfolding bootstrap bootstrap_groups
bootstrap-HasDefault f db h = search ensure-HasDefault

abbrev pub empty : Db
empty = record { groups = []; members = []; grants = []; users = [] }

pub bootstrap-empty-HasDefault : (f : Fresh) → HasDefault (bootstrap f empty).groups
unfolding bootstrap bootstrap_groups ensure_group insert_seed clear_others make_default
bootstrap-empty-HasDefault f = refl

pub empty-IsSound : IsSound []
empty-IsSound = record {
  distinct = λ id. omega arith;
  names = λ n. omega arith;
  one_default = omega arith;
  ordinary = refl;
}

-- With a default, `default_group_id` answers it and changes nothing.
pub default_group_id-found :
    (f : Fresh) (db : Db)
    → HasDefault db.groups
    → (g : Group) × (find (λ g. g.is_default) db.groups ≡ some g)
      × (default_group_id f db ≡ (ok g.id, db))
unfolding default_group_id
default_group_id-found f db h = elim (Option-cases (find (λ g. g.is_default) db.groups)) [
  | inl e ↦ absurd (ground (arith, h, any-find (λ g. g.is_default) db.groups, e))
  | inr (g, e) ↦ (g, e, rw (e, default_group_id) refl)
]
