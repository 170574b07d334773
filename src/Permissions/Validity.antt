-- ===== src/Permissions/Validity.antt =====
-- The well-formedness of the table `groups`, and what each of its updates keeps:
-- crates/ppb-server/src/permissions/repo.rs and groups.rs.
use phira_plus_backend.Prelude.{
  ℕ, ◌≤◌, ◌≡◌, refl, ap, subst, String, Bool, true, false, not, ◌&&◌, Option, none, some, List, [],
  ◌∷◌, nat_eq, nat_beq_iff, any, find, select, update_where, count_where, count_where-of_none,
  count_where-le, count_where-update_where, count_where-found, count_where-update_same,
  count_where-select-le, arith, Bool-cases, inl, inr,
}
use phira_plus_backend.Permissions.{Group, has_id, has_name, is_admin_scope, make_default, text_eq}
use phira_plus_backend.Permissions.Groups.{named, described}

abbrev pub is_admin_default : Group → Bool
is_admin_default g = g.is_default && is_admin_scope g

-- Ids and names are unique, and one group at most is the default, which is not an `admin_scope` one.
pub record IsSound (groups : List Group) : Type 0 where
  pub distinct : (id : ℕ) → count_where (has_id id) groups ≤ 1
  pub names : (name : List ℕ) → count_where (has_name name) groups ≤ 1
  pub one_default : count_where (λ g. g.is_default) groups ≤ 1
  pub ordinary : count_where is_admin_default groups ≡ 0

-- Some group is the default.
abbrev pub HasDefault : List Group → Type 0
HasDefault groups = any (λ g. g.is_default) groups ≡ true

pub text_eq-same : (s t : List ℕ) → text_eq s t ≡ true → s ≡ t
text_eq-same [] [] h = refl
text_eq-same [] (d ∷ t) h = cc
text_eq-same (c ∷ s) [] h = cc
text_eq-same (c ∷ s) (d ∷ t) h = ground (arith, nat_beq_iff c d, text_eq-same s t)

pub text_eq_refl : (s : List ℕ) → text_eq s s ≡ true
text_eq_refl [] = refl
text_eq_refl (c ∷ s) = ground (arith, nat_beq_iff c c, text_eq_refl s)

-- Counting after `UPDATE groups SET is_default`.
pub count_where-make_default :
    (q p : Group → Bool) (groups : List Group)
    → count_where q (make_default p groups)
      ≡ count_where (λ g. q (record g { is_default = p g })) groups
unfolding make_default
count_where-make_default q p [] = refl
count_where-make_default q p (g ∷ groups) = ground (arith, count_where-make_default q p groups)

pub make_default-IsSound :
    (p : Group → Bool) (groups : List Group)
    → count_where p groups ≤ 1
    → count_where (λ g. p g && is_admin_scope g) groups ≡ 0
    → IsSound groups
    → IsSound (make_default p groups)
make_default-IsSound p groups c a v = record {
  distinct = λ id. omega (arith, v.distinct id, count_where-make_default (has_id id) p groups);
  names = λ n. omega (arith, v.names n, count_where-make_default (has_name n) p groups);
  one_default = omega (arith, c, count_where-make_default (λ g. g.is_default) p groups);
  ordinary = omega (arith, a, count_where-make_default is_admin_default p groups);
}

pub make_default-HasDefault :
    (p : Group → Bool) (groups : List Group)
    → any p groups ≡ true
    → HasDefault (make_default p groups)
unfolding make_default
make_default-HasDefault p [] h = cc
make_default-HasDefault p (g ∷ groups) h = ground (arith, make_default-HasDefault p groups)

-- A row that is not the default, with a new id and a new name.
pub insert-IsSound :
    (g : Group) (groups : List Group)
    → any (has_id g.id) groups ≡ false
    → any (has_name g.name) groups ≡ false
    → g.is_default ≡ false
    → IsSound groups
    → IsSound (g ∷ groups)
insert-IsSound g groups i n d v = record {
  distinct = λ id.
      ground
        (arith, v.distinct id, nat_beq_iff g.id id, count_where-of_none (has_id g.id) groups i);
  names = λ m.
      ground
        (arith, v.names m, text_eq-same g.name m, count_where-of_none (has_name g.name) groups n);
  one_default = ground (arith, v.one_default, d);
  ordinary = ground (arith, v.ordinary, d);
}

-- The same rows but for columns that the invariant does not read.
pub described-IsSound :
    (id : ℕ) (d : String) (groups : List Group)
    → IsSound groups
    → IsSound (update_where (has_id id) (described d) groups)
described-IsSound id d groups v = record {
  distinct = λ k. omega (
    arith,
    v.distinct k,
    count_where-update_same (has_id k) (has_id id) (described d) groups (λ g. refl),
  );
  names = λ n. omega (
    arith,
    v.names n,
    count_where-update_same (has_name n) (has_id id) (described d) groups (λ g. refl),
  );
  one_default = omega (
    arith,
    v.one_default,
    count_where-update_same (λ g. g.is_default) (has_id id) (described d) groups (λ g. refl),
  );
  ordinary = omega (
    arith,
    v.ordinary,
    count_where-update_same is_admin_default (has_id id) (described d) groups (λ g. refl),
  );
}

named_unique :
    (id : ℕ) (name m : List ℕ) (groups : List Group) (g : Group)
    → find (has_id id) groups ≡ some g
    → any (λ g. not (has_id id g) && has_name name g) groups ≡ false
    → IsSound groups
    → count_where (has_name m) (update_where (has_id id) (named name) groups) ≤ 1
named_unique id name m groups g found free v = elim (Bool-cases (text_eq name m)) [
  | inl h ↦
      let none_else =
        count_where-of_none (λ g. not (has_id id g) && has_name m g) groups
          (subst (λ s. any (λ g. not (has_id id g) && has_name s g) groups ≡ false)
            (text_eq-same name m h) free) in
      ground (
        arith,
        none_else,
        count_where-update_where (has_name m) (has_id id) (named name) groups,
        count_where-found (has_id id) (λ g. has_name m (named name g)) groups g found
            (v.distinct id),
      )
  | inr h ↦ ground (
    arith,
    h,
    v.names m,
    count_where-le (λ g. not (has_id id g)) (has_name m) groups,
    count_where-update_where (has_name m) (has_id id) (named name) groups,
    count_where-found (has_id id) (λ g. has_name m (named name g)) groups g found (v.distinct id),
  )
]

pub named-IsSound :
    (id : ℕ) (name : List ℕ) (groups : List Group) (g : Group)
    → find (has_id id) groups ≡ some g
    → any (λ g. not (has_id id g) && has_name name g) groups ≡ false
    → IsSound groups
    → IsSound (update_where (has_id id) (named name) groups)
named-IsSound id name groups g found free v = record {
  distinct = λ k. omega (
    arith,
    v.distinct k,
    count_where-update_same (has_id k) (has_id id) (named name) groups (λ g. refl),
  );
  names = λ m. named_unique id name m groups g found free v;
  one_default = omega (
    arith,
    v.one_default,
    count_where-update_same (λ g. g.is_default) (has_id id) (named name) groups (λ g. refl),
  );
  ordinary = omega (
    arith,
    v.ordinary,
    count_where-update_same is_admin_default (has_id id) (named name) groups (λ g. refl),
  );
}

pub update_where-HasDefault :
    (p : Group → Bool) (f : Group → Group) (groups : List Group)
    → ((g : Group) → (f g).is_default ≡ g.is_default)
    → HasDefault groups
    → HasDefault (update_where p f groups)
update_where-HasDefault p f [] same h = h
update_where-HasDefault p f (g ∷ groups) same h =
    ground (arith, same g, update_where-HasDefault p f groups same)

pub select-IsSound :
    (p : Group → Bool) (groups : List Group) → IsSound groups → IsSound (select p groups)
select-IsSound p groups v = record {
  distinct = λ id. omega (arith, v.distinct id, count_where-select-le (has_id id) p groups);
  names = λ n. omega (arith, v.names n, count_where-select-le (has_name n) p groups);
  one_default = omega (arith, v.one_default, count_where-select-le (λ g. g.is_default) p groups);
  ordinary = omega (arith, v.ordinary, count_where-select-le is_admin_default p groups);
}

-- Whether the group found, if any, is the default.
abbrev found_is_default : Option Group → Bool
found_is_default none = true
found_is_default (some g) = g.is_default

any-without :
    (d : Group → Bool) (id : ℕ) (groups : List Group)
    → count_where (has_id id) groups ≡ 0
    → any d (select (λ g. not (has_id id g)) groups) ≡ any d groups
any-without d id [] c = refl
any-without d id (x ∷ groups) c = ground (arith, c, any-without d id groups)

-- A group that is not the default is deleted with no loss of the default.
pub without-HasDefault :
    (id : ℕ) (groups : List Group) (g : Group)
    → find (has_id id) groups ≡ some g
    → g.is_default ≡ false
    → count_where (has_id id) groups ≤ 1
    → HasDefault groups
    → HasDefault (select (λ g. not (has_id id g)) groups)
without-HasDefault id [] g found d c h = h
without-HasDefault id (x ∷ groups) g found d c h = elim (Bool-cases (has_id id x)) [
  | inl e ↦ ground (arith, e, any-without (λ g. g.is_default) id groups, ap found_is_default found)
  | inr e ↦ ground (arith, e, without-HasDefault id groups g)
]
