-- ===== src/Runbooks/Steps/Arguments.antt =====
-- The arguments of a step and those of the run: the body of the loop of `run` in
-- crates/ppb-server/src/automation/routes.rs.
use phira_plus_backend.Prelude.{
  ◌≡◌, ◌∙◌, refl, sym, ap, subst, Bool-cases, String, Option, none, some, ◌==◌, string_eq, eq_iff,
  Option-cases, inl, inr, if◌then◌else◌,
}
use phira_plus_backend.Json.{
  Value, Fields, object, null, end, field, get, get_field, insert_field, get_field-insert_field,
}
use phira_plus_backend.Runbooks.Steps.{or_insert_all, merge_args}

abbrev pub or_else : Option Value → Option Value → Option Value
or_else none other = other
or_else (some v) other = some v

or_else-none : (o : Option Value) → or_else o none ≡ o
or_else-none none = refl
or_else-none (some v) = refl

or_else-inserted :
    (k j : String) (v : Value) (map : Fields) (rest : Option Value)
    → get_field k map ≡ none
    → or_else (if k == j then some v else get_field j map) rest
      ≡ or_else (get_field j map) (if k == j then some v else rest)
or_else-inserted k j v map rest n = elim (Bool-cases (k == j)) [
  | inr e ↦ rw e refl
  | inl e ↦
      let none_there = subst (λ i. get_field i map ≡ none) ((eq_iff k j).0 e) n in
      rw (e, none_there) refl
]

or_else-kept :
    (k j : String) (v w : Value) (map : Fields) (rest : Option Value)
    → get_field k map ≡ some w
    → or_else (get_field j map) rest ≡ or_else (get_field j map) (if k == j then some v else rest)
or_else-kept k j v w map rest s = elim (Bool-cases (k == j)) [
  | inr e ↦ rw e refl
  | inl e ↦
      let there = subst (λ i. get_field i map ≡ some w) ((eq_iff k j).0 e) s in rw (e, there) refl
]

get_field-or_insert_all :
    (j : String) (map run : Fields)
    → get_field j (or_insert_all map run) ≡ or_else (get_field j map) (get_field j run)
unfolding or_insert_all
get_field-or_insert_all j map end = sym (or_else-none (get_field j map))
get_field-or_insert_all j map (field k v run) = elim (Option-cases (get_field k map)) [
  | inl n ↦
      rw (or_insert_all, n)
        (get_field-or_insert_all j (insert_field k v map) run
          ∙ ap (λ o. or_else o (get_field j run)) (get_field-insert_field k j v map)
          ∙ or_else-inserted k j v map (get_field j run) n)
  | inr (w, s) ↦
      rw (or_insert_all, s)
        (get_field-or_insert_all j map run ∙ or_else-kept k j v w map (get_field j run) s)
]

-- A step whose own arguments are an object runs with them, and with those arguments of the run that
-- it does not give itself; a step without arguments runs without any, whatever the run's are.
pub merge_args-get :
    (j : String) (map : Fields) (run : Fields) (args : Value)
    → (get j (merge_args (object map) (object run)) ≡ or_else (get_field j map) (get_field j run))
      × (merge_args null args ≡ null)
unfolding merge_args
merge_args-get j map run args = (get_field-or_insert_all j map run, refl)
