-- ===== src/Actions/Redaction.antt =====
-- What the redaction of arguments keeps: crates/ppb-server/src/commands/broker.rs.
use phira_plus_backend.Prelude.{
  ◌≡◌, refl, ◌∙◌, String, Bool, true, false, Option, none, some, ◌==◌, string_eq, eq_iff, arith,
  Bool-cases, Option-cases, subst, inl, inr, if◌then◌else◌,
}
use phira_plus_backend.Json.{
  Value, Fields, object, array, null, boolean, number, string, end, field, get, get_field,
  insert_field, get_field-insert_field,
}
use phira_plus_backend.Actions.{is_sensitive, redact_fields, redact_args}

-- The value that a key has afterwards.
abbrev pub redacted : String → Option Value → Option Value
redacted k none = none
redacted k (some v) = some (if is_sensitive k then string "[REDACTED]" else v)

abbrev or_else : Option Value → Option Value → Option Value
or_else none o = o
or_else (some v) o = some v

abbrev pub is_hidden : Option Value → Bool
is_hidden none = true
is_hidden (some (string s)) = s == "[REDACTED]"
is_hidden (some _) = false

-- Objects have each key once.
abbrev pub has_distinct_keys : Fields → Bool
has_distinct_keys end = true
has_distinct_keys (field k v fs) = elim (get_field k fs) [
  | none ↦ has_distinct_keys fs
  | some w ↦ false
]

redact_fields-hides :
    (k : String) (fs out : Fields)
    → is_sensitive k ≡ true
    → is_hidden (get_field k out) ≡ true
    → is_hidden (get_field k (redact_fields fs out)) ≡ true
unfolding redact_fields
redact_fields-hides k end out s h = h
redact_fields-hides k (field j v fs) out s h =
    redact_fields-hides k fs
      (insert_field j (if is_sensitive j then string "[REDACTED]" else v) out) s
      (elim (Bool-cases (j == k)) [
        | inr e ↦ ground (
          arith,
          e,
          h,
          get_field-insert_field j k (if is_sensitive j then string "[REDACTED]" else v) out,
        )
        | inl e ↦
            let same : j ≡ k = (eq_iff j k).0 e in
            ground (
              arith,
              e,
              h,
              s,
              same,
              get_field-insert_field j k (if is_sensitive j then string "[REDACTED]" else v) out,
            )
      ])

redact_fields-get :
    (k : String) (fs out : Fields)
    → has_distinct_keys fs ≡ true
    → get_field k (redact_fields fs out) ≡ or_else (redacted k (get_field k fs)) (get_field k out)
unfolding redact_fields
redact_fields-get k end out d = refl
redact_fields-get k (field j v fs) out d = elim (Option-cases (get_field j fs)) [
  | inr (w, e) ↦ absurd (ground (arith, e, d))
  | inl e ↦
      let value = if is_sensitive j then string "[REDACTED]" else v in
      redact_fields-get k fs (insert_field j value out) (ground (arith, e, d))
      ∙ elim (Bool-cases (j == k)) [
        | inr n ↦ ground (arith, n, get_field-insert_field j k value out)
        | inl b ↦
            let same : j ≡ k = (eq_iff j k).0 b in
            let gone : get_field k fs ≡ none = subst (λ i. get_field i fs ≡ none) same e in
            ground (arith, b, gone, same, get_field-insert_field j k value out)
      ]
]

-- What is left under a sensitive key, of whatever arguments, is nothing or the mark.
pub redact_args-hides :
    (k : String) (args : Value)
    → is_sensitive k ≡ true
    → is_hidden (get k (redact_args args)) ≡ true
unfolding redact_args
redact_args-hides k (object fs) s = redact_fields-hides k fs end s refl
redact_args-hides k null s = refl
redact_args-hides k (boolean b) s = refl
redact_args-hides k (number n) s = refl
redact_args-hides k (string t) s = refl
redact_args-hides k (array items) s = refl

-- The redaction of an object keeps the value of every key that is not sensitive, as it is, and
-- replaces the value of every other key that is there by the mark.
pub redact_args-get :
    (k : String) (fs : Fields)
    → has_distinct_keys fs ≡ true
    → get k (redact_args (object fs)) ≡ redacted k (get_field k fs)
unfolding redact_args
redact_args-get k fs d = ground (arith, redact_fields-get k fs end d)
