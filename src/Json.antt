-- ===== src/Json.antt =====
-- `serde_json::Value` with integer numbers, and the operations on objects that the program uses. An
-- object is an association list; the order of its keys is not observed by any modelled operation.
use phira_plus_backend.Prelude.{
  ℤ, String, Bool, Option, none, some, ◌≡◌, ◌==◌, string_eq, eq_iff, if◌then◌else◌, arith,
}

mutual
  pub data Value : Type 0 where
    null : Value
    boolean : Bool → Value
    number : ℤ → Value
    string : String → Value
    object : Fields → Value
    array : Items → Value

  pub data Fields : Type 0 where
    end : Fields
    field : String → Value → Fields → Fields

  pub data Items : Type 0 where
    no_items : Items
    item : Value → Items → Items

-- `Map::get`.
abbrev pub get_field : String → Fields → Option Value
get_field k end = none
get_field k (field j v fs) = let rest = get_field k fs in if j == k then some v else rest

-- `Map::remove`.
pub remove_field : String → Fields → Fields
remove_field k end = end
remove_field k (field j v fs) =
    let rest = remove_field k fs in if j == k then rest else field j v rest

-- `Map::insert`.
unfoldable pub insert_field : String → Value → Fields → Fields
unfolding remove_field
insert_field k v fs = field k v (remove_field k fs)

-- `Value::get` with a key, which is `none` on all but objects.
abbrev pub get : String → Value → Option Value
get k (object fs) = get_field k fs
get k _ = none

-- `Value::as_i64`, `as_str`, `as_bool` and `as_object`.
abbrev pub as_i64 : Value → Option ℤ
as_i64 (number n) = some n
as_i64 _ = none

abbrev pub as_string : Value → Option String
as_string (string s) = some s
as_string _ = none

abbrev pub as_bool : Value → Option Bool
as_bool (boolean b) = some b
as_bool _ = none

abbrev pub as_object : Value → Option Fields
as_object (object fs) = some fs
as_object _ = none

-- `get` and then the text, the integer or the Boolean that is there.
abbrev pub get_string : String → Value → Option String
get_string k v = elim (get k v) [ none ↦ none | some w ↦ as_string w ]

abbrev pub get_i64 : String → Value → Option ℤ
get_i64 k v = elim (get k v) [ none ↦ none | some w ↦ as_i64 w ]

abbrev pub get_bool : String → Value → Option Bool
get_bool k v = elim (get k v) [ none ↦ none | some w ↦ as_bool w ]

pub get_field-remove_field :
    (k j : String) (fs : Fields)
    → get_field j (remove_field k fs) ≡ (if k == j then none else get_field j fs)
unfolding remove_field
get_field-remove_field k j end = ground arith
get_field-remove_field k j (field i v fs) =
    ground (arith, get_field-remove_field k j fs, eq_iff i k, eq_iff i j, eq_iff k j)

pub get_field-insert_field :
    (k j : String) (v : Value) (fs : Fields)
    → get_field j (insert_field k v fs) ≡ (if k == j then some v else get_field j fs)
unfolding insert_field
get_field-insert_field k j v fs = ground (arith, get_field-remove_field k j fs)
