-- ===== src/ApiError.antt =====
-- `ApiError` of crates/ppb-server/src/error/mod.rs: its constructors, the sanitising of its details,
-- the response that it becomes, and `Result` with its `?`. The request id is not modelled.
mod Redaction
use Prim.Native.String.{◌++◌ as string_append}
use phira_plus_backend.Prelude.{
  ℕ, ◌-◌, ◌+◌, String, Bool, true, false, ◌&&◌, ◌||◌, Option, none, some, List, [], ◌∷◌, leb, codes,
  nat_beq, if◌then◌else◌, ◌≡◌, ◌⊎◌, inl, inr, refl, arith,
}
use phira_plus_backend.ErrorCode.{
  ErrorCode, status, is_internal, internal_error, validation_failed, resource_conflict,
  permission_denied, session_expired, room_not_found, replay_not_found, notification_not_found,
  friend_request_not_found, user_not_found, config_snapshot_not_found, job_not_found,
  redemption_code_not_found, group_not_found, resource_not_found,
}
use phira_plus_backend.Json.{
  Value, Fields, null, boolean, number, string, array, object, end, field, get_field, insert_field,
}

pub record ApiError : Type 0 where
  pub code : ErrorCode
  pub message : String
  pub details : Value
  pub retry_after_secs : Option ℕ

abbrev pub no_params : Value
no_params = object (field "params" (object end) end)

abbrev pub is_safe_scalar : Value → Bool
is_safe_scalar (array _) = false
is_safe_scalar (object _) = false
is_safe_scalar _ = true

-- The entries that are safe scalars.
keep_scalars : Fields → Fields
keep_scalars end = end
keep_scalars (field k v fs) =
    let rest = keep_scalars fs in if is_safe_scalar v then field k v rest else rest

-- The object under an explicit `params`, else the object itself.
abbrev pub params_of : Fields → Option Value → Fields
params_of fs (some (object explicit)) = explicit
params_of fs _ = fs

sanitized_params : Value → Fields
unfolding keep_scalars
sanitized_params (object fs) = keep_scalars (params_of fs (get_field "params" fs))
sanitized_params _ = end

sanitize_details : Value → Value
unfolding sanitized_params
sanitize_details v = object (field "params" (object (sanitized_params v)) end)

abbrev internal_message : String
internal_message = "internal server error"

-- `ApiError::new`: the message of an internal error is replaced.
unfoldable pub api_error : ErrorCode → String → ApiError
api_error c message = record {
  code = c;
  message = if is_internal c then internal_message else message;
  details = no_params;
  retry_after_secs = none;
}

unfoldable pub with_details : ErrorCode → String → Value → ApiError
unfolding api_error sanitize_details
with_details c message details = record (api_error c message) { details = sanitize_details details }

-- The parameters that an error holds already: those of them that are scalars.
existing_params : Value → Fields
unfolding keep_scalars
existing_params (object fs) = elim (get_field "params" fs) [
  | some p ↦ elim p [ object ps ↦ keep_scalars ps | _ ↦ end ]
  | none ↦ end
]
existing_params _ = end

pub with_param : ApiError → String → String → ApiError
unfolding existing_params
with_param e key value = record e { details = object (field "params" (object extended) end) }
  where
    extended : Fields
    extended = insert_field key (string value) (existing_params e.details)

unfoldable pub validation : String → ApiError
unfolding api_error
validation message = api_error validation_failed message

unfoldable pub conflict : String → ApiError
unfolding api_error
conflict message = api_error resource_conflict message

unfoldable pub denied : ApiError
unfolding api_error
denied = api_error permission_denied "permission denied"

unfoldable pub session : String → ApiError
unfolding api_error
session message = api_error session_expired message

unfoldable pub internal : ApiError
unfolding api_error
internal = api_error internal_error internal_message

unfoldable pub to_ascii_lowercase : List ℕ → List ℕ
to_ascii_lowercase [] = []
to_ascii_lowercase (c ∷ s) = (if leb b'A' c && leb c b'Z' then c + 32 else c) ∷ to_ascii_lowercase s

unfoldable pub has_prefix : List ℕ → List ℕ → Bool
has_prefix [] s = true
has_prefix (c ∷ p) [] = false
has_prefix (c ∷ p) (d ∷ s) = nat_beq c d && has_prefix p s

-- `str::contains` with a text.
unfoldable pub has_infix : List ℕ → List ℕ → Bool
unfolding has_prefix
has_infix p [] = has_prefix p []
has_infix p (c ∷ s) = has_prefix p (c ∷ s) || has_infix p s

pub not_found_code : String → ErrorCode
unfolding to_ascii_lowercase has_infix
not_found_code resource =
    let lower = to_ascii_lowercase (codes resource) in
    if has_infix (codes "room") lower
    then room_not_found
    else if has_infix (codes "replay") lower || has_infix (codes "round") lower
    then replay_not_found
    else if has_infix (codes "notification") lower
    then notification_not_found
    else if has_infix (codes "friend request") lower
    then friend_request_not_found
    else if has_infix (codes "user") lower || has_infix (codes "profile") lower
    then user_not_found
    else if has_infix (codes "snapshot") lower
    then config_snapshot_not_found
    else if has_infix (codes "job") lower
    then job_not_found
    else if has_infix (codes "redemption") lower || has_infix (codes "coupon") lower
    then redemption_code_not_found
    else if has_infix (codes "group") lower
    then group_not_found
    else resource_not_found

-- `ApiError::not_found`.
unfoldable pub not_found : String → ApiError
unfolding api_error not_found_code with_param
not_found resource =
    with_param (api_error (not_found_code resource) (string_append "resource not found: " resource))
      "resource" resource

-- The parts of an HTTP response that depend on the error.
pub record Response : Type 0 where
  pub status_code : ℕ
  pub body_code : ErrorCode
  pub body_message : String
  pub body_params : Fields
  pub retry_after : Option ℕ

-- `IntoResponse for ApiError`, with `details_from_value`.
pub into_response : ApiError → Response
unfolding sanitized_params
into_response e = record {
  status_code = status e.code;
  body_code = e.code;
  body_message = if is_internal e.code then internal_message else e.message;
  body_params =
      (if is_internal e.code
        then sanitized_params no_params
        else sanitized_params (object (field "params" (object (sanitized_params e.details)) end)));
  retry_after = e.retry_after_secs;
}

pub data Result {ℓ} (A : Type ℓ) : Type ℓ where
  ok : A → Result A
  err : ApiError → Result A

-- `?`, and a statement whose value is not used.
infixl 10 ◌>>=◌ ◌>>◌
abbrev pub ◌>>=◌ {ℓ κ} : {T : Type ℓ} {U : Type κ} → Result T → (T → Result U) → Result U
ok t >>= rest = rest t
err e >>= rest = err e

abbrev pub ◌>>◌ {ℓ} : {U : Type ℓ} → Result (Unit {0}) → Result U → Result U
ok done >> rest = rest
err e >> rest = err e

-- To split on a computed result and keep the equation.
pub Result-cases {ℓ} :
    {A : Type ℓ} (m : Result A) → ((a : A) × (m ≡ ok a)) ⊎ ((e : ApiError) × (m ≡ err e))
Result-cases (ok a) = inl (a, refl)
Result-cases (err e) = inr (e, refl)

-- The results of a chain that succeeds.
pub bind_ok :
    {A B : Type 0} (r : Result A) (k : A → Result B) (b : B)
    → (r >>= k) ≡ ok b
    → (a : A) × (r ≡ ok a) × (k a ≡ ok b)
bind_ok (ok a) k b h = (a, refl, h)
bind_ok (err e) k b h = absurd (ground (arith, h))

pub then_ok :
    {B : Type 0} (r : Result (Unit {0})) (s : Result B) (b : B)
    → (r >> s) ≡ ok b
    → (r ≡ ok tt) × (s ≡ ok b)
then_ok (ok u) s b h = (refl, h)
then_ok (err e) s b h = absurd (ground (arith, h))
