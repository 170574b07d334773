-- ===== src/ApiError/Redaction.antt =====
-- What an error may tell a client (crates/ppb-server/src/error/mod.rs).
use phira_plus_backend.Prelude.{ℕ, ◌≡◌, refl, true, String, Option, arith, Bool-cases, inl, inr}
use phira_plus_backend.ErrorCode.{internal_error, is_internal, status}
use phira_plus_backend.Json.{Value, Fields, end, field, get_field, object}
use phira_plus_backend.ApiError.{
  ApiError, is_safe_scalar, keep_scalars, params_of, no_params, sanitized_params, sanitize_details,
  into_response,
}

abbrev pub AllScalars : Fields → Type 0
AllScalars end = Unit
AllScalars (field k v fs) = (is_safe_scalar v ≡ true) × AllScalars fs

keep_scalars-AllScalars : (fs : Fields) → AllScalars (keep_scalars fs)
unfolding keep_scalars
keep_scalars-AllScalars end = tt
keep_scalars-AllScalars (field k v fs) = ground (arith, keep_scalars-AllScalars fs)

keep_scalars_idem : (fs : Fields) → AllScalars fs → keep_scalars fs ≡ fs
unfolding keep_scalars
keep_scalars_idem end h = refl
keep_scalars_idem (field k v fs) h = ground (arith, keep_scalars_idem fs h.1)

sanitized_params-AllScalars : (v : Value) → AllScalars (sanitized_params v)
unfolding sanitized_params
sanitized_params-AllScalars (object fs) =
    keep_scalars-AllScalars (params_of fs (get_field "params" fs))
sanitized_params-AllScalars v = tt

-- Sanitising details twice is sanitising them once.
sanitize_details_idem : (v : Value) → sanitize_details (sanitize_details v) ≡ sanitize_details v
unfolding sanitize_details sanitized_params
sanitize_details_idem v =
    rw (keep_scalars_idem (sanitized_params v) (sanitized_params-AllScalars v))

-- Whatever details an error was built with, the parameters of its response are scalars only.
pub response_params-AllScalars : (e : ApiError) → AllScalars (into_response e).body_params
unfolding into_response
response_params-AllScalars e = elim (Bool-cases (is_internal e.code)) [
  | inl h ↦ rw h (sanitized_params-AllScalars no_params)
  | inr h ↦ rw h (
      sanitized_params-AllScalars
        (object (field "params" (object (sanitized_params e.details)) end)))
]

-- An internal error answers 500 with the fixed message and no parameters, whatever message and
-- details it holds.
pub internal_response :
    (message : String) (details : Value) (retry : Option ℕ)
    → into_response (record {
      code = internal_error;
      message = message;
      details = details;
      retry_after_secs = retry;
    })
      ≡ record {
        status_code = 500;
        body_code = internal_error;
        body_message = "internal server error";
        body_params = end;
        retry_after = retry;
      }
unfolding into_response sanitized_params status keep_scalars
internal_response message details retry = refl
