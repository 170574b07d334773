-- ===== src/Csrf/Tests.antt =====
-- Requests before the check, with a library that writes a fixed token for each session.
use phira_plus_backend.Prelude.{
  ◌≡◌, refl, true, some, none, [], ◌∷◌, utf8, bit_or, bit_xor, ◌==◌, string_eq, if◌then◌else◌,
}
use phira_plus_backend.ApiError.{ok}
use phira_plus_backend.Auth.{
  user, ppf, AccessClaims, TokenLibrary, absent, text, post, Request, claims_of, decode_access,
}
use phira_plus_backend.Csrf.{
  HmacLibrary, CsrfConfig, bytes, csrf_key, csrf_token_for, origin_allowed, csrf_middleware,
  is_state_changing,
}
use phira_plus_backend.Csrf.Guard.{csrf_middleware-guards}

abbrev claims : AccessClaims
claims = record { sub = 5; sid = 7; principal_type = user; client_type = ppf; iat = 100; exp = 160 }

abbrev lib : TokenLibrary
lib = record {
  sign_access = λ c. none;
  read_access = λ now token. if token == "jwt" then some claims else none;
  sign_reauth = λ c. none;
  read_reauth = λ now token. none;
}

abbrev mac : HmacLibrary
mac = record {
  mac = λ key message. message;
  encode = λ digest. "dG9rZW4";
  uuid_bytes = λ id. id ∷ [];
}

abbrev cfg : CsrfConfig
cfg = record {
  jwt_secret = "secret";
  allowed_origins = "https://phira.htadiy.com" ∷ [];
  dev_origins = [];
}

abbrev request : Request
request = record {
  method = post;
  authorization = absent;
  cookies = ("ppb_access", "jwt") ∷ [];
  origin = text "https://phira.htadiy.com";
  csrf_header = text "dG9rZW4";
  reauth_token = absent;
}

request_claims : claims_of lib 120 request ≡ ok claims
unfolding claims_of
request_claims = refl

request_passes : csrf_middleware lib mac cfg 120 request ≡ ok tt
unfolding csrf_middleware decode_access utf8 bit_or bit_xor
request_passes = refl

csrf_middleware-guards_example :
    (origin_allowed (some "https://phira.htadiy.com") ("https://phira.htadiy.com" ∷ []) ≡ true)
    × (bytes (csrf_token_for mac 7 (csrf_key mac "secret")) ≡ bytes "dG9rZW4")
unfolding is_state_changing
csrf_middleware-guards_example =
    csrf_middleware-guards lib mac cfg 120 request claims refl refl request_claims request_passes
