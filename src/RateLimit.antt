-- ===== src/RateLimit.antt =====
-- The sliding-window rate limiter: crates/ppb-server/src/middleware/rate_limit.rs. Times are whole
-- seconds since the epoch; a clock that steps back is covered, since the attempts then lie ahead.
mod Window
mod Tests
use phira_plus_backend.Prelude.{
  ℕ, ◌+◌, ◌-◌, String, Bool, not, Option, none, some, List, [], ◌∷◌, ◌++◌, ◌==◌, nat_eq, string_eq,
  lookup, insert, pos, select, length, ltb, leb, if◌then◌else◌,
}
use phira_plus_backend.ErrorCode.{rate_limited}
use phira_plus_backend.Json.{Value, number, object, end, field}
use phira_plus_backend.ApiError.{ApiError, Result, ok, err, api_error, with_details}

-- The attempts of each key, oldest first.
abbrev pub RateLimiter : Type 0
RateLimiter = List (String × List ℕ)

-- `now - t < 60`, with the subtraction on the other side.
abbrev pub is_recent : ℕ → ℕ → Bool
is_recent now t = ltb now (t + 60)

-- `(60 - (now - t)).max(1)` of an attempt that is recent.
pub seconds_left : ℕ → ℕ → ℕ
seconds_left now t = let left = (t + 60) - now in if leb left 1 then 1 else left

-- `bucket.front()`.
pub retry_after : ℕ → List ℕ → ℕ
unfolding seconds_left
retry_after now [] = 60
retry_after now (t ∷ ts) = seconds_left now t

pub or_default : Option (List ℕ) → List ℕ
or_default none = []
or_default (some bucket) = bucket

-- The attempts of a key: `entry(key).or_default()`.
pub bucket_of : String → RateLimiter → List ℕ
unfolding or_default
bucket_of key rl = or_default (lookup key rl)

pub refusal : ℕ → ApiError
refusal n =
    record (with_details rate_limited "rate limit exceeded"
      (object (field "retry_after_seconds" (number (pos n)) end))) { retry_after_secs = some n }

-- The part of `RateLimiter::check` after the attempts that are no longer recent are dropped.
pub check_recent : RateLimiter → ℕ → String → ℕ → List ℕ → Result (Unit {0}) × RateLimiter
unfolding insert retry_after refusal
check_recent rl now key limit recent =
    if leb limit (length recent)
    then (err (refusal (retry_after now recent)), insert key recent rl)
    else (ok tt, insert key (recent ++ now ∷ []) rl)

-- `RateLimiter::check` at the time `now`.
unfoldable pub check : RateLimiter → ℕ → String → ℕ → Result (Unit {0}) × RateLimiter
unfolding bucket_of check_recent
check rl now key limit =
    if limit == 0
    then (err (api_error rate_limited "rate limit disabled by policy"), rl)
    else check_recent rl now key limit (select (is_recent now) (bucket_of key rl))
