-- ===== src/RateLimit/Tests.antt =====
-- Runs of the rate limiter.
use phira_plus_backend.Prelude.{
  ◌≤◌, ◌≡◌, refl, arith, true, every, leb, length, [], ◌∷◌, count_where,
}
use phira_plus_backend.ApiError.{err}
use phira_plus_backend.RateLimit
use phira_plus_backend.RateLimit.{is_recent, check, bucket_of, refusal, RateLimiter}
use phira_plus_backend.RateLimit.Window.{Run, here, checked, passed, Run-bounded}

abbrev once : RateLimiter
once = (check [] 100 "login" 1).1

once-Run : Run "login" 1 100 (passed (check [] 100 "login" 1).0 100 []) once
once-Run = checked here 100 (omega arith)

Run-bounded_example :
    count_where
      (is_recent 130)
      (passed (check once 120 "login" 1).0 120 (passed (check [] 100 "login" 1).0 100 []))
    ≤ 1
Run-bounded_example = Run-bounded (checked once-Run 120 (omega arith)) 130 (omega arith)

size : length (bucket_of "login" (("login", 100 ∷ []) ∷ [])) ≤ 1
unfolding bucket_of RateLimit.or_default
size = omega arith

past : every (λ t. leb t 120) (bucket_of "login" (("login", 100 ∷ []) ∷ [])) ≡ true
unfolding bucket_of RateLimit.or_default
past = refl

refused : (check (("login", 100 ∷ []) ∷ []) 120 "login" 1).0 ≡ err (refusal 40)
unfolding check RateLimit.check_recent RateLimit.retry_after RateLimit.seconds_left bucket_of
    RateLimit.or_default
refused = refl
