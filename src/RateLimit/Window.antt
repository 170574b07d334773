-- ===== src/RateLimit/Window.antt =====
-- What the limiter lets through in a minute: crates/ppb-server/src/middleware/rate_limit.rs.
use phira_plus_backend.Prelude.{
  ℕ, ◌+◌, ◌≤◌, ◌≡◌, ◌∙◌, refl, ap, sym, subst, String, Bool, true, false, some, List, [], ◌∷◌, ◌++◌,
  ◌==◌, nat_eq, string_eq, insert, lookup-insert, select, length, length-append, length-select-le,
  count_where, count_where-append, every, every-select, Option, none, leb, arith, ==_refl,
  Bool-cases, inl, inr, if◌then◌else◌,
}
use phira_plus_backend.ApiError.{ApiError, Result, ok, err}
use phira_plus_backend.RateLimit.{
  RateLimiter, is_recent, seconds_left, retry_after, or_default, bucket_of, refusal, check_recent,
  check,
}

bucket_of-check_recent :
    (rl : RateLimiter) (now : ℕ) (key k : String) (limit : ℕ) (recent : List ℕ)
    → bucket_of k (check_recent rl now key limit recent).1 ≡ (
        if key == k
        then (if leb limit (length recent) then recent else recent ++ now ∷ [])
        else bucket_of k rl)
unfolding bucket_of check_recent or_default
bucket_of-check_recent rl now key k limit recent =
    ground (arith, lookup-insert key k recent rl, lookup-insert key k (recent ++ now ∷ []) rl)

bucket_of-insert :
    (key : String) (bucket : List ℕ) (rl : RateLimiter)
    → bucket_of key (insert key bucket rl) ≡ bucket
unfolding bucket_of or_default
bucket_of-insert key bucket rl = ground (arith, lookup-insert key key bucket rl, ==_refl key)

-- An attempt that is recent later is recent now.
count_where-recent :
    (now later : ℕ) (ts : List ℕ)
    → now ≤ later
    → count_where (is_recent later) (select (is_recent now) ts) ≡ count_where (is_recent later) ts
count_where-recent now later [] h = refl
count_where-recent now later (t ∷ ts) h = ground (arith, h, count_where-recent now later ts)

-- The log, with the time of an attempt that was let through.
abbrev pub passed : Result (Unit {0}) → ℕ → List ℕ → List ℕ
passed (ok done) t log = t ∷ log
passed (err e) t log = log

-- A history of one key under one limit: the time of the last check, and the times of the attempts
-- that were let through. Checks of other keys come in between, with any limits.
pub data Run (key : String) (limit : ℕ) : ℕ → List ℕ → RateLimiter → Type 0 where
  here : Run key limit 0 [] []
  checked :
      {now : ℕ} {log : List ℕ} {rl : RateLimiter}
      → Run key limit now log rl
      → (t : ℕ) → now ≤ t
      → Run key limit t (passed (check rl t key limit).0 t log) (check rl t key limit).1
  other :
      {now : ℕ} {log : List ℕ} {rl : RateLimiter}
      → Run key limit now log rl
      → (t : ℕ) (k : String) (l : ℕ) → now ≤ t
      → (k == key) ≡ false
      → Run key limit t log (check rl t k l).1

-- The bucket of the key holds at least the recent attempts of the log, and at most the limit.
record IsLogged (key : String) (limit now : ℕ) (log : List ℕ) (rl : RateLimiter) : Type 0 where
  size : length (bucket_of key rl) ≤ limit
  counted :
      (later : ℕ)
      → now ≤ later
      → count_where (is_recent later) log ≤ count_where (is_recent later) (bucket_of key rl)

kept-IsLogged :
    (key : String) (limit now t : ℕ) (log : List ℕ) (rl rl' : RateLimiter)
    → now ≤ t
    → bucket_of key rl' ≡ select (is_recent t) (bucket_of key rl)
    → IsLogged key limit now log rl
    → IsLogged key limit t log rl'
kept-IsLogged key limit now t log rl rl' h same v = record {
  size = rw same (omega (arith, v.size, length-select-le (is_recent t) (bucket_of key rl)));
  counted = λ later w. rw same (
      omega (
        arith,
        v.counted later (omega (arith, h, w)),
        count_where-recent t later (bucket_of key rl) w,
      ));
}

pushed-IsLogged :
    (key : String) (limit now t : ℕ) (log : List ℕ) (rl rl' : RateLimiter)
    → now ≤ t
    → bucket_of key rl' ≡ select (is_recent t) (bucket_of key rl) ++ t ∷ []
    → leb limit (length (select (is_recent t) (bucket_of key rl))) ≡ false
    → IsLogged key limit now log rl
    → IsLogged key limit t (t ∷ log) rl'
pushed-IsLogged key limit now t log rl rl' h same free v =
    let recent = select (is_recent t) (bucket_of key rl) in
    record {
      size = rw same (ground (arith, free, length-append recent (t ∷ [])));
      counted = λ later w. rw same (
          ground (
            arith,
            v.counted later (omega (arith, h, w)),
            count_where-recent t later (bucket_of key rl) w,
            count_where-append (is_recent later) recent (t ∷ []),
          ));
    }

checked-IsLogged :
    (key : String) (limit now t : ℕ) (log : List ℕ) (rl : RateLimiter)
    → now ≤ t
    → IsLogged key limit now log rl
    → IsLogged key limit t (passed (check rl t key limit).0 t log) (check rl t key limit).1
unfolding check check_recent
checked-IsLogged key limit now t log rl h v =
    let recent = select (is_recent t) (bucket_of key rl) in
    elim (Bool-cases (limit == 0)) [
      | inl z ↦
          rw (z, check)
            (record { size = v.size; counted = λ later w. v.counted later (omega (arith, h, w)) })
      | inr z ↦ elim (Bool-cases (leb limit (length recent))) [
        | inl full ↦
            rw (z, check, full, check_recent)
              (kept-IsLogged key limit now t log rl _ h (bucket_of-insert key recent rl) v)
        | inr free ↦
            rw (z, check, free, check_recent)
              (pushed-IsLogged key limit now t log rl _ h
                (bucket_of-insert key (recent ++ t ∷ []) rl) free v)
      ]
    ]

other-IsLogged :
    (key : String) (limit now t : ℕ) (log : List ℕ) (rl : RateLimiter) (k : String) (l : ℕ)
    → now ≤ t
    → (k == key) ≡ false
    → IsLogged key limit now log rl
    → IsLogged key limit t log (check rl t k l).1
unfolding check
other-IsLogged key limit now t log rl k l h n v =
    let same = bucket_of-check_recent rl t k key l (select (is_recent t) (bucket_of k rl)) in
    record {
      size = ground (arith, v.size, same, n);
      counted = λ later w. ground (arith, v.counted later, same, n, h, w);
    }

count_where-length : (p : ℕ → Bool) (ts : List ℕ) → count_where p ts ≤ length ts
count_where-length p [] = omega arith
count_where-length p (t ∷ ts) = ground (arith, count_where-length p ts)

Run-IsLogged :
    {key : String} {limit now : ℕ} {log : List ℕ} {rl : RateLimiter}
    → Run key limit now log rl
    → IsLogged key limit now log rl
unfolding bucket_of or_default
Run-IsLogged here = record { size = omega arith; counted = λ later h. omega arith }
Run-IsLogged {key} {limit} (checked {now} {log} {rl} p t h) =
    checked-IsLogged key limit now t log rl h (Run-IsLogged p)
Run-IsLogged {key} {limit} (other {now} {log} {rl} p t k l h n) =
    other-IsLogged key limit now t log rl k l h n (Run-IsLogged p)

-- Over any history of checks whose clock does not step back, no more attempts of a key than its
-- limit were let through in the last sixty seconds, seen from the last check or from any later time.
pub Run-bounded :
    {key : String} {limit now : ℕ} {log : List ℕ} {rl : RateLimiter}
    → Run key limit now log rl
    → (later : ℕ) → now ≤ later
    → count_where (is_recent later) log ≤ limit
Run-bounded {key} {limit} {now} {log} {rl} p later h =
    let v = Run-IsLogged p in
    omega
      (arith, v.size, v.counted later h, count_where-length (is_recent later) (bucket_of key rl))

check-refused :
    (rl : RateLimiter) (now : ℕ) (key : String) (limit : ℕ)
    → (limit == 0) ≡ false
    → leb limit (length (select (is_recent now) (bucket_of key rl))) ≡ true
    → check rl now key limit ≡ (
      err (refusal (retry_after now (select (is_recent now) (bucket_of key rl)))),
      insert key (select (is_recent now) (bucket_of key rl)) rl,
    )
unfolding check check_recent
check-refused rl now key limit z full = rw (z, check, full, check_recent) refl

check-passed :
    (rl : RateLimiter) (now : ℕ) (key : String) (limit : ℕ)
    → (limit == 0) ≡ false
    → leb limit (length (select (is_recent now) (bucket_of key rl))) ≡ false
    → (check rl now key limit).0 ≡ ok tt
unfolding check check_recent
check-passed rl now key limit z free = rw (z, check, free, check_recent) refl

-- After the delay the oldest attempt is no longer recent.
front_expires :
    (now limit : ℕ) (recent : List ℕ)
    → (limit == 0) ≡ false
    → leb limit (length recent) ≡ true
    → length recent ≤ limit
    → every (λ t. leb t now) recent ≡ true
    → (1 ≤ retry_after now recent)
      × (retry_after now recent ≤ 60)
      × (leb limit (length (select (is_recent (now + retry_after now recent)) recent)) ≡ false)
unfolding retry_after seconds_left
front_expires now limit [] z full size past = absurd (ground (arith, z, full))
front_expires now limit (t ∷ ts) z full size past = (
  ground (arith, past),
  ground (arith, past),
  ground (arith, past, size, length-select-le (is_recent (now + seconds_left now t)) ts),
)

abbrev delay : Result (Unit {0}) → Option ℕ
delay (ok done) = none
delay (err e) = e.retry_after_secs

is_err : Result (Unit {0}) → Bool
is_err (ok done) = false
is_err (err e) = true

ok-err : {e : ApiError} → (ok (tt {0})) ≡ err e → ⊥
unfolding is_err
ok-err h = ground (arith, ap is_err h)

-- A refused check names a delay of one to sixty seconds, and a check after that delay, with none of
-- the key in between, is let through: where the limit is not zero, the bucket is within it, and no
-- attempt of the bucket lies ahead of the clock.
pub refused_then_passes :
    (rl : RateLimiter) (now : ℕ) (key : String) (limit : ℕ) (e : ApiError)
    → (limit == 0) ≡ false
    → length (bucket_of key rl) ≤ limit
    → every (λ t. leb t now) (bucket_of key rl) ≡ true
    → (check rl now key limit).0 ≡ err e
    → (n : ℕ) × (e.retry_after_secs ≡ some n)
      × (1 ≤ n)
      × (n ≤ 60)
      × ((check (check rl now key limit).1 (now + n) key limit).0 ≡ ok tt)
unfolding refusal
refused_then_passes rl now key limit e z size past h =
    let recent = select (is_recent now) (bucket_of key rl) in
    elim (Bool-cases (leb limit (length recent))) [
      | inr free ↦ absurd (ok-err (sym (check-passed rl now key limit z free) ∙ h))
      | inl full ↦
          let (low, high, free) =
            front_expires now limit recent z full
              (omega (arith, size, length-select-le (is_recent now) (bucket_of key rl)))
              (every-select (λ t. leb t now) (is_recent now) (bucket_of key rl) past) in
          let refused = check-refused rl now key limit z full in
          let n = retry_after now recent in
          let told : some n ≡ e.retry_after_secs =
            ap delay (sym (ap (λ (p : Result (Unit {0}) × RateLimiter). p.0) refused) ∙ h) in
          (
            n,
            sym told,
            low,
            high,
            rw refused (
                check-passed (insert key recent rl) (now + n) key limit z (
                  subst (λ b. leb limit (length (select (is_recent (now + n)) b)) ≡ false)
                    (sym (bucket_of-insert key recent rl)) free)),
          )
    ]
