-- ===== src/ErrorCode/Statuses.antt =====
-- The transport side of the error codes (crates/ppb-server/src/error/mod.rs).
use phira_plus_backend.Prelude.{◌≡◌, ◌≢◌, ◌⊎◌, inl, inr, refl, ◌≤◌, ◌<◌, arith}
use phira_plus_backend.ErrorCode.{ErrorCode, status, long_job_accepted}

-- Every code but `long_job_accepted` has a client or server error status, from 400 to 599, and
-- `long_job_accepted` alone has a success status, 202.
pub status_ranges :
    (c : ErrorCode)
    → ((c ≡ long_job_accepted) × (status c ≡ 202))
      ⊎ ((c ≢ long_job_accepted) × (400 ≤ status c) × (status c < 600))
unfolding status
status_ranges long_job_accepted = inl (refl, refl)
status_ranges c = inr (λ e. ground arith, ground arith, ground arith)
