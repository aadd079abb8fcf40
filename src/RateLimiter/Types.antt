-- ===== src/RateLimiter/Types.antt =====
-- `RateLimitResult`. Limits, times and waits are not negative, so they are natural numbers.
use open_crank.Prelude.{ℕ, Bool, true, false}

pub record RateLimitResult : Type 0 where
  pub allowed : Bool
  pub retry_after_ms : ℕ
  pub remaining : ℕ
  pub limit : ℕ

abbrev pub allow : ℕ → ℕ → RateLimitResult
allow remaining limit = record {
  allowed = true;
  retry_after_ms = 0;
  remaining = remaining;
  limit = limit;
}

abbrev pub deny : ℕ → ℕ → RateLimitResult
deny retry_after limit = record {
  allowed = false;
  retry_after_ms = retry_after;
  remaining = 0;
  limit = limit;
}
