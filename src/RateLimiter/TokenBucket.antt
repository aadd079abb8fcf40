-- ===== src/RateLimiter/TokenBucket.antt =====
-- `TokenBucketLimiter`. The source keeps `tokens_` as a `double`; here it counts thousandths of a
-- token, in which a refill of (elapsed / 1000.0) * rate tokens is the whole number elapsed * rate.
-- So the count of tokens is exact, and its rounding as a `double` is left out; the wait of a refusal is
-- the result of a division of `double`s, which is a parameter. A time is in milliseconds.
pub mod Laws
use open_crank.Prelude.{ltb, leb, if◌then◌else◌, ℕ, ◌+◌, ◌-◌, ◌*◌, ◌/◌, min, Bool, List, [], ◌∷◌}
use open_crank.RateLimiter.Types.{RateLimitResult, allow, deny}

-- `wait_of` is `static_cast<int64_t>((tokens_needed / refill_rate_) * 1000)`, on the missing thousandths
-- and the rate.
pub record TokenBucket : Type 0 where
  pub wait_of : ℕ → ℕ → ℕ
  pub max_tokens : ℕ
  pub refill_rate : ℕ
  pub tokens : ℕ
  pub last_refill_ms : ℕ

unfoldable pub make : (ℕ → ℕ → ℕ) → ℕ → ℕ → ℕ → TokenBucket
make wait_of max_tokens rate now = record {
  wait_of = wait_of;
  max_tokens = max_tokens;
  refill_rate = rate;
  tokens = max_tokens * 1000;
  last_refill_ms = now;
}

-- `elapsed > 0` is `last_refill_ms < now`.
unfoldable pub refill : TokenBucket → ℕ → TokenBucket
refill b now =
    if ltb b.last_refill_ms now
    then record b {
      tokens = min (b.max_tokens * 1000) (b.tokens + (now - b.last_refill_ms) * b.refill_rate);
      last_refill_ms = now;
    }
    else b

-- What `try_acquire` does once the bucket is refilled.
unfoldable pub take_token : TokenBucket → TokenBucket × RateLimitResult
take_token b =
    if leb 1000 b.tokens
    then (record b { tokens = b.tokens - 1000 }, allow ((b.tokens - 1000) / 1000) b.max_tokens)
    else (b, deny (b.wait_of (1000 - b.tokens) b.refill_rate) b.max_tokens)

unfoldable pub try_acquire : TokenBucket → ℕ → TokenBucket × RateLimitResult
try_acquire b now = take_token (refill b now)

unfoldable pub would_allow : TokenBucket → ℕ → Bool
would_allow b now = leb 1000 (refill b now).tokens

unfoldable pub available_tokens : TokenBucket → ℕ → ℕ
available_tokens b now = (refill b now).tokens / 1000

unfoldable pub reset : TokenBucket → ℕ → TokenBucket
reset b now = record b { tokens = b.max_tokens * 1000; last_refill_ms = now }

-- Requests at the given clock readings: the bucket after them, and how many were allowed.
unfoldable pub serve : TokenBucket → List ℕ → TokenBucket × ℕ
serve b [] = (b, 0)
serve b (now ∷ rest) =
    let (b', r) = try_acquire b now in
    let (b'', n) = serve b' rest in (b'', (if r.allowed then 1 else 0) + n)
