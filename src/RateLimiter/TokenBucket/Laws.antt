-- ===== src/RateLimiter/TokenBucket/Laws.antt =====
-- How many requests a token bucket allows, and when.
use open_crank.Prelude.{
  if◌then◌else◌, All, ℕ, ◌+◌, ◌-◌, ◌*◌, ◌≤◌, max, ◌≡◌, ap, ◌∙◌, List, [], ◌∷◌, arith,
}
use open_crank.RateLimiter.Types.{RateLimitResult}
use open_crank.RateLimiter.TokenBucket.{TokenBucket, refill, take_token, try_acquire, serve}

-- The bucket never holds more than its maximum.
abbrev pub IsWithin : TokenBucket → Type 0
IsWithin b = b.tokens ≤ b.max_tokens * 1000

abbrev grant : RateLimitResult → ℕ
grant r = if r.allowed then 1 else 0

refill_lem :
    (b : TokenBucket) (now : ℕ)
    → IsWithin b
    → ((refill b now).max_tokens ≡ b.max_tokens)
      × ((refill b now).refill_rate ≡ b.refill_rate)
      × (b.last_refill_ms ≤ (refill b now).last_refill_ms)
      × ((refill b now).last_refill_ms ≤ max b.last_refill_ms now)
      × ((refill b now).tokens ≤ b.max_tokens * 1000)
      × ((refill b now).tokens
          ≤ b.tokens + ((refill b now).last_refill_ms - b.last_refill_ms) * b.refill_rate)
unfolding refill
refill_lem b now h = ground arith

take_token_lem :
    (b : TokenBucket)
    → ((take_token b).0.tokens + 1000 * grant (take_token b).1 ≡ b.tokens)
      × ((take_token b).0.max_tokens ≡ b.max_tokens)
      × ((take_token b).0.refill_rate ≡ b.refill_rate)
      × ((take_token b).0.last_refill_ms ≡ b.last_refill_ms)
unfolding take_token
take_token_lem b = ground arith

try_acquire_lem :
    (b : TokenBucket) (now : ℕ)
    → IsWithin b
    → ((try_acquire b now).0.max_tokens ≡ b.max_tokens)
      × ((try_acquire b now).0.refill_rate ≡ b.refill_rate)
      × (b.last_refill_ms ≤ (try_acquire b now).0.last_refill_ms)
      × ((try_acquire b now).0.last_refill_ms ≤ max b.last_refill_ms now)
      × ((try_acquire b now).0.tokens ≤ b.max_tokens * 1000)
      × ((try_acquire b now).0.tokens + 1000 * grant (try_acquire b now).1
          ≤ b.tokens + ((try_acquire b now).0.last_refill_ms - b.last_refill_ms) * b.refill_rate)
unfolding try_acquire
try_acquire_lem b now h =
    let f = refill_lem b now h in
    let t = take_token_lem (refill b now) in
    let e = ap (λ (x : ℕ). (x - b.last_refill_ms) * b.refill_rate) t.3 in
    (
      t.1 ∙ f.0,
      t.2 ∙ f.1,
      omega (arith, f, t),
      omega (arith, f, t),
      omega (arith, f, t),
      omega (arith, f, t, e),
    )

split_span : (a b c r : ℕ) → a ≤ b → b ≤ c → (b - a) * r + (c - b) * r ≡ (c - a) * r
split_span a b c r h k = let e : c - a ≡ (b - a) + (c - b) = omega arith in rw e (omega arith)

-- However the requests come in, by the time `end` the bucket has allowed no more than the tokens that
-- it held at the start and those that the elapsed time brought in, and it never holds more than its
-- maximum.
pub serve_bound :
    (times : List ℕ) (b : TokenBucket) (end : ℕ)
    → IsWithin b
    → b.last_refill_ms ≤ end
    → All (λ t. t ≤ end) times
    → (1000 * (serve b times).1 + (serve b times).0.tokens
        ≤ b.tokens + (end - b.last_refill_ms) * b.refill_rate)
      × ((serve b times).0.tokens ≤ b.max_tokens * 1000)
unfolding serve
serve_bound [] b end h l t = (omega arith, h)
serve_bound (now ∷ times) b end h l (le, les) =
    let b' = (try_acquire b now).0 in
    let s = try_acquire_lem b now h in
    let ceiling = ap (λ (x : ℕ). x * 1000) s.0 in
    let ih = serve_bound times b' end (omega (arith, s, ceiling)) (omega (arith, s)) les in
    let span =
      split_span b.last_refill_ms b'.last_refill_ms end b.refill_rate s.2 (omega (arith, s)) in
    let rate = ap (λ (x : ℕ). (end - b'.last_refill_ms) * x) s.1 in
    (omega (arith, s, ih, span, rate), omega (arith, ih, ceiling))

-- For what can be missing of a token, the bucket's division is right up to the cut to whole
-- milliseconds: the exact wait is at least the given one, and at most a millisecond more.
abbrev pub IsRounded : TokenBucket → Type 0
IsRounded b =
    (missing : ℕ)
    → missing ≤ 1000
    → (b.wait_of missing b.refill_rate * b.refill_rate ≤ missing)
      × (missing ≤ (b.wait_of missing b.refill_rate + 1) * b.refill_rate)
