-- ===== src/Tests/RateLimiter.antt =====
-- The theorems on the limiters, at small limits.
use open_crank.Prelude.{
  ltb, leb, ◌==◌, if◌then◌else◌, ltb→lt, lt→ltb, leb→le, le→leb, ==_iff, tests, Bool-cases,
  Option-cases, Bytes, codes, str_eq, str_lt, str_eq_refl, str_eq_iff, str_lt_irrefl, str_lt_trans,
  str_lt_total, length, get_elem?, get_or, set, take, drop, replicate, is_empty, any, keep, count,
  length-append, length-take, length-drop, take-append-drop, drop-drop, length-set,
  length-replicate, length-keep-le, count-append, count-le-length, All, All-append, All-keep,
  Distinct, get_or-set, All-map, Distinct-snoc, map-snoc, ℕ, zero, suc, ◌+◌, ◌-◌, ◌*◌, ◌/◌, ◌^◌,
  ◌≤◌, min, max, ◌≡◌, refl, sym, ap, ap₂, subst, ◌∙◌, ◌≢◌, ◌↔◌, inl, inr, Bool, true, false, not,
  ◌&&◌, ◌||◌, Option, none, some, List, [], ◌∷◌, ◌++◌, map, append_assoc, append-nil, arith,
}
use open_crank.Prelude.Maps.{str_key}
use open_crank.RateLimiter.Types.{RateLimitResult}
use open_crank.RateLimiter.TokenBucket
use open_crank.RateLimiter.TokenBucket.{TokenBucket}
use open_crank.RateLimiter.TokenBucket.Laws.{serve_bound}
use open_crank.RateLimiter.SlidingWindow
use open_crank.RateLimiter.SlidingWindow.{SlidingWindow}
use open_crank.RateLimiter.SlidingWindow.Laws.{window_serve_bound, in_window}
use open_crank.RateLimiter.SlidingWindow.Retry.{window_retry_after_lem, allowed_at}
use open_crank.RateLimiter.Keyed
use open_crank.RateLimiter.Keyed.{
  KeyedRateLimiter, LimiterType, token_bucket, sliding_window, Readings,
}
use open_crank.RateLimiter.Keyed.Laws.{Checked, check-Checked}

-- A division that cuts off.
abbrev cut_off : ℕ → ℕ → ℕ
cut_off missing rate = missing / rate

-- Two tokens, and three a second.
abbrev two_tokens : TokenBucket
two_tokens = record {
  wait_of = cut_off;
  max_tokens = 2;
  refill_rate = 3;
  tokens = 2000;
  last_refill_ms = 1000;
}

serve_bound_example :
    (1000 * (TokenBucket.serve two_tokens (1000 ∷ 1001 ∷ 1002 ∷ 1500 ∷ [])).1
        + (TokenBucket.serve two_tokens (1000 ∷ 1001 ∷ 1002 ∷ 1500 ∷ [])).0.tokens
      ≤ two_tokens.tokens + (2000 - two_tokens.last_refill_ms) * two_tokens.refill_rate)
    × ((TokenBucket.serve two_tokens (1000 ∷ 1001 ∷ 1002 ∷ 1500 ∷ [])).0.tokens
        ≤ two_tokens.max_tokens * 1000)
serve_bound_example =
    serve_bound (1000 ∷ 1001 ∷ 1002 ∷ 1500 ∷ []) two_tokens 2000 (omega arith) (omega arith)
      (omega arith, (omega arith, (omega arith, (omega arith, tt))))

abbrev no_tokens : TokenBucket
no_tokens = record two_tokens { tokens = 0 }

abbrev requests : List (ℕ × ℕ)
requests = (1000, 1000) ∷ (1200, 1201) ∷ (1300, 1300) ∷ (2100, 2100) ∷ []

window_serve_bound_example :
    (new w : SlidingWindow) × (log : List ℕ) × (SlidingWindow.make 2 1 ≡ some new)
    × (SlidingWindow.serve new requests [] ≡ some (w, log))
    × (count (in_window (1 * 1000) 2200) log ≤ 2)
window_serve_bound_example =
    window_serve_bound 2 1 900 2200 requests (omega arith) (omega arith)
      (
        omega arith,
        omega arith,
        (omega arith, omega arith, (omega arith, omega arith, (omega arith, omega arith, tt))),
      )
      (omega arith)

abbrev full_window : SlidingWindow
full_window = record { max_requests = 2; window_ms = 1000; timestamps = 1000 ∷ 1100 ∷ [] }

abbrev refusal : RateLimitResult
refusal = record { allowed = false; retry_after_ms = 500; remaining = 0; limit = 2 }

window_refused_runs : SlidingWindow.try_acquire full_window 1500 1500 ≡ some (full_window, refusal)
unfolding SlidingWindow.try_acquire SlidingWindow.cleanup
window_refused_runs = refl

window_retry_after_lem_example :
    (2 ≤ refusal.retry_after_ms
      → allowed_at full_window (1500 + refusal.retry_after_ms) 2000 ≡ false)
    × (allowed_at full_window (1500 + refusal.retry_after_ms + 1) 2000 ≡ true)
window_retry_after_lem_example =
    window_retry_after_lem full_window full_window 1500 1500 2000 refusal (omega arith)
      (omega arith) window_refused_runs refl

abbrev keyed : KeyedRateLimiter
keyed = Keyed.make cut_off sliding_window 2 1

abbrev at : Readings
at = record { seconds = 1; created_ms = 1000; first_ms = 1000; second_ms = 1001 }

abbrev keyed_after : KeyedRateLimiter
keyed_after = record keyed {
  window_limiters =
      (codes "a", record { max_requests = 2; window_ms = 1000; timestamps = 1001 ∷ [] }) ∷ [];
  last_activity = (codes "a", 1) ∷ [];
}

abbrev granted : RateLimitResult
granted = record { allowed = true; retry_after_ms = 0; remaining = 1; limit = 2 }

check_runs : Keyed.check keyed (codes "a") at ≡ some (keyed_after, granted)
unfolding Keyed.check Keyed.check_by Keyed.window_limiter SlidingWindow.try_acquire
    SlidingWindow.cleanup SlidingWindow.make open_crank.Prelude.Maps.insert
    open_crank.Prelude.Maps.lookup
check_runs = refl

check-Checked_example : Checked keyed (codes "a") at keyed_after granted
check-Checked_example = check-Checked keyed keyed_after (codes "a") at granted check_runs
