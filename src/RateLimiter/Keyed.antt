-- ===== src/RateLimiter/Keyed.antt =====
-- `KeyedRateLimiter`: one limiter of its type for each key.
pub mod Laws
use open_crank.Prelude.{ltb, Bytes, length, ℕ, ◌+◌, Bool, Option, none, some, List, [], ◌∷◌}
use open_crank.Prelude.Maps.{Map, Key, str_key, lookup, contains, insert, erase}
use open_crank.Prelude.Maps.Order.{keys_where}
use open_crank.RateLimiter.Types.{RateLimitResult}
use open_crank.RateLimiter.TokenBucket
use open_crank.RateLimiter.TokenBucket.{TokenBucket}
use open_crank.RateLimiter.SlidingWindow
use open_crank.RateLimiter.SlidingWindow.{SlidingWindow}

pub data LimiterType : Type 0 where
  token_bucket sliding_window : LimiterType

-- `wait_of` is that of the token buckets.
pub record KeyedRateLimiter : Type 0 where
  pub wait_of : ℕ → ℕ → ℕ
  pub type : LimiterType
  pub limit : ℕ
  pub window_or_rate : ℕ
  pub token_limiters : Map Bytes TokenBucket
  pub window_limiters : Map Bytes SlidingWindow
  pub last_activity : Map Bytes ℕ

-- The clock readings of one `check`: seconds for the activity, then milliseconds for a new limiter and
-- for the request, where a sliding window reads twice.
pub record Readings : Type 0 where
  pub seconds : ℕ
  pub created_ms : ℕ
  pub first_ms : ℕ
  pub second_ms : ℕ

abbrev pub make : (ℕ → ℕ → ℕ) → LimiterType → ℕ → ℕ → KeyedRateLimiter
make wait_of type limit window_or_rate = record {
  wait_of = wait_of;
  type = type;
  limit = limit;
  window_or_rate = window_or_rate;
  token_limiters = [];
  window_limiters = [];
  last_activity = [];
}

-- `try_emplace`: the limiter of the key, or a new one.
unfoldable pub token_limiter : KeyedRateLimiter → Bytes → ℕ → TokenBucket
token_limiter k key created = elim (lookup key k.token_limiters) [
  | none ↦ TokenBucket.make k.wait_of k.limit k.window_or_rate created
  | some b ↦ b
]

-- A new window can overflow, `none`.
unfoldable pub window_limiter : KeyedRateLimiter → Bytes → Option SlidingWindow
window_limiter k key = elim (lookup key k.window_limiters) [
  | none ↦ SlidingWindow.make k.limit k.window_or_rate
  | some w ↦ some w
]

abbrev pub try_window : Option SlidingWindow → Readings → Option (SlidingWindow × RateLimitResult)
try_window none at = none
try_window (some w) at = SlidingWindow.try_acquire w at.first_ms at.second_ms

unfoldable pub check_by :
    LimiterType → KeyedRateLimiter → Bytes → Readings → Option (KeyedRateLimiter × RateLimitResult)
check_by token_bucket k key at =
    let (b, r) = TokenBucket.try_acquire (token_limiter k key at.created_ms) at.first_ms in
    some (record k { token_limiters = insert key b k.token_limiters }, r)
check_by sliding_window k key at = elim (try_window (window_limiter k key) at) [
  | none ↦ none
  | some (w, r) ↦ some (record k { window_limiters = insert key w k.window_limiters }, r)
]

unfoldable pub check :
    KeyedRateLimiter → Bytes → Readings → Option (KeyedRateLimiter × RateLimitResult)
check k key at =
    check_by k.type (record k { last_activity = insert key at.seconds k.last_activity }) key at

unfoldable pub reset_by : LimiterType → KeyedRateLimiter → Bytes → KeyedRateLimiter
reset_by token_bucket k key = record k { token_limiters = erase key k.token_limiters }
reset_by sliding_window k key = record k { window_limiters = erase key k.window_limiters }

unfoldable pub reset : KeyedRateLimiter → Bytes → KeyedRateLimiter
unfolding reset_by
reset k key =
    let k' = reset_by k.type k key in record k' { last_activity = erase key k'.last_activity }

unfoldable pub reset_all : KeyedRateLimiter → KeyedRateLimiter
reset_all k = record k { token_limiters = []; window_limiters = []; last_activity = [] }

-- `now - it->second > max_age_seconds`.
abbrev pub is_stale : ℕ → ℕ → ℕ → Bool
is_stale max_age now last = ltb (last + max_age) now

unfoldable pub reset_keys : KeyedRateLimiter → List Bytes → ℕ → KeyedRateLimiter × ℕ
reset_keys k [] removed = (k, removed)
reset_keys k (key ∷ keys) removed = reset_keys (reset k key) keys (removed + 1)

unfoldable pub cleanup : KeyedRateLimiter → ℕ → ℕ → KeyedRateLimiter × ℕ
unfolding reset_keys
cleanup k max_age now = reset_keys k (keys_where (is_stale max_age now) k.last_activity) 0

abbrev count_by : LimiterType → KeyedRateLimiter → ℕ
count_by token_bucket k = length k.token_limiters
count_by sliding_window k = length k.window_limiters

unfoldable pub key_count : KeyedRateLimiter → ℕ
key_count k = count_by k.type k
