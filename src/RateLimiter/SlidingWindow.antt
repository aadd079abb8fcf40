-- ===== src/RateLimiter/SlidingWindow.antt =====
-- `SlidingWindowLimiter`. A time is in milliseconds; `now - window_ms_` may be negative in the source,
-- so its comparisons are written with the window on the other side.
pub mod Laws
pub mod Retry
use open_crank.Prelude.{
  ltb, if◌then◌else◌, length, ℕ, ◌+◌, ◌-◌, ◌*◌, max, Option, none, some, List, [], ◌∷◌, ◌++◌,
}
use open_crank.RateLimiter.Types.{RateLimitResult, allow, deny}

-- The front of the deque comes first.
pub record SlidingWindow : Type 0 where
  pub max_requests : ℕ
  pub window_ms : ℕ
  pub timestamps : List ℕ

-- The bound of an `int`.
abbrev pub int_bound : ℕ
int_bound = 2147483648

-- `window_seconds * 1000` is a product of `int`; its overflow, from about 24.8 days on, is undefined
-- behaviour: `none`.
unfoldable pub make : ℕ → ℕ → Option SlidingWindow
make max_requests window_seconds =
    if ltb (window_seconds * 1000) int_bound
    then some
        (record { max_requests = max_requests; window_ms = window_seconds * 1000; timestamps = [] })
    else none

-- `while (!empty() && front() < now - window) pop_front();`
unfoldable pub drop_old : ℕ → ℕ → List ℕ → List ℕ
drop_old window now [] = []
drop_old window now (t ∷ ts) = if ltb (t + window) now then drop_old window now ts else t ∷ ts

unfoldable pub cleanup : SlidingWindow → ℕ → SlidingWindow
unfolding drop_old
cleanup w now = record w { timestamps = drop_old w.window_ms now w.timestamps }

-- The request at the front, if there is one, decides the wait. On an empty deque `front()` is undefined
-- behaviour: `none`.
unfoldable pub refuse : SlidingWindow → List ℕ → ℕ → Option (SlidingWindow × RateLimitResult)
refuse w [] now = none
refuse w (oldest ∷ rest) now = some (w, deny (max (oldest + w.window_ms - now) 1) w.max_requests)

-- The clock is read in `cleanup` and once again after it.
unfoldable pub try_acquire : SlidingWindow → ℕ → ℕ → Option (SlidingWindow × RateLimitResult)
unfolding refuse
try_acquire w cleaned now =
    let w' = cleanup w cleaned in
    let current = length w'.timestamps in
    if ltb current w'.max_requests
    then some (
      record w' { timestamps = w'.timestamps ++ now ∷ [] },
      allow (w'.max_requests - current - 1) w'.max_requests,
    )
    else refuse w' w'.timestamps now

unfoldable pub current_count : SlidingWindow → ℕ → ℕ
current_count w now = length (cleanup w now).timestamps

unfoldable pub reset : SlidingWindow → SlidingWindow
reset w = record w { timestamps = [] }

-- Requests with their two clock readings, and the log of those that were allowed, oldest first.
unfoldable pub serve : SlidingWindow → List (ℕ × ℕ) → List ℕ → Option (SlidingWindow × List ℕ)
serve w [] log = some (w, log)
serve w ((cleaned, now) ∷ rest) log = elim (try_acquire w cleaned now) [
  | none ↦ none
  | some (w', r) ↦ serve w' rest (if r.allowed then log ++ now ∷ [] else log)
]
