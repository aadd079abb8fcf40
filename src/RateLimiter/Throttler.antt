-- ===== src/RateLimiter/Throttler.antt =====
-- `Throttler`. Times are in milliseconds; `now - last_action_ms_` may be negative in the source when
-- the clock goes back, so the comparison has the last action on the other side.
use open_crank.Prelude.{leb, if◌then◌else◌, ℕ, ◌+◌, ◌-◌, ◌≤◌, Bool, true, false, List, [], ◌∷◌}

pub record Throttler : Type 0 where
  pub min_interval_ms : ℕ
  pub last_action_ms : ℕ

abbrev pub make : ℕ → Throttler
make interval = record { min_interval_ms = interval; last_action_ms = 0 }

unfoldable pub should_proceed : Throttler → ℕ → Throttler × Bool
should_proceed t now =
    if leb (t.last_action_ms + t.min_interval_ms) now
    then (record t { last_action_ms = now }, true)
    else (t, false)

-- The milliseconds that `wait` sleeps at the reading `now`; a result of zero is no sleep.
unfoldable pub wait_time : Throttler → ℕ → ℕ
wait_time t now = t.last_action_ms + t.min_interval_ms - now

-- `wait` sleeps and then reads the clock again.
unfoldable pub wait : Throttler → ℕ → Throttler
wait t again = record t { last_action_ms = again }

unfoldable pub reset : Throttler → Throttler
reset t = record t { last_action_ms = 0 }

-- An attempt by `should_proceed`, or a `wait` with its second reading.
pub data Action : Type 0 where
  attempt : ℕ → Action
  waits : ℕ → ℕ → Action

-- The times at which actions went ahead, in order.
unfoldable pub actions : Throttler → List Action → List ℕ
actions t [] = []
actions t (attempt now ∷ rest) =
    let (t', proceed) = should_proceed t now in
    let later = actions t' rest in if proceed then now ∷ later else later
actions t (waits now again ∷ rest) = again ∷ actions (wait t again) rest

-- The clock does not run slow over a sleep: `again` is at least the sleep after `now`.
abbrev pub SleepsEnough : Throttler → List Action → Type 0
SleepsEnough t [] = Unit
SleepsEnough t (attempt now ∷ rest) = SleepsEnough (should_proceed t now).0 rest
SleepsEnough t (waits now again ∷ rest) =
    (now + wait_time t now ≤ again) × SleepsEnough (wait t again) rest

-- Each entry is at least `interval` after the one before, and the first after `last`.
abbrev pub Spaced : ℕ → ℕ → List ℕ → Type 0
Spaced interval last [] = Unit
Spaced interval last (t ∷ ts) = (last + interval ≤ t) × Spaced interval t ts
