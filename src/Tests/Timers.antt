-- ===== src/Tests/Timers.antt =====
-- The theorems on the debouncer, the throttler, the typing indicator and the heartbeats.
use open_crank.Prelude.{codes, str_eq, ◌+◌, ◌≤◌, ◌<◌, ◌≡◌, refl, true, false, List, [], ◌∷◌, arith}
use open_crank.Prelude.Maps.{str_key, lookup, contains, insert}
use open_crank.Prelude.Maps.Order.{erase_all, keys_where}
use open_crank.RateLimiter.Debouncer
use open_crank.RateLimiter.Debouncer.{Debouncer}
use open_crank.RateLimiter.Debouncer.Laws.{should_process_lem}
use open_crank.RateLimiter.Throttler
use open_crank.RateLimiter.Throttler.{Throttler, Action, attempt, waits}
use open_crank.RateLimiter.Typing
use open_crank.RateLimiter.Typing.{
  TypingIndicator, should_send_typing, should_send_typing_lem, Call, stops, asks, starts, sets,
  set_interval,
}

abbrev empty_debouncer : Debouncer
empty_debouncer = Debouncer.make 10

process_runs : (Debouncer.should_process empty_debouncer (codes "m") 100 100).1 ≡ true
unfolding Debouncer.should_process Debouncer.cleanup contains erase_all keys_where
process_runs = refl

should_process_lem_example :
    let after =
      Debouncer.feed
        (Debouncer.should_process empty_debouncer (codes "m") 100 100).0
        ((codes "n", (105, 105)) ∷ []) in
    (109 ≤ 100 + 10 → (Debouncer.should_process after (codes "m") 109 109).1 ≡ false)
    × (100 + 10 < 109 → (Debouncer.should_process after (codes "m") 109 109).1 ≡ true)
should_process_lem_example =
    should_process_lem empty_debouncer (codes "m") 100 100 ((codes "n", (105, 105)) ∷ []) 109 109 tt
      process_runs (omega arith, tt)

abbrev throttle : Throttler
throttle = record { min_interval_ms = 50; last_action_ms = 1000 }

abbrev moves : List Action
moves = attempt 1020 ∷ attempt 1060 ∷ waits 1070 1115 ∷ []

abbrev typing_a : TypingIndicator
typing_a = record { interval_ms = 5000; last_typing = []; is_typing = (codes "a", true) ∷ [] }

send_runs : (should_send_typing typing_a (codes "a") 7000).1 ≡ true
unfolding should_send_typing lookup str_eq
send_runs = refl

-- The second send comes too early, and then the interval is set to three seconds.
abbrev between : List Call
between = asks (codes "a") 9000 ∷ sets 3000 ∷ []

send_again_runs :
    (should_send_typing
      (Typing.run (should_send_typing typing_a (codes "a") 7000).0 between)
      (codes "a")
      10500).1
    ≡ true
unfolding should_send_typing set_interval Typing.run Typing.step lookup insert str_eq
send_again_runs = refl

should_send_typing_lem_example :
    let after = Typing.run (should_send_typing typing_a (codes "a") 7000).0 between in
    (Typing.typing typing_a (codes "a") ≡ true)
    × (Typing.typing after (codes "a") ≡ true)
    × (7000 + after.interval_ms ≤ 10500)
should_send_typing_lem_example =
    should_send_typing_lem typing_a (codes "a") 7000 10500 between send_runs send_again_runs
