-- ===== src/Tests/ThreadPool.antt =====
-- The theorems on the thread pool, for one worker that runs one task and returns.
use open_crank.Prelude.{ℕ, ◌≡◌, refl, true, [], ◌∷◌}
use open_crank.ThreadPool.{
  returned, ThreadPool, make, enqueue, request_stop, take_task, finish_task, pending, Reachable,
  start, next, enqueues, stops, takes, finishes,
}
use open_crank.ThreadPool.Laws.{times, Balanced, Reachable-Balanced, returned_lem}

abbrev final : ThreadPool
final = record {
  workers = returned ∷ [];
  tasks = [];
  stop = true;
  accepted = 7 ∷ [];
  done = 7 ∷ [];
}

final-Reachable : Reachable 1 final
unfolding make enqueue request_stop take_task finish_task
final-Reachable =
    next
      (next (next (next (next start (enqueues (make 1) 7)) (stops _)) (takes _ 0 refl))
        (finishes _ 0 7 refl))
      (takes _ 0 refl)

Reachable-Balanced_example : Balanced 7 final
Reachable-Balanced_example = Reachable-Balanced 1 final final-Reachable 7

returned_lem_example :
    (final.stop ≡ true)
    × (pending final ≡ 0)
    × ((t : ℕ) → times t final.accepted ≡ times t final.done)
returned_lem_example = returned_lem 1 final final-Reachable (refl, tt) refl
