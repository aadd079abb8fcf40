-- ===== src/ThreadPool.antt =====
-- The thread pool of src/core/thread_pool.cpp: a shared state under a mutex, and the workers'
-- program counters. One step is one critical section or one execution of a task; a wait that is
-- notified too early takes no step.
pub mod Laws
use open_crank.Prelude.{
  if◌then◌else◌, length, get_elem?, set, replicate, ℕ, ◌≡◌, Bool, true, false, some, List, [], ◌∷◌,
  ◌++◌,
}

-- Where a worker stands: at the wait, executing the task that it took, or past its return.
pub data Worker : Type 0 where
  waiting : Worker
  executing : ℕ → Worker
  returned : Worker

-- `tasks` is the queue, a task written as a number. Two lists are kept for the statements alone:
-- `accepted` has the tasks that `enqueue` pushed, and `done` those that have run, in the order in
-- which they ended.
pub record ThreadPool : Type 0 where
  pub workers : List Worker
  pub tasks : List ℕ
  pub stop : Bool
  pub accepted : List ℕ
  pub done : List ℕ

unfoldable pub make : ℕ → ThreadPool
make num_threads = record {
  workers = replicate num_threads waiting;
  tasks = [];
  stop = false;
  accepted = [];
  done = [];
}

unfoldable pub enqueue : ThreadPool → ℕ → ThreadPool
enqueue p task =
    if p.stop
    then p
    else record p { tasks = p.tasks ++ task ∷ []; accepted = p.accepted ++ task ∷ [] }

unfoldable pub pending : ThreadPool → ℕ
pending p = length p.tasks

-- The first part of `shutdown`, under the lock.
unfoldable pub request_stop : ThreadPool → ThreadPool
request_stop p = if p.stop then p else record p { stop = true }

-- The critical section of `worker`: it goes on when the pool is stopped or a task is there, and
-- returns when it is stopped and none is.
unfoldable pub take_task : ThreadPool → ℕ → ThreadPool
take_task p i = elim p.tasks [
  | [] ↦ if p.stop then record p { workers = set p.workers i returned } else p
  | task ∷ rest ↦ record p { workers = set p.workers i (executing task); tasks = rest }
]

-- The end of a task, whether it returned or threw.
unfoldable pub finish_task : ThreadPool → ℕ → ℕ → ThreadPool
finish_task p i task = record p { workers = set p.workers i waiting; done = p.done ++ task ∷ [] }

-- One step of some thread.
pub data Step : ThreadPool → ThreadPool → Type 0 where
  enqueues : (p : ThreadPool) (task : ℕ) → Step p (enqueue p task)
  stops : (p : ThreadPool) → Step p (request_stop p)
  takes : (p : ThreadPool) (i : ℕ) → get_elem? p.workers i ≡ some waiting → Step p (take_task p i)
  finishes :
      (p : ThreadPool) (i task : ℕ)
      → get_elem? p.workers i ≡ some (executing task)
      → Step p (finish_task p i task)

-- What a pool of so many threads can come to.
pub data Reachable (num_threads : ℕ) : ThreadPool → Type 0 where
  start : Reachable num_threads (make num_threads)
  next : {p q : ThreadPool} → Reachable num_threads p → Step p q → Reachable num_threads q
