-- ===== src/ThreadPool/Laws.antt =====
-- Where the tasks are, over every interleaving of the threads.
use open_crank.Prelude.{
  ◌==◌, if◌then◌else◌, Bool-cases, length, get_elem?, set, replicate, count, count-append, All,
  All-map, ℕ, zero, suc, ◌+◌, ◌≡◌, refl, ap, subst, inl, inr, Bool, true, false, none, some, List,
  [], ◌∷◌, ◌++◌, arith,
}
use open_crank.ThreadPool.{
  Worker, waiting, executing, returned, ThreadPool, make, enqueue, request_stop, take_task,
  finish_task, pending, Step, enqueues, stops, takes, finishes, Reachable, start, next,
}

-- How often a task stands in a list, and in the hands of the workers.
abbrev pub times : ℕ → List ℕ → ℕ
times t ts = count (λ u. u == t) ts

abbrev pub holds : ℕ → Worker → ℕ
holds t waiting = 0
holds t returned = 0
holds t (executing u) = if u == t then 1 else 0

abbrev pub held : ℕ → List Worker → ℕ
held t [] = 0
held t (w ∷ ws) = holds t w + held t ws

held-set :
    (t : ℕ) (ws : List Worker) (i : ℕ) (old new : Worker)
    → get_elem? ws i ≡ some old
    → held t (set ws i new) + holds t old ≡ held t ws + holds t new
held-set t [] i old new h = ground arith
held-set t (w ∷ ws) zero old new h =
    let e : holds t w ≡ holds t old = ap (λ o. elim o [ none ↦ 0 | some v ↦ holds t v ]) h in
    omega (arith, e)
held-set t (w ∷ ws) (suc i) old new h = omega (arith, held-set t ws i old new h)

held-replicate : (t n : ℕ) → held t (replicate n waiting) ≡ 0
held-replicate t zero = refl
held-replicate t (suc n) = omega (arith, held-replicate t n)

-- The accepted tasks are those in the queue, those in the hands of workers and those that ran.
abbrev pub Balanced : ℕ → ThreadPool → Type 0
Balanced t p = times t p.accepted ≡ times t p.tasks + held t p.workers + times t p.done

enqueue-Balanced : (t : ℕ) (p : ThreadPool) (task : ℕ) → Balanced t p → Balanced t (enqueue p task)
unfolding enqueue
enqueue-Balanced t p task h = elim (Bool-cases p.stop) [
  | inl e ↦ rw e h
  | inr e ↦
      let here = λ (l : List ℕ). count-append (λ u. u == t) l (task ∷ []) in
      rw e (omega (arith, here p.accepted, here p.tasks, h))
]

take_task-Balanced :
    (t : ℕ) (p : ThreadPool) (i : ℕ)
    → get_elem? p.workers i ≡ some waiting
    → Balanced t p
    → Balanced t (take_task p i)
unfolding take_task
take_task-Balanced t p i w h = by_tasks p.tasks refl
  where
    by_tasks : (l : List ℕ) → p.tasks ≡ l → Balanced t (take_task p i)
    by_tasks [] e = elim (Bool-cases p.stop) [
      | inl s ↦
          let swap = held-set t p.workers i waiting returned w in
          rw (e, s, take_task) (omega (arith, swap, h, ap (times t) e))
      | inr s ↦ rw (e, s, take_task) h
    ]
    by_tasks (task ∷ rest) e =
        let swap = held-set t p.workers i waiting (executing task) w in
        rw (e, take_task) (omega (arith, swap, h, ap (times t) e))

finish_task-Balanced :
    (t : ℕ) (p : ThreadPool) (i task : ℕ)
    → get_elem? p.workers i ≡ some (executing task)
    → Balanced t p
    → Balanced t (finish_task p i task)
unfolding finish_task
finish_task-Balanced t p i task w h =
    let swap = held-set t p.workers i (executing task) waiting w in
    omega (arith, swap, count-append (λ u. u == t) p.done (task ∷ []), h)

Step-Balanced : (t : ℕ) {p q : ThreadPool} → Step p q → Balanced t p → Balanced t q
unfolding request_stop
Step-Balanced t (enqueues p task) h = enqueue-Balanced t p task h
Step-Balanced t (stops p) h = ground (arith, h)
Step-Balanced t (takes p i w) h = take_task-Balanced t p i w h
Step-Balanced t (finishes p i task w) h = finish_task-Balanced t p i task w h

-- However the threads interleave, no accepted task is lost and none is run twice: each number stands
-- among the accepted tasks as often as in the queue, in the hands of the workers and among the tasks
-- that have run together.
pub Reachable-Balanced : (n : ℕ) (p : ThreadPool) → Reachable n p → (t : ℕ) → Balanced t p
unfolding make
Reachable-Balanced n _ start t = omega (arith, held-replicate t n)
Reachable-Balanced n _ (next r s) t = Step-Balanced t s (Reachable-Balanced n _ r t)

-- A worker that has returned leaves the pool stopped and the queue empty.
abbrev pub Settled : Bool → List ℕ → Worker → Type 0
Settled stop tasks waiting = Unit
Settled stop tasks (executing t) = Unit
Settled stop tasks returned = (stop ≡ true) × (tasks ≡ [])

All-set {ℓ κ} :
    {A : Type ℓ} (P : A → Type κ) (xs : List A) (i : ℕ) (v : A)
    → All P xs
    → P v
    → All P (set xs i v)
All-set P [] i v h hv = tt
All-set P (x ∷ xs) zero v (hx, h) hv = (hv, h)
All-set P (x ∷ xs) (suc i) v (hx, h) hv = (hx, All-set P xs i v h hv)

All-replicate {ℓ κ} : {A : Type ℓ} (P : A → Type κ) (n : ℕ) (v : A) → P v → All P (replicate n v)
All-replicate P zero v hv = tt
All-replicate P (suc n) v hv = (hv, All-replicate P n v hv)

abbrev pub AllSettled : ThreadPool → Type 0
AllSettled p = All (Settled p.stop p.tasks) p.workers

-- As long as the pool is not both stopped and out of tasks, no worker has returned.
still_running :
    (stop stop' : Bool) (tasks tasks' : List ℕ)
    → ((stop ≡ true) × (tasks ≡ []) → (stop' ≡ true) × (tasks' ≡ []))
    → (ws : List Worker) → All (Settled stop tasks) ws
    → All (Settled stop' tasks') ws
still_running stop stop' tasks tasks' f ws h =
    All-map (Settled stop tasks) (Settled stop' tasks') each ws h
  where
    each : (w : Worker) → Settled stop tasks w → Settled stop' tasks' w
    each waiting k = tt
    each (executing t) k = tt
    each returned k = f k

enqueue-AllSettled : (p : ThreadPool) (task : ℕ) → AllSettled p → AllSettled (enqueue p task)
unfolding enqueue
enqueue-AllSettled p task h = elim (Bool-cases p.stop) [
  | inl s ↦
      rw (s, enqueue) (still_running p.stop true p.tasks p.tasks (λ r. (refl, r.1)) p.workers h)
  | inr s ↦
      let f : (p.stop ≡ true) × (p.tasks ≡ []) → (false ≡ true) × (p.tasks ++ task ∷ [] ≡ []) =
        λ r. absurd (ground arith) in
      rw (s, enqueue) (still_running p.stop false p.tasks (p.tasks ++ task ∷ []) f p.workers h)
]

request_stop-AllSettled : (p : ThreadPool) → AllSettled p → AllSettled (request_stop p)
unfolding request_stop
request_stop-AllSettled p h = elim (Bool-cases p.stop) [
  | inl s ↦
      rw (s, request_stop)
        (still_running p.stop true p.tasks p.tasks (λ r. (refl, r.1)) p.workers h)
  | inr s ↦
      let f : (p.stop ≡ true) × (p.tasks ≡ []) → (true ≡ true) × (p.tasks ≡ []) =
        λ r. (refl, r.1) in
      rw (s, request_stop) (still_running p.stop true p.tasks p.tasks f p.workers h)
]

take_task-AllSettled : (p : ThreadPool) (i : ℕ) → AllSettled p → AllSettled (take_task p i)
unfolding take_task
take_task-AllSettled p i h = by_tasks p.tasks refl
  where
    by_tasks : (l : List ℕ) → p.tasks ≡ l → AllSettled (take_task p i)
    by_tasks [] e = elim (Bool-cases p.stop) [
      | inl s ↦
          let stopped = still_running p.stop true p.tasks p.tasks (λ r. (refl, r.1)) p.workers h in
          rw (e, s, take_task)
            (All-set (Settled true p.tasks) p.workers i returned stopped (refl, e))
      | inr s ↦
          let impossible : (p.stop ≡ true) × (p.tasks ≡ []) → (false ≡ true) × (p.tasks ≡ []) =
            λ r. absurd (ground arith) in
          rw (e, s, take_task) (still_running p.stop false p.tasks p.tasks impossible p.workers h)
    ]
    by_tasks (task ∷ rest) e =
        let f : (p.stop ≡ true) × (p.tasks ≡ []) → (p.stop ≡ true) × (rest ≡ []) =
          λ r. absurd (ground arith) in
        let others = still_running p.stop p.stop p.tasks rest f p.workers h in
        rw (e, take_task) (All-set (Settled p.stop rest) p.workers i (executing task) others tt)

Step-AllSettled : {p q : ThreadPool} → Step p q → AllSettled p → AllSettled q
unfolding finish_task
Step-AllSettled (enqueues p task) h = enqueue-AllSettled p task h
Step-AllSettled (stops p) h = request_stop-AllSettled p h
Step-AllSettled (takes p i w) h = take_task-AllSettled p i h
Step-AllSettled (finishes p i task w) h = All-set (Settled p.stop p.tasks) p.workers i waiting h tt

Reachable-AllSettled : (n : ℕ) (p : ThreadPool) → Reachable n p → AllSettled p
unfolding make
Reachable-AllSettled n _ start = All-replicate (Settled false []) n waiting tt
Reachable-AllSettled n _ (next r s) = Step-AllSettled s (Reachable-AllSettled n _ r)

held_returned : (t : ℕ) (ws : List Worker) → All (λ w. w ≡ returned) ws → held t ws ≡ 0
held_returned t [] h = refl
held_returned t (w ∷ ws) (e, h) = omega (arith, held_returned t ws h, ap (holds t) e)

first-Settled :
    (stop : Bool) (tasks : List ℕ) (ws : List Worker)
    → get_elem? ws 0 ≡ some returned
    → All (Settled stop tasks) ws
    → (stop ≡ true) × (tasks ≡ [])
first-Settled stop tasks [] e h = absurd (ground arith)
first-Settled stop tasks (w ∷ ws) e (hw, h) =
    let same : w ≡ returned = ap (λ o. elim o [ none ↦ waiting | some v ↦ v ]) e in
    subst (Settled stop tasks) same hw

-- When every worker of a pool that has one has returned, as after the joins of `shutdown`, the pool
-- is stopped, no task is pending, and each accepted task has run exactly as often as it was
-- accepted.
pub returned_lem :
    (n : ℕ) (p : ThreadPool)
    → Reachable n p
    → All (λ w. w ≡ returned) p.workers
    → get_elem? p.workers 0 ≡ some returned
    → (p.stop ≡ true) × (pending p ≡ 0) × ((t : ℕ) → times t p.accepted ≡ times t p.done)
unfolding pending
returned_lem n p r h first =
    let (stopped, empty) =
      first-Settled p.stop p.tasks p.workers first (Reachable-AllSettled n p r) in
    (
      stopped,
      ap length empty,
      λ t.
          let b = Reachable-Balanced n p r t in
          omega (arith, b, held_returned t p.workers h, ap (times t) empty),
    )
