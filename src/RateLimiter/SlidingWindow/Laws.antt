-- ===== src/RateLimiter/SlidingWindow/Laws.antt =====
-- How many requests a sliding window allows, and when.
use open_crank.Prelude.{
  ltb, leb, if◌then◌else◌, ltb→lt, lt→ltb, Bool-cases, length, count, length-append, count-append,
  count-le-length, All, All-append, All-map, ℕ, ◌+◌, ◌-◌, ◌*◌, ◌≤◌, ◌<◌, max, ◌≡◌, refl, sym, ap,
  subst, ◌∙◌, ◌⊎◌, inl, inr, Bool, some, List, [], ◌∷◌, ◌++◌, append_assoc, arith,
}
use open_crank.RateLimiter.Types.{RateLimitResult, allow, deny}
use open_crank.RateLimiter.SlidingWindow.{
  SlidingWindow, int_bound, make, drop_old, cleanup, try_acquire, serve,
}

-- Clock readings that never go back.
abbrev pub Rises : ℕ → List (ℕ × ℕ) → Type 0
Rises last [] = Unit
Rises last ((cleaned, now) ∷ rest) = (last ≤ cleaned) × (cleaned ≤ now) × Rises now rest

-- The last reading of a history.
abbrev pub last_reading : ℕ → List (ℕ × ℕ) → ℕ
last_reading last [] = last
last_reading last ((cleaned, now) ∷ rest) = last_reading now rest

abbrev Gone : ℕ → ℕ → ℕ → Type 0
Gone window now t = t + window < now

-- Not yet `window` and a millisecond ago at the time `now`.
abbrev pub in_window : ℕ → ℕ → ℕ → Bool
in_window window now t = leb now (t + window)

-- What the deque says of the log: it is the log without old requests, and it is never too long.
record Holds (w : SlidingWindow) (log : List ℕ) (now : ℕ) : Type 0 where
  old : List ℕ
  whole : log ≡ old ++ w.timestamps
  gone : All (Gone w.window_ms now) old
  bounded : length w.timestamps ≤ w.max_requests

drop_old_split :
    (window now : ℕ) (ts : List ℕ)
    → (old : List ℕ) × (ts ≡ old ++ drop_old window now ts) × All (Gone window now) old
unfolding drop_old
drop_old_split window now [] = ([], refl, tt)
drop_old_split window now (t ∷ ts) = elim (Bool-cases (ltb (t + window) now)) [
  | inl e ↦
      let (old, whole, gone) = drop_old_split window now ts in
      (t ∷ old, rw e (ap (◌∷◌ t) whole), (ltb→lt (t + window) now e, gone))
  | inr e ↦ ([], rw e, tt)
]

pub length-drop_old : (window now : ℕ) (ts : List ℕ) → length (drop_old window now ts) ≤ length ts
unfolding drop_old
length-drop_old window now [] = omega arith
length-drop_old window now (t ∷ ts) = ground (arith, length-drop_old window now ts)

cleanup-Holds :
    (w : SlidingWindow) (log : List ℕ) (last now : ℕ)
    → last ≤ now
    → Holds w log last
    → Holds (cleanup w now) log now
unfolding cleanup
cleanup-Holds w log last now le h =
    let (old, whole, gone) = drop_old_split w.window_ms now w.timestamps in
    record {
      old = h.old ++ old;
      whole = h.whole ∙ ap (◌++◌ h.old) whole ∙ sym (append_assoc h.old old _);
      gone =
          All-append (Gone w.window_ms now) h.old old
            (All-map (Gone w.window_ms last) (Gone w.window_ms now) (λ t p. omega arith) h.old
              h.gone)
            gone;
      bounded = omega (arith, h.bounded, length-drop_old w.window_ms now w.timestamps);
    }

-- A request is allowed and logged, or refused; only with a limit of zero can it fault.
abbrev pub Answer : SlidingWindow → ℕ → ℕ → Type 0
Answer w cleaned now =
    let c = cleanup w cleaned in
    ((length c.timestamps < c.max_requests)
      × (try_acquire w cleaned now
          ≡ some (
            record c { timestamps = c.timestamps ++ now ∷ [] },
            allow (c.max_requests - length c.timestamps - 1) c.max_requests,
          )))
    ⊎ ((oldest : ℕ) × (rest : List ℕ) × (c.timestamps ≡ oldest ∷ rest)
        × (c.max_requests ≤ length c.timestamps)
        × (try_acquire w cleaned now
            ≡ some (c, deny (max (oldest + c.window_ms - now) 1) c.max_requests)))

Answer-by :
    (w : SlidingWindow) (cleaned now : ℕ) (ts : List ℕ)
    → 0 < w.max_requests
    → (cleanup w cleaned).timestamps ≡ ts
    → Answer w cleaned now
unfolding try_acquire cleanup
Answer-by w cleaned now [] p e = inl (ground arith, ground arith)
Answer-by w cleaned now (oldest ∷ rest) p e =
    elim (Bool-cases (ltb (length (drop_old w.window_ms cleaned w.timestamps)) w.max_requests)) [
      | inl room ↦ inl (ltb→lt _ _ room, rw room)
      | inr full ↦ inr (oldest, rest, e, ground arith, rw (full, e))
    ]

pub answer : (w : SlidingWindow) (cleaned now : ℕ) → 0 < w.max_requests → Answer w cleaned now
answer w cleaned now p = Answer-by w cleaned now (cleanup w cleaned).timestamps p refl

-- One request keeps the deque in step with the log.
serve_step :
    (w w' : SlidingWindow) (r : RateLimitResult) (log : List ℕ) (last cleaned now : ℕ)
    → 0 < w.max_requests
    → last ≤ cleaned
    → cleaned ≤ now
    → Holds w log last
    → try_acquire w cleaned now ≡ some (w', r)
    → Holds w' (if r.allowed then log ++ now ∷ [] else log) now
      × (w'.max_requests ≡ w.max_requests)
      × (w'.window_ms ≡ w.window_ms)
serve_step w w' r log last cleaned now p le le' h e = elim (answer w cleaned now p) [
  | inl (room, g) ↦
      let same = some_pair w cleaned now _ _ (sym g ∙ e) in
      subst (λ (x : SlidingWindow × RateLimitResult). Kept x) same
        (
          record {
            old = c.old;
            whole = ap (λ (l : List ℕ). l ++ now ∷ []) c.whole ∙ append_assoc c.old ts (now ∷ []);
            gone = aged;
            bounded = omega (arith, length-append ts (now ∷ []), room);
          },
          unfold cleanup in refl,
          unfold cleanup in refl,
        )
  | inr (oldest, rest, _, full, g) ↦
      let same = some_pair w cleaned now _ _ (sym g ∙ e) in
      subst (λ (x : SlidingWindow × RateLimitResult). Kept x) same
        (
          record { old = c.old; whole = c.whole; gone = aged; bounded = c.bounded },
          unfold cleanup in refl,
          unfold cleanup in refl,
        )
]
  where
    c : Holds (cleanup w cleaned) log cleaned
    c = cleanup-Holds w log last cleaned le h

    ts : List ℕ
    ts = (cleanup w cleaned).timestamps

    aged : All (Gone (cleanup w cleaned).window_ms now) c.old
    aged =
        All-map (Gone (cleanup w cleaned).window_ms cleaned)
          (Gone (cleanup w cleaned).window_ms now) (λ t q. omega arith) c.old c.gone

    Kept : SlidingWindow × RateLimitResult → Type 0
    Kept x =
        Holds x.0 (if x.1.allowed then log ++ now ∷ [] else log) now
        × (x.0.max_requests ≡ w.max_requests)
        × (x.0.window_ms ≡ w.window_ms)

    some_pair :
        (v : SlidingWindow) (a b : ℕ) (x y : SlidingWindow × RateLimitResult)
        → some x ≡ some y
        → x ≡ y
    some_pair v a b x y q = cc

module _ (w : SlidingWindow) where
  Served : List (ℕ × ℕ) → List ℕ → ℕ → Type 0
  Served rs log last =
      (w' : SlidingWindow) × (log' : List ℕ) × (serve w rs log ≡ some (w', log'))
      × Holds w' log' (last_reading last rs)
      × (w'.max_requests ≡ w.max_requests)
      × (w'.window_ms ≡ w.window_ms)

answered :
    (w : SlidingWindow) (cleaned now : ℕ)
    → 0 < w.max_requests
    → (w' : SlidingWindow) × (r : RateLimitResult) × (try_acquire w cleaned now ≡ some (w', r))
answered w cleaned now p = elim (answer w cleaned now p) [
  | inl (room, g) ↦ (_, _, g)
  | inr (oldest, rest, e, full, g) ↦ (_, _, g)
]

serve_lem :
    (rs : List (ℕ × ℕ)) (w : SlidingWindow) (log : List ℕ) (last : ℕ)
    → 0 < w.max_requests
    → Rises last rs
    → Holds w log last
    → Served w rs log last
unfolding serve Served
serve_lem [] w log last p rise h = (w, log, refl, h, refl, refl)
serve_lem ((cleaned, now) ∷ rs) w log last p (le, le', rise) h =
    let (w1, r, e) = answered w cleaned now p in
    let (h1, m1, n1) = serve_step w w1 r log last cleaned now p le le' h e in
    let log1 = if r.allowed then log ++ now ∷ [] else log in
    let (w2, log2, e2, h2, m2, n2) = serve_lem rs w1 log1 now (omega (arith, m1)) rise h1 in
    (w2, log2, rw (e, serve) e2, h2, m2 ∙ m1, n2 ∙ n1)

old_count :
    (window now moment : ℕ) (old : List ℕ)
    → now ≤ moment
    → All (Gone window now) old
    → count (in_window window moment) old ≡ 0
old_count window now moment [] le h = refl
old_count window now moment (t ∷ old) le (g, h) =
    ground (arith, old_count window now moment old le h)

-- A window in seconds whose milliseconds fit an `int`: then a new limiter can be made. Over any history
-- of requests whose clock readings never go back, it answers every request, provided that its limit is
-- positive; and at every moment from the last reading on, at most `max_requests` of the requests that
-- it allowed lie within the window before that moment.
pub window_serve_bound :
    (max_requests window_seconds start moment : ℕ) (rs : List (ℕ × ℕ))
    → 0 < max_requests
    → window_seconds * 1000 < int_bound
    → Rises start rs
    → last_reading start rs ≤ moment
    → (new w : SlidingWindow) × (log : List ℕ) × (make max_requests window_seconds ≡ some new)
      × (serve new rs [] ≡ some (w, log))
      × (count (in_window (window_seconds * 1000) moment) log ≤ max_requests)
unfolding make Served
window_serve_bound max_requests window_seconds start moment rs p fits rise le =
    let w0 : SlidingWindow = record {
      max_requests = max_requests;
      window_ms = window_seconds * 1000;
      timestamps = [];
    } in
    let (w, log, e, h, m, n) =
      serve_lem rs w0 [] start p rise
        (record { old = []; whole = refl; gone = tt; bounded = omega arith }) in
    let inside = in_window (window_seconds * 1000) moment in
    let none_old : count inside h.old ≡ 0 =
      old_count (window_seconds * 1000) (last_reading start rs) moment h.old le
        (subst (λ k. All (Gone k (last_reading start rs)) h.old) n h.gone) in
    (
      w0,
      w,
      log,
      rw (lt→ltb _ _ fits) refl,
      e,
      omega (
        arith,
        ap (count inside) h.whole,
        count-append inside h.old w.timestamps,
        count-le-length inside w.timestamps,
        h.bounded,
        none_old,
        m,
      ),
    )
