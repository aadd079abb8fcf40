-- ===== src/RateLimiter/SlidingWindow/Retry.antt =====
-- The wait that a sliding window announces.
use open_crank.Prelude.{
  length, ℕ, ◌+◌, ◌-◌, ◌≤◌, ◌<◌, max, ◌≡◌, refl, inl, inr, Bool, true, false, none, some, List, ◌∷◌,
  arith,
}
use open_crank.RateLimiter.Types.{RateLimitResult, deny}
use open_crank.RateLimiter.SlidingWindow.{SlidingWindow, drop_old, cleanup, try_acquire}
use open_crank.RateLimiter.SlidingWindow.Laws.{answer, length-drop_old}

-- Whether a request at these readings is allowed.
abbrev pub allowed_at : SlidingWindow → ℕ → ℕ → Bool
allowed_at w cleaned now = elim (try_acquire w cleaned now) [
  | none ↦ false
  | some (w', r) ↦ r.allowed
]

still_full :
    (w : SlidingWindow) (cleaned now oldest : ℕ) (rest : List ℕ)
    → w.timestamps ≡ oldest ∷ rest
    → w.max_requests ≤ length w.timestamps
    → cleaned ≤ oldest + w.window_ms
    → allowed_at w cleaned now ≡ false
unfolding try_acquire cleanup drop_old
still_full w cleaned now oldest rest e full le = rw e (ground arith)

room_again :
    (w : SlidingWindow) (cleaned now oldest : ℕ) (rest : List ℕ)
    → w.timestamps ≡ oldest ∷ rest
    → length w.timestamps ≤ w.max_requests
    → oldest + w.window_ms < cleaned
    → allowed_at w cleaned now ≡ true
unfolding try_acquire cleanup drop_old
room_again w cleaned now oldest rest e fits lt =
    rw e (ground (arith, length-drop_old w.window_ms cleaned rest))

refused_shape :
    (w w' : SlidingWindow) (cleaned now : ℕ) (r : RateLimitResult)
    → 0 < w.max_requests
    → length w.timestamps ≤ w.max_requests
    → try_acquire w cleaned now ≡ some (w', r)
    → r.allowed ≡ false
    → (oldest : ℕ) × (rest : List ℕ) × (w'.timestamps ≡ oldest ∷ rest)
      × (w'.max_requests ≤ length w'.timestamps)
      × (length w'.timestamps ≤ w'.max_requests)
      × (r.retry_after_ms ≡ max (oldest + w'.window_ms - now) 1)
refused_shape w w' cleaned now r p fits e refused = elim (answer w cleaned now p) [
  | inl (room, g) ↦ absurd (cc)
  | inr (oldest, rest, q, full, g) ↦
      let c : cleanup w cleaned ≡ w' = cc in
      let d : deny (max (oldest + w.window_ms - now) 1) w.max_requests ≡ r = unfold cleanup in cc in
      (
        oldest,
        rest,
        rw (← c) q,
        rw (← c) full,
        rw (← c) (
            unfold cleanup in
            omega (arith, fits, length-drop_old w.window_ms cleaned w.timestamps)),
        rw (← d, ← c) (unfold cleanup in refl),
      )
]

-- After a refusal with a wait of two milliseconds or more, a request made exactly when the wait is
-- over is refused again; one millisecond later a request is allowed. (The oldest request leaves
-- the window only after its last millisecond.)
pub window_retry_after_lem :
    (w w' : SlidingWindow) (cleaned now later : ℕ) (r : RateLimitResult)
    → 0 < w.max_requests
    → length w.timestamps ≤ w.max_requests
    → try_acquire w cleaned now ≡ some (w', r)
    → r.allowed ≡ false
    → (2 ≤ r.retry_after_ms → allowed_at w' (now + r.retry_after_ms) later ≡ false)
      × (allowed_at w' (now + r.retry_after_ms + 1) later ≡ true)
window_retry_after_lem w w' cleaned now later r p fits e refused =
    let (oldest, rest, q, full, short, wait) = refused_shape w w' cleaned now r p fits e refused in
    (
      (λ two.
          still_full w' (now + r.retry_after_ms) later oldest rest q full (omega (arith, wait))),
      room_again w' (now + r.retry_after_ms + 1) later oldest rest q short (omega (arith, wait)),
    )
