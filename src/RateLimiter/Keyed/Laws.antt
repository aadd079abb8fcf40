-- ===== src/RateLimiter/Keyed/Laws.antt =====
-- `check` against a limiter for each key.
use open_crank.Prelude.{
  if◌then◌else◌, Option-cases, Bytes, str_eq, str_eq_refl, str_eq_iff, ℕ, ◌≡◌, refl, sym, ap, subst,
  ◌∙◌, ◌≢◌, inl, inr, Option, none, some, arith,
}
use open_crank.Prelude.Maps.{Map, str_key, lookup, insert, lookup-insert}
use open_crank.RateLimiter.Types.{RateLimitResult}
use open_crank.RateLimiter.TokenBucket
use open_crank.RateLimiter.TokenBucket.{TokenBucket}
use open_crank.RateLimiter.SlidingWindow
use open_crank.RateLimiter.SlidingWindow.{SlidingWindow}
use open_crank.RateLimiter.Keyed.{
  LimiterType, token_bucket, sliding_window, KeyedRateLimiter, Readings, token_limiter,
  window_limiter, try_window, check_by, check,
}

-- A limiter of either type.
pub data Limiter : Type 0 where
  bucket : TokenBucket → Limiter
  window : SlidingWindow → Limiter

abbrev to_bucket : Option TokenBucket → Option Limiter
to_bucket none = none
to_bucket (some b) = some (bucket b)

abbrev to_window : Option SlidingWindow → Option Limiter
to_window none = none
to_window (some w) = some (window w)

abbrev view_by : LimiterType → KeyedRateLimiter → Bytes → Option Limiter
view_by token_bucket k key = to_bucket (lookup key k.token_limiters)
view_by sliding_window k key = to_window (lookup key k.window_limiters)

-- The abstract view: a limiter for each key, as far as the key has been seen.
unfoldable pub view : KeyedRateLimiter → Bytes → Option Limiter
view k key = view_by k.type k key

-- A new limiter; a window that is too long cannot be made.
abbrev fresh_by : LimiterType → KeyedRateLimiter → ℕ → Option Limiter
fresh_by token_bucket k created =
    some (bucket (TokenBucket.make k.wait_of k.limit k.window_or_rate created))
fresh_by sliding_window k created = to_window (SlidingWindow.make k.limit k.window_or_rate)

abbrev or_fresh : KeyedRateLimiter → ℕ → Option Limiter → Option Limiter
or_fresh k created none = fresh_by k.type k created
or_fresh k created (some l) = some l

-- A request to one limiter on its own.
pub try_limiter : Limiter → Readings → Option (Limiter × RateLimitResult)
try_limiter (bucket b) at =
    let (b', r) = TokenBucket.try_acquire b at.first_ms in some (bucket b', r)
try_limiter (window w) at = elim (SlidingWindow.try_acquire w at.first_ms at.second_ms) [
  | none ↦ none
  | some (w', r) ↦ some (window w', r)
]

abbrev ask : Option Limiter → Readings → Option (Limiter × RateLimitResult)
ask none at = none
ask (some l) at = try_limiter l at

-- A check asks the limiter of its key, or a new one, and stores it; the limiters of all other keys
-- stay as they are, and the activity of the key is the reading in seconds.
pub record Checked (k : KeyedRateLimiter) (key : Bytes) (at : Readings) (k' : KeyedRateLimiter)
    (r : RateLimitResult) : Type 0 where
  pub limiter : Limiter
  pub asked : ask (or_fresh k at.created_ms (view k key)) at ≡ some (limiter, r)
  pub stored : view k' key ≡ some limiter
  pub others : (other : Bytes) → key ≢ other → view k' other ≡ view k other
  pub active :
      (other : Bytes)
      → lookup other k'.last_activity
        ≡ (if str_eq key other then some at.seconds else lookup other k.last_activity)
  pub same_type : k'.type ≡ k.type

view_as :
    (type : LimiterType) (k : KeyedRateLimiter) (key : Bytes)
    → k.type ≡ type
    → view k key ≡ view_by type k key
unfolding view
view_as type k key t = ap (λ ty. view_by ty k key) t

fresh_bucket :
    (k : KeyedRateLimiter) (key : Bytes) (created : ℕ)
    → k.type ≡ token_bucket
    → or_fresh k created (view k key) ≡ some (bucket (token_limiter k key created))
fresh_bucket k key created t = elim (Option-cases (lookup key k.token_limiters)) [
  | inl e ↦
      rw (view_as token_bucket k key t, e)
        (ap (λ ty. fresh_by ty k created) t ∙ unfold token_limiter in rw (e, token_limiter))
  | inr (b, e) ↦
      rw (view_as token_bucket k key t, e) (unfold token_limiter in rw (e, token_limiter))
]

fresh_window :
    (k : KeyedRateLimiter) (key : Bytes) (created : ℕ)
    → k.type ≡ sliding_window
    → or_fresh k created (view k key) ≡ to_window (window_limiter k key)
fresh_window k key created t = elim (Option-cases (lookup key k.window_limiters)) [
  | inl e ↦
      rw (view_as sliding_window k key t, e)
        (ap (λ ty. fresh_by ty k created) t ∙ unfold window_limiter in rw (e, window_limiter))
  | inr (b, e) ↦
      rw (view_as sliding_window k key t, e) (unfold window_limiter in rw (e, window_limiter))
]

abbrev stamped : KeyedRateLimiter → Bytes → Readings → KeyedRateLimiter
stamped k key at = record k { last_activity = insert key at.seconds k.last_activity }

abbrev with_bucket : KeyedRateLimiter → Bytes → TokenBucket → KeyedRateLimiter
with_bucket k key b = record k { token_limiters = insert key b k.token_limiters }

abbrev with_window : KeyedRateLimiter → Bytes → SlidingWindow → KeyedRateLimiter
with_window k key w = record k { window_limiters = insert key w k.window_limiters }

lookup_self {ℓ} :
    {V : Type ℓ} (key : Bytes) (v : V) (m : Map Bytes V) → lookup key (insert key v m) ≡ some v
lookup_self key v m = lookup-insert key key v m ∙ rw (str_eq_refl key)

lookup_other {ℓ} :
    {V : Type ℓ} (key other : Bytes) (v : V) (m : Map Bytes V)
    → key ≢ other
    → lookup other (insert key v m) ≡ lookup other m
lookup_other key other v m ne = lookup-insert key other v m ∙ ground (arith, str_eq_iff key other)

bucket_Checked :
    (k : KeyedRateLimiter) (key : Bytes) (at : Readings)
    → k.type ≡ token_bucket
    → let q = TokenBucket.try_acquire (token_limiter k key at.created_ms) at.first_ms in
      Checked k key at (with_bucket (stamped k key at) key q.0) q.1
unfolding try_limiter
bucket_Checked k key at t =
    let q = TokenBucket.try_acquire (token_limiter k key at.created_ms) at.first_ms in
    let k' = with_bucket (stamped k key at) key q.0 in
    record {
      limiter = bucket q.0;
      asked = rw (fresh_bucket k key at.created_ms t);
      stored = view_as token_bucket k' key t ∙ ap to_bucket (lookup_self key q.0 k.token_limiters);
      others = λ other ne.
          view_as token_bucket k' other t
          ∙ ap to_bucket (lookup_other key other q.0 k.token_limiters ne)
          ∙ sym (view_as token_bucket k other t);
      active = λ other. lookup-insert key other at.seconds k.last_activity;
      same_type = refl;
    }

ask-window :
    (o : Option SlidingWindow) (at : Readings) (w : SlidingWindow) (r : RateLimitResult)
    → try_window o at ≡ some (w, r)
    → ask (to_window o) at ≡ some (window w, r)
unfolding try_limiter
ask-window none at w r e = absurd (cc)
ask-window (some v) at w r e = rw (e, try_limiter) refl

window_Checked :
    (k : KeyedRateLimiter) (key : Bytes) (at : Readings) (w : SlidingWindow) (r : RateLimitResult)
    → k.type ≡ sliding_window
    → try_window (window_limiter k key) at ≡ some (w, r)
    → Checked k key at (with_window (stamped k key at) key w) r
window_Checked k key at w r t e =
    let k' = with_window (stamped k key at) key w in
    record {
      limiter = window w;
      asked = rw (fresh_window k key at.created_ms t) (ask-window (window_limiter k key) at w r e);
      stored = view_as sliding_window k' key t ∙ ap to_window (lookup_self key w k.window_limiters);
      others = λ other ne.
          view_as sliding_window k' other t
          ∙ ap to_window (lookup_other key other w k.window_limiters ne)
          ∙ sym (view_as sliding_window k other t);
      active = λ other. lookup-insert key other at.seconds k.last_activity;
      same_type = refl;
    }

check_as :
    (type : LimiterType) (k : KeyedRateLimiter) (key : Bytes) (at : Readings)
    → k.type ≡ type
    → check k key at ≡ check_by type (stamped k key at) key at
unfolding check
check_as type k key at t = ap (λ ty. check_by ty (stamped k key at) key at) t

abbrev store_window :
    KeyedRateLimiter
    → Bytes
    → Option (SlidingWindow × RateLimitResult)
    → Option (KeyedRateLimiter × RateLimitResult)
store_window k key none = none
store_window k key (some (w, r)) = some (with_window k key w, r)

check_by_window :
    (k : KeyedRateLimiter) (key : Bytes) (at : Readings)
    (o : Option (SlidingWindow × RateLimitResult))
    → try_window (window_limiter k key) at ≡ o
    → check_by sliding_window (stamped k key at) key at ≡ store_window (stamped k key at) key o
unfolding check_by window_limiter
check_by_window k key at none e = rw (e, check_by)
check_by_window k key at (some (w, r)) e = rw (e, check_by)

check_by_bucket :
    (k : KeyedRateLimiter) (key : Bytes) (at : Readings)
    → let q = TokenBucket.try_acquire (token_limiter k key at.created_ms) at.first_ms in
      check_by token_bucket (stamped k key at) key at
      ≡ some (with_bucket (stamped k key at) key q.0, q.1)
unfolding check_by token_limiter
check_by_bucket k key at = refl

some_eq {ℓ} : {A : Type ℓ} (x y : A) → some x ≡ some y → x ≡ y
some_eq x y e = cc

Checked-window :
    (k k' : KeyedRateLimiter) (key : Bytes) (at : Readings) (r : RateLimitResult)
    (o : Option (SlidingWindow × RateLimitResult))
    → k.type ≡ sliding_window
    → try_window (window_limiter k key) at ≡ o
    → store_window (stamped k key at) key o ≡ some (k', r)
    → Checked k key at k' r
Checked-window k k' key at r none t q e = absurd (cc)
Checked-window k k' key at r (some (w, r')) t q e =
    subst (λ (x : KeyedRateLimiter × RateLimitResult). Checked k key at x.0 x.1)
      (some_eq (with_window (stamped k key at) key w, r') (k', r) e)
      (window_Checked k key at w r' t q)

Checked-by :
    (type : LimiterType) (k k' : KeyedRateLimiter) (key : Bytes) (at : Readings)
    (r : RateLimitResult)
    → k.type ≡ type
    → check k key at ≡ some (k', r)
    → Checked k key at k' r
Checked-by token_bucket k k' key at r t e =
    let q = TokenBucket.try_acquire (token_limiter k key at.created_ms) at.first_ms in
    subst (λ (x : KeyedRateLimiter × RateLimitResult). Checked k key at x.0 x.1)
      (some_eq (with_bucket (stamped k key at) key q.0, q.1) (k', r)
        (sym (check_by_bucket k key at) ∙ sym (check_as token_bucket k key at t) ∙ e))
      (bucket_Checked k key at t)
Checked-by sliding_window k k' key at r t e =
    let o = try_window (window_limiter k key) at in
    Checked-window k k' key at r o t refl
      (sym (check_by_window k key at o refl) ∙ sym (check_as sliding_window k key at t) ∙ e)

-- A `check` is a request to the limiter of its key alone, or to a new one: it stores that limiter and
-- the reading as the key's activity, and the limiters of all other keys stay as they are.
pub check-Checked :
    (k k' : KeyedRateLimiter) (key : Bytes) (at : Readings) (r : RateLimitResult)
    → check k key at ≡ some (k', r)
    → Checked k key at k' r
check-Checked k k' key at r e = Checked-by k.type k k' key at r refl e
