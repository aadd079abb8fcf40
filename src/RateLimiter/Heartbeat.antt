-- ===== src/RateLimiter/Heartbeat.antt =====
-- `HeartbeatManager`. Times are in seconds; `now - last` may be negative in the source when the clock
-- goes back, so its comparisons have the earlier time on the other side.
use open_crank.Prelude.{
  leb, if◌then◌else◌, Bool-cases, Option-cases, Bytes, str_eq, str_eq_refl, str_eq_iff, any, ℕ, ◌+◌,
  ◌*◌, ◌≡◌, refl, ap, ◌≢◌, inl, inr, Bool, false, not, ◌&&◌, none, some, List, [], ◌∷◌, arith,
}
use open_crank.Prelude.Maps.{
  Map, str_key, lookup, contains, insert, erase, lookup-insert, contains-lookup,
}
use open_crank.Prelude.Maps.Order.{keys_where}

pub record HeartbeatTarget : Type 0 where
  pub interval_seconds : ℕ
  pub last_sent : ℕ
  pub last_received : ℕ

abbrev pub HeartbeatManager : Type 0
HeartbeatManager = Map Bytes HeartbeatTarget

unfoldable pub register_target : HeartbeatManager → Bytes → ℕ → ℕ → HeartbeatManager
register_target targets id interval now =
    insert id (record { interval_seconds = interval; last_sent = 0; last_received = now }) targets

unfoldable pub unregister_target : HeartbeatManager → Bytes → HeartbeatManager
unregister_target targets id = erase id targets

abbrev pub is_due : ℕ → HeartbeatTarget → Bool
is_due now t = leb (t.last_sent + t.interval_seconds) now

unfoldable pub targets_due : HeartbeatManager → ℕ → List Bytes
targets_due targets now = keys_where (is_due now) targets

unfoldable pub mark_sent : HeartbeatManager → Bytes → ℕ → HeartbeatManager
mark_sent targets id now = elim (lookup id targets) [
  | none ↦ targets
  | some t ↦ insert id (record t { last_sent = now }) targets
]

unfoldable pub mark_received : HeartbeatManager → Bytes → ℕ → HeartbeatManager
mark_received targets id now = elim (lookup id targets) [
  | none ↦ targets
  | some t ↦ insert id (record t { last_received = now }) targets
]

-- Within twice the interval of the last heartbeat.
abbrev pub is_fresh : ℕ → HeartbeatTarget → Bool
is_fresh now t = leb now (t.last_received + t.interval_seconds * 2)

unfoldable pub is_healthy : HeartbeatManager → Bytes → ℕ → Bool
is_healthy targets id now = elim (lookup id targets) [ none ↦ false | some t ↦ is_fresh now t ]

-- The loop asks `is_healthy` for each key of the map.
unfoldable pub unhealthy_keys : HeartbeatManager → ℕ → HeartbeatManager → List Bytes
unhealthy_keys targets now [] = []
unhealthy_keys targets now ((id, t) ∷ rest) =
    if not (is_healthy targets id now)
    then id ∷ unhealthy_keys targets now rest
    else unhealthy_keys targets now rest

unfoldable pub unhealthy_targets : HeartbeatManager → ℕ → List Bytes
unfolding unhealthy_keys
unhealthy_targets targets now = unhealthy_keys targets now targets

any-unhealthy_keys :
    (targets : HeartbeatManager) (now : ℕ) (rest : HeartbeatManager) (id : Bytes)
    → any (str_eq id) (unhealthy_keys targets now rest)
      ≡ contains id rest && not (is_healthy targets id now)
unfolding unhealthy_keys contains
any-unhealthy_keys targets now [] id = refl
any-unhealthy_keys targets now ((j, t) ∷ rest) id = elim (Bool-cases (str_eq j id)) [
  | inl e ↦
      let same = (str_eq_iff j id).0 e in
      let alike : is_healthy targets j now ≡ is_healthy targets id now =
        ap (λ k. is_healthy targets k now) same in
      ground (
        arith,
        any-unhealthy_keys targets now rest id,
        alike,
        str_eq_iff id j,
        contains-lookup id rest,
      )
  | inr e ↦ ground (arith, any-unhealthy_keys targets now rest id, str_eq_iff id j, str_eq_iff j id)
]

-- The targets reported as unhealthy are exactly those that are registered and not healthy.
unhealthy_targets_iff :
    (targets : HeartbeatManager) (now : ℕ) (id : Bytes)
    → any (str_eq id) (unhealthy_targets targets now)
      ≡ contains id targets && not (is_healthy targets id now)
unfolding unhealthy_targets
unhealthy_targets_iff targets now id = any-unhealthy_keys targets now targets id

-- A registered target that reports at the time `now` is healthy up to and including twice its interval
-- later and not after; no other target's health changes; and an unregistered target is never
-- healthy, also when it reports.
mark_received_lem :
    (targets : HeartbeatManager) (id other : Bytes) (now moment : ℕ)
    → ((t : HeartbeatTarget)
        → lookup id targets ≡ some t
        → is_healthy (mark_received targets id now) id moment
          ≡ leb moment (now + t.interval_seconds * 2))
      × (lookup id targets ≡ none → is_healthy (mark_received targets id now) id moment ≡ false)
      × (id ≢ other
          → is_healthy (mark_received targets id now) other moment
            ≡ is_healthy targets other moment)
unfolding mark_received is_healthy
mark_received_lem targets id other now moment = (
  (λ t e.
      ground
        (arith, e, str_eq_refl id, lookup-insert id id (record t { last_received = now }) targets)),
  (λ e. ground arith),
  λ ne. elim (Option-cases (lookup id targets)) [
    | inl e ↦ ground arith
    | inr (t, e) ↦ ground (
      arith,
      str_eq_iff id other,
      lookup-insert id other (record t { last_received = now }) targets,
    )
  ],
)
