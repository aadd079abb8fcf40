-- ===== src/Monitor/Laws.antt =====
-- A silent session is reported, and once only.
use open_crank.Prelude.{
  if◌then◌else◌, Bool-cases, Option-cases, Bytes, str_eq, str_eq_refl, str_eq_iff, count,
  count-append, All, ℕ, ◌+◌, ◌≤◌, ◌≡◌, sym, ap, subst, inl, inr, Bool, true, false, Option, none,
  some, List, [], ◌∷◌, ◌++◌, arith,
}
use open_crank.Prelude.Maps.{Map, nat_key, str_key, lookup}
use open_crank.Prelude.Maps.{lookup-insert, lookup-erase}
use open_crank.Prelude.Maps.Order.{
  Above, Ascending, insert-Ascending, erase-Ascending, lookup-Above,
}
use Prim.{Unit}
use open_crank.Monitor.{
  AiSessionState, MonitorConfig, Monitor, start_session, heartbeat, end_session, Report, is_silent,
  check_session, check_sessions, scan,
}

-- Whether a report of the session can still come.
unfoldable pub can_hang : Option AiSessionState → ℕ
can_hang none = 0
can_hang (some state) = if state.is_hung then 0 else 1

-- The reports of a session in a list.
pub reports_of : Bytes → List Report → ℕ
reports_of id reports = count (λ r. str_eq r.session_id id) reports

Above-check_sessions :
    (config : MonitorConfig) (now : Bytes → ℕ) (k : Bytes) (m : Map Bytes AiSessionState)
    → Above k m
    → Above k (check_sessions config now m).0
unfolding check_sessions
Above-check_sessions config now k [] above = above
Above-check_sessions config now k ((j, state) ∷ m) (less, above) =
    (less, Above-check_sessions config now k m above)

check_sessions-Ascending :
    (config : MonitorConfig) (now : Bytes → ℕ) (m : Map Bytes AiSessionState)
    → Ascending m
    → Ascending (check_sessions config now m).0
unfolding check_sessions
check_sessions-Ascending config now [] h = h
check_sessions-Ascending config now ((j, state) ∷ m) (above, h) =
    (Above-check_sessions config now j m above, check_sessions-Ascending config now m h)

-- A check uses up the report that can come.
can_hang-check_session :
    (config : MonitorConfig) (now : ℕ) (id : Bytes) (state : AiSessionState)
    → reports_of id (check_session config now id state).1
        + can_hang (some (check_session config now id state).0)
      ≤ can_hang (some state)
unfolding check_session reports_of can_hang is_silent
can_hang-check_session config now id state = ground (arith, str_eq_refl id)

check_session_other :
    (config : MonitorConfig) (now : ℕ) (id j : Bytes) (state : AiSessionState)
    → str_eq j id ≡ false
    → reports_of id (check_session config now j state).1 ≡ 0
unfolding check_session reports_of
check_session_other config now id j state f = ground (arith)

can_hang-check_sessions :
    (config : MonitorConfig) (now : Bytes → ℕ) (id : Bytes) (m : Map Bytes AiSessionState)
    → Ascending m
    → reports_of id (check_sessions config now m).1
        + can_hang (lookup id (check_sessions config now m).0)
      ≤ can_hang (lookup id m)
unfolding check_sessions lookup reports_of can_hang
can_hang-check_sessions config now id [] h = omega arith
can_hang-check_sessions config now id ((j, state) ∷ m) (above, h) =
    let here = check_session config (now j) j state in
    let ih = can_hang-check_sessions config now id m h in
    let both = count-append (λ r. str_eq r.session_id id) here.1 (check_sessions config now m).1 in
    elim (Bool-cases (str_eq j id)) [
      | inr f ↦ rw f (omega (arith, both, ih, check_session_other config (now j) id j state f))
      | inl t ↦
          let same : j ≡ id = (str_eq_iff j id).0 t in
          let gone : can_hang (lookup id m) ≡ 0 =
            ap can_hang (lookup-Above id m (subst (λ k. Above k m) same above)) in
          let mine : reports_of id here.1 + can_hang (some here.0) ≤ can_hang (some state) =
            subst
              (λ k.
                reports_of id (check_session config (now k) k state).1
                  + can_hang (some (check_session config (now k) k state).0)
                ≤ can_hang (some state))
              (sym same) (can_hang-check_session config (now id) id state) in
          rw t (omega (arith, both, ih, gone, mine))
    ]

-- The steps of the monitor.
pub data Step : Type 0 where
  starts : Bytes → Bytes → Bytes → ℕ → Step
  beats : Bytes → ℕ → Step
  ends : Bytes → Step
  scans : (Bytes → ℕ) → Step

pub step : Monitor → Step → Monitor × List Report
step m (starts id channel chat now) = (start_session m id channel chat now, [])
step m (beats id now) = (heartbeat m id now, [])
step m (ends id) = ((end_session m id).0, [])
step m (scans now) = scan m now

pub run : Monitor → List Step → Monitor × List Report
run m [] = (m, [])
run m (s ∷ steps) =
    let (next, reports) = step m s in let (after, more) = run next steps in (after, reports ++ more)

-- A step that neither starts a session nor is a heartbeat of it.
unfoldable pub IsQuiet : Bytes → Step → Type 0
IsQuiet id (starts other channel chat now) = str_eq other id ≡ false
IsQuiet id (beats other now) = str_eq other id ≡ false
IsQuiet id (ends other) = Unit
IsQuiet id (scans now) = Unit

step-Ascending :
    (m : Monitor) (s : Step) → Ascending m.active_sessions → Ascending (step m s).0.active_sessions
unfolding step start_session heartbeat end_session scan
step-Ascending m (starts id channel chat now) h = insert-Ascending id _ m.active_sessions h
step-Ascending m (beats id now) h = elim (Option-cases (lookup id m.active_sessions)) [
  | inl e ↦ rw (heartbeat, e) h
  | inr (state, e) ↦ rw (heartbeat, e) (insert-Ascending id _ m.active_sessions h)
]
step-Ascending m (ends id) h = elim (Option-cases (lookup id m.active_sessions)) [
  | inl e ↦ rw (end_session, e) h
  | inr (state, e) ↦ rw (end_session, e) (erase-Ascending id m.active_sessions h)
]
step-Ascending m (scans now) h = check_sessions-Ascending m.config now m.active_sessions h

if_zero : (b : Bool) (o : Option AiSessionState) → 0 + can_hang (if b then none else o) ≤ can_hang o
unfolding can_hang
if_zero true o = omega arith
if_zero false o = omega arith

can_hang-step :
    (id : Bytes) (m : Monitor) (s : Step)
    → Ascending m.active_sessions
    → IsQuiet id s
    → reports_of id (step m s).1 + can_hang (lookup id (step m s).0.active_sessions)
      ≤ can_hang (lookup id m.active_sessions)
unfolding step start_session heartbeat end_session scan IsQuiet reports_of
can_hang-step id m (starts other channel chat now) h quiet =
    rw (lookup-insert other id _ m.active_sessions, quiet) (omega arith)
can_hang-step id m (beats other now) h quiet =
    elim (Option-cases (lookup other m.active_sessions)) [
      | inl e ↦ rw (heartbeat, e) (omega arith)
      | inr (state, e) ↦
          rw (heartbeat, e, lookup-insert other id _ m.active_sessions, quiet) (omega arith)
    ]
can_hang-step id m (ends other) h quiet = elim (Option-cases (lookup other m.active_sessions)) [
  | inl e ↦ rw (end_session, e) (omega arith)
  | inr (state, e) ↦
      rw (end_session, e, lookup-erase other id m.active_sessions)
        (if_zero (str_eq other id) (lookup id m.active_sessions))
]
can_hang-step id m (scans now) h quiet = can_hang-check_sessions m.config now id m.active_sessions h

-- As long as a session is not started again and sends no heartbeat, the monitor reports it once at
-- most, and not at all if it is known to be hung or has ended: whatever else happens, and however
-- often the sessions are checked.
pub reports_of-run :
    (id : Bytes) (m : Monitor) (steps : List Step)
    → Ascending m.active_sessions
    → All (IsQuiet id) steps
    → reports_of id (run m steps).1 ≤ can_hang (lookup id m.active_sessions)
unfolding run reports_of
reports_of-run id m [] h quiet = omega arith
reports_of-run id m (s ∷ steps) h (this, quiet) =
    let next = (step m s).0 in
    omega (
      arith,
      can_hang-step id m s h this,
      reports_of-run id next steps (step-Ascending m s h) quiet,
      count-append (λ r. str_eq r.session_id id) (step m s).1 (run next steps).1,
    )
