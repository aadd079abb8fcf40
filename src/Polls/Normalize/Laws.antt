-- ===== src/Polls/Normalize/Laws.antt =====
-- What `normalize_poll` accepts, and the polls that it makes.
use open_crank.Prelude.{
  if◌then◌else◌, Bool-cases, Bytes, length, is_empty, All, ℕ, ◌+◌, ◌*◌, ◌≤◌, ◌≡◌, refl, ap, ◌≢◌,
  ◌↔◌, inl, inr, true, false, List, [], ◌∷◌, arith,
}
use open_crank.Prelude.Int.{ℤ, pos, is_pos, to_ℕ}
use open_crank.Text.Trim.{trim}
use open_crank.Text.Trim.Laws.{trim_idem}
use open_crank.Polls.Types.{PollInput, Poll, PollNormalizeOptions}
use open_crank.Polls.Normalize.{
  ok, normalize_poll_duration, trim_options, stamp_poll, normalize_poll,
}

-- Trimmed and not empty.
abbrev pub IsClean : Bytes → Type 0
IsClean s = (trim s ≡ s) × (s ≢ [])

trim_options-IsClean : (os : List Bytes) → All IsClean (trim_options os)
unfolding trim_options
trim_options-IsClean [] = tt
trim_options-IsClean (o ∷ os) = elim (Bool-cases (is_empty (trim o))) [
  | inl e ↦ rw e (trim_options-IsClean os)
  | inr e ↦ rw e ((trim_idem o, λ z. ground (arith, ap is_empty z)), trim_options-IsClean os)
]

-- What the rest of the plugin relies on in a stored poll.
pub record IsValid (limits : PollNormalizeOptions) (p : Poll) : Type 0 where
  pub question_clean : IsClean p.question
  pub options_clean : All IsClean p.options
  pub enough_options : 2 ≤ length p.options
  pub option_limit : is_pos limits.max_options ≡ true → length p.options ≤ to_ℕ limits.max_options
  pub selections_positive : is_pos p.max_selections ≡ true
  pub selections_bounded : to_ℕ p.max_selections ≤ length p.options
  pub hours_bounded :
      is_pos limits.max_hours ≡ true
      → (is_pos p.duration_hours ≡ true) × (to_ℕ p.duration_hours ≤ to_ℕ limits.max_hours)
  pub expiry :
      is_pos limits.max_hours ≡ true → p.expires_at ≡ p.created_at + to_ℕ p.duration_hours * 3600
  pub starts_open : p.is_closed ≡ false

duration_bounds :
    (d dflt hi : ℤ)
    → is_pos hi ≡ true
    → (is_pos (normalize_poll_duration d dflt hi) ≡ true)
      × (to_ℕ (normalize_poll_duration d dflt hi) ≤ to_ℕ hi)
unfolding normalize_poll_duration
duration_bounds d dflt hi h = ground arith

-- The requirements that the code checks, stated of the input.
pub record IsAcceptable (input : PollInput) (limits : PollNormalizeOptions) : Type 0 where
  pub has_question : trim input.question ≢ []
  pub has_options : 2 ≤ length (trim_options input.options)
  pub within_limit :
      is_pos limits.max_options ≡ true
      → length (trim_options input.options) ≤ to_ℕ limits.max_options
  pub selectable :
      is_pos input.max_selections ≡ true
      → to_ℕ input.max_selections ≤ length (trim_options input.options)

abbrev chosen_selections : PollInput → ℤ
chosen_selections input = if is_pos input.max_selections then input.max_selections else pos 1

-- The poll of an acceptable input.
abbrev pub accepted : PollInput → PollNormalizeOptions → ℕ → Bytes → Poll
accepted input limits now uuid =
    stamp_poll (trim input.question) (trim_options input.options) (chosen_selections input)
      (normalize_poll_duration input.duration_hours limits.default_hours limits.max_hours) now uuid

stamp_poll-IsValid :
    (input : PollInput) (limits : PollNormalizeOptions) (now : ℕ) (uuid : Bytes)
    → IsAcceptable input limits
    → IsValid limits (
        stamp_poll
          (trim input.question)
          (trim_options input.options)
          (chosen_selections input)
          (normalize_poll_duration input.duration_hours limits.default_hours limits.max_hours)
          now
          uuid)
unfolding stamp_poll
stamp_poll-IsValid input limits now uuid a = record {
  question_clean = (trim_idem input.question, a.has_question);
  options_clean = trim_options-IsClean input.options;
  enough_options = a.has_options;
  option_limit = a.within_limit;
  selections_positive = ground arith;
  selections_bounded = ground (arith, a.has_options, a.selectable);
  hours_bounded = duration_bounds input.duration_hours limits.default_hours limits.max_hours;
  expiry = λ h.
      let b = duration_bounds input.duration_hours limits.default_hours limits.max_hours h in
      ground arith;
  starts_open = refl;
}

normalize_poll_sound :
    (input : PollInput) (limits : PollNormalizeOptions) (now : ℕ) (uuid : Bytes) {p : Poll}
    → normalize_poll input limits now uuid ≡ ok p
    → (is_empty (trim input.question) ≡ false)
      × (2 ≤ length (trim_options input.options))
      × (is_pos limits.max_options ≡ true
          → length (trim_options input.options) ≤ to_ℕ limits.max_options)
      × (is_pos input.max_selections ≡ true
          → to_ℕ input.max_selections ≤ length (trim_options input.options))
      × (p ≡ accepted input limits now uuid)
unfolding normalize_poll
normalize_poll_sound input limits now uuid h =
    (ground arith, ground arith, ground arith, ground arith, ground arith)

normalize_poll_complete :
    (input : PollInput) (limits : PollNormalizeOptions) (now : ℕ) (uuid : Bytes)
    → is_empty (trim input.question) ≡ false
    → IsAcceptable input limits
    → normalize_poll input limits now uuid ≡ ok (accepted input limits now uuid)
unfolding normalize_poll
normalize_poll_complete input limits now uuid q a =
    ground (arith, a.has_options, a.within_limit, a.selectable)

ne_nil-is_empty : (s : Bytes) → s ≢ [] → is_empty s ≡ false
ne_nil-is_empty [] h = absurd (h refl)
ne_nil-is_empty (c ∷ s) h = refl

-- An input is accepted exactly if its trimmed question is not empty, its trimmed options that are
-- not empty are at least two and within the limit, and the selections asked for do not exceed them.
pub normalize_poll_iff :
    (input : PollInput) (limits : PollNormalizeOptions) (now : ℕ) (uuid : Bytes)
    → ((p : Poll) × (normalize_poll input limits now uuid ≡ ok p)) ↔ IsAcceptable input limits
normalize_poll_iff input limits now uuid = (sound, complete)
  where
    sound : ((p : Poll) × (normalize_poll input limits now uuid ≡ ok p)) → IsAcceptable input limits
    sound (p, h) =
        let t = normalize_poll_sound input limits now uuid {p = p} h in
        record {
          has_question = λ e. ground (arith, t.0, ap is_empty e);
          has_options = t.1;
          within_limit = t.2;
          selectable = t.3;
        }

    complete :
        IsAcceptable input limits → (p : Poll) × (normalize_poll input limits now uuid ≡ ok p)
    complete a = (
      accepted input limits now uuid,
      normalize_poll_complete input limits now uuid (ne_nil-is_empty _ a.has_question) a,
    )

-- Every poll that `normalize_poll` returns satisfies the checks: a clean question, at least two clean
-- options within the limit, between one and all of them selectable, a duration between one hour and
-- the maximum (if that is positive) with the expiry to match, and it is open.
pub normalize_poll-IsValid :
    (input : PollInput) (limits : PollNormalizeOptions) (now : ℕ) (uuid : Bytes) {p : Poll}
    → normalize_poll input limits now uuid ≡ ok p
    → IsValid limits p
normalize_poll-IsValid input limits now uuid {p} h =
    let t = normalize_poll_sound input limits now uuid h in
    let a = (normalize_poll_iff input limits now uuid).0 (p, h) in
    rw t.4 (stamp_poll-IsValid input limits now uuid a)
