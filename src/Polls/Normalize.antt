-- ===== src/Polls/Normalize.antt =====
-- `normalize_poll` and `normalize_poll_duration`.
pub mod Laws
use open_crank.Prelude.{
  ltb, if◌then◌else◌, Bytes, length, is_empty, ℕ, ◌+◌, ◌*◌, Bool, true, false, ◌&&◌, List, [], ◌∷◌,
}
use open_crank.Prelude.Int.{ℤ, pos, negsuc, is_pos, ltb_ℤ, to_ℕ}
use open_crank.Text.Trim.{trim}
use open_crank.Polls.Types.{
  PollInput, Poll, PollNormalizeOptions, PollError, question_required, too_few_options,
  too_many_options, max_selections_below_one, max_selections_exceed_options,
}

-- A value, or the error thrown in its place.
pub data Result {ℓ} (V : Type ℓ) : Type ℓ where
  err : PollError → Result V
  ok : V → Result V

infixl 5 ◌>>=◌ ◌>>◌
abbrev pub ◌>>=◌ {κ ℓ} : {V : Type κ} {W : Type ℓ} → Result V → (V → Result W) → Result W
err thrown >>= next = err thrown
ok value >>= next = next value

abbrev pub ◌>>◌ {ℓ} : {W : Type ℓ} → Result (Unit {0}) → Result W → Result W
err thrown >> next = err thrown
ok _ >> next = next

-- `if (bad) throw PollError(e);`
abbrev pub throw_if : Bool → PollError → Result (Unit {0})
throw_if true e = err e
throw_if false e = ok tt

-- `clamp` of include/opencrank/core/utils.hpp, at `int`.
unfoldable pub clamp : ℤ → ℤ → ℤ → ℤ
clamp value lo hi = if ltb_ℤ value lo then lo else if ltb_ℤ hi value then hi else value

unfoldable pub normalize_poll_duration : ℤ → ℤ → ℤ → ℤ
unfolding clamp
normalize_poll_duration duration_hours default_hours max_hours =
    clamp (if is_pos duration_hours then duration_hours else default_hours) (pos 1) max_hours

-- The trimmed options that are not empty.
unfoldable pub trim_options : List Bytes → List Bytes
trim_options [] = []
trim_options (option ∷ rest) =
    let opt = trim option in if is_empty opt then trim_options rest else opt ∷ trim_options rest

-- The poll that is built once every check has passed; `now` and `uuid` are what
-- `current_timestamp` and `generate_uuid` return.
unfoldable pub stamp_poll : Bytes → List Bytes → ℤ → ℤ → ℕ → Bytes → Poll
stamp_poll question options max_selections hours now uuid = record {
  id = uuid;
  question = question;
  options = options;
  max_selections = max_selections;
  duration_hours = hours;
  created_at = now;
  expires_at = if is_pos hours then now + to_ℕ hours * 3600 else 0;
  is_closed = false;
}

unfoldable pub normalize_poll : PollInput → PollNormalizeOptions → ℕ → Bytes → Result Poll
unfolding normalize_poll_duration stamp_poll
normalize_poll input limits now uuid = do
  let question = trim input.question
  throw_if (is_empty question) question_required
  let options = trim_options input.options
  throw_if (ltb (length options) 2) too_few_options
  throw_if (is_pos limits.max_options && ltb_ℤ limits.max_options (pos (length options)))
      (too_many_options limits.max_options)
  let chosen = if is_pos input.max_selections then input.max_selections else pos 1
  throw_if (ltb_ℤ chosen (pos 1)) max_selections_below_one
  throw_if (ltb_ℤ (pos (length options)) chosen) max_selections_exceed_options
  let hours = normalize_poll_duration input.duration_hours limits.default_hours limits.max_hours
  ok (stamp_poll question options chosen hours now uuid)
