-- ===== src/Polls/Ballot.antt =====
-- `validate_vote`.
pub mod Laws
use open_crank.Prelude.{
  if◌then◌else◌, length, get_or, set, replicate, is_empty, ℕ, Bool, true, false, not, ◌||◌, Option,
  none, some, List, [], ◌∷◌,
}
use open_crank.Prelude.Int.{ℤ, pos, is_neg, ltb_ℤ, to_ℕ}
use open_crank.Polls.Types.{
  Poll, is_active, VoteError, poll_inactive, no_selection, too_many_selections, invalid_option,
  duplicate_option,
}

-- The loop over the selection; `seen` marks the options selected so far, of which there are `n`.
unfoldable pub check_options : ℕ → List Bool → List ℤ → Option VoteError
check_options n seen [] = none
check_options n seen (opt ∷ rest) =
    let next = check_options n (set seen (to_ℕ opt) true) rest in
    if is_neg opt || not (ltb_ℤ opt (pos n))
    then some invalid_option
    else if get_or seen (to_ℕ opt) false
    then some duplicate_option
    else next

unfoldable pub validate_vote : Poll → List ℤ → ℕ → Option VoteError
validate_vote poll selected_options now =
    let n = length poll.options in
    if not (is_active poll now)
    then some poll_inactive
    else if is_empty selected_options
    then some no_selection
    else if ltb_ℤ poll.max_selections (pos (length selected_options))
    then some (too_many_selections poll.max_selections)
    else check_options n (replicate n false) selected_options
