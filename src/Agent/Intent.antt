-- ===== src/Agent/Intent.antt =====
-- The tests of `Agent::run` on an answer without tool calls: whether it asks something, and whether
-- it announces an action.
use open_crank.Prelude.{
  if◌then◌else◌, Bytes, codes, Bool, true, false, not, ◌&&◌, ◌||◌, List, [], ◌∷◌,
}
use open_crank.Text.Find.{has}

-- The patterns are tried in turn on the answer in lower case.
unfoldable pub has_any : Bytes → List Bytes → Bool
has_any text [] = false
has_any text (pattern ∷ patterns) =
    let later = has_any text patterns in if has text pattern then true else later

unfoldable pub is_asking_question : Bytes → Bool
is_asking_question response_lower =
    has response_lower (codes "?")
    && (has response_lower (codes "which")
        || has response_lower (codes "what")
        || has response_lower (codes "where")
        || has response_lower (codes "could you")
        || has response_lower (codes "would you")
        || has response_lower (codes "do you want"))

abbrev pub intent_patterns : List Bytes
intent_patterns =
    codes "let me create"
    ∷ codes "let me write"
    ∷ codes "let me read"
    ∷ codes "let me check"
    ∷ codes "let me look"
    ∷ codes "let me search"
    ∷ codes "let me fetch"
    ∷ codes "let me browse"
    ∷ codes "let me run"
    ∷ codes "let me execute"
    ∷ codes "let me try"
    ∷ codes "let me make"
    ∷ codes "let me update"
    ∷ codes "let me modify"
    ∷ codes "let me delete"
    ∷ codes "let me remove"
    ∷ codes "let me add"
    ∷ codes "let me open"
    ∷ codes "let me download"
    ∷ codes "let me get"
    ∷ codes "let me see"
    ∷ codes "let me find"
    ∷ codes "let me use"
    ∷ codes "let me install"
    ∷ codes "i'll create"
    ∷ codes "i'll write"
    ∷ codes "i'll read"
    ∷ codes "i'll check"
    ∷ codes "i'll run"
    ∷ codes "i'll execute"
    ∷ codes "i'll fetch"
    ∷ codes "i'll browse"
    ∷ codes "i'll search"
    ∷ codes "i'll make"
    ∷ codes "i'll use"
    ∷ codes "will create"
    ∷ codes "will write"
    ∷ codes "will run"
    ∷ codes "need to create"
    ∷ codes "need to write"
    ∷ codes "need to read"
    ∷ codes "need to check"
    ∷ codes "need to run"
    ∷ codes "need to fetch"
    ∷ codes "need to browse"
    ∷ codes "need to search"
    ∷ codes "need to make"
    ∷ codes "now i'll"
    ∷ codes "now let me"
    ∷ codes "let's do that"
    ∷ codes "let's do it"
    ∷ codes "let's create"
    ∷ codes "let's check"
    ∷ codes "let's write"
    ∷ codes "let's run"
    ∷ codes "let's look"
    ∷ codes "let's fetch"
    ∷ codes "let's search"
    ∷ codes "let's make"
    ∷ codes "should check"
    ∷ codes "should write"
    ∷ codes "should run"
    ∷ codes "should do"
    ∷ codes "should use the"
    ∷ codes "i'll do that"
    ∷ codes "doing that now"
    ∷ codes "executing now"
    ∷ codes "running the command now"
    ∷ codes "let's execute it"
    ∷ codes "i'll emit the tool call"
    ∷ codes "need to emit"
    ∷ codes "emitting tool call"
    ∷ codes "calling the tool"
    ∷ codes "can handle using the"
    ∷ codes "going to create"
    ∷ codes "going to write"
    ∷ codes "going to read"
    ∷ codes "going to check"
    ∷ codes "going to look"
    ∷ codes "going to search"
    ∷ codes "going to fetch"
    ∷ codes "going to browse"
    ∷ codes "going to run"
    ∷ codes "going to execute"
    ∷ codes "going to try"
    ∷ codes "going to make"
    ∷ codes "going to update"
    ∷ codes "going to modify"
    ∷ codes "going to delete"
    ∷ codes "going to remove"
    ∷ codes "going to add"
    ∷ codes "going to open"
    ∷ codes "going to download"
    ∷ codes "going to get"
    ∷ codes "going to see"
    ∷ codes "going to find"
    ∷ codes "going to use"
    ∷ codes "going to install"
    ∷ codes "about to create"
    ∷ codes "about to write"
    ∷ codes "about to read"
    ∷ codes "about to check"
    ∷ codes "about to look"
    ∷ codes "about to search"
    ∷ codes "about to fetch"
    ∷ codes "about to browse"
    ∷ codes "about to run"
    ∷ codes "about to execute"
    ∷ codes "about to try"
    ∷ codes "about to make"
    ∷ codes "about to update"
    ∷ codes "about to modify"
    ∷ codes "about to delete"
    ∷ codes "about to remove"
    ∷ codes "about to add"
    ∷ codes "about to open"
    ∷ codes "about to download"
    ∷ codes "about to get"
    ∷ codes "about to see"
    ∷ codes "about to find"
    ∷ codes "about to use"
    ∷ codes "about to install"
    ∷ codes "plan to create"
    ∷ codes "plan to write"
    ∷ codes "plan to run"
    ∷ codes "want to create"
    ∷ codes "want to write"
    ∷ codes "want to run"
    ∷ codes "ready to create"
    ∷ codes "ready to write"
    ∷ codes "ready to run"
    ∷ codes "preparing to create"
    ∷ codes "preparing to write"
    ∷ codes "preparing to run"
    ∷ codes "creating now"
    ∷ codes "writing now"
    ∷ codes "reading now"
    ∷ codes "checking now"
    ∷ codes "looking now"
    ∷ codes "searching now"
    ∷ codes "fetching now"
    ∷ codes "browsing now"
    ∷ codes "running now"
    ∷ codes "executing now"
    ∷ codes "trying now"
    ∷ codes "making now"
    ∷ codes "updating now"
    ∷ codes "modifying now"
    ∷ codes "deleting now"
    ∷ codes "removing now"
    ∷ codes "adding now"
    ∷ codes "opening now"
    ∷ codes "downloading now"
    ∷ codes "getting now"
    ∷ codes "seeing now"
    ∷ codes "finding now"
    ∷ codes "using now"
    ∷ codes "installing now"
    ∷ codes "time to create"
    ∷ codes "time to write"
    ∷ codes "time to run"
    ∷ codes "let's get started with"
    ∷ codes "starting to"
    ∷ codes "beginning to"
    ∷ codes "commencing to"
    ∷ codes "initiating"
    ∷ codes "launching"
    ∷ codes "starting the"
    ∷ codes "beginning the"
    ∷ codes "commencing the"
    ∷ codes "initiating the"
    ∷ codes "launching the"
    ∷ []

unfoldable pub indicates_tool_intent : Bytes → Bool
indicates_tool_intent response_lower =
    not (is_asking_question response_lower) && has_any response_lower intent_patterns
