-- ===== src/Lib.antt =====
-- OpenCrank, an assistant runtime in C++: channels bring messages in, sessions keep the
-- conversations, an agent answers with the help of tools, and plugins such as polls hang on to it.
-- This library models the parts that hold the runtime's own logic and state, and proves what they
-- promise.
--
-- The parts, and where they are modelled:
--
--   Text         the string utilities, src/core/utils.cpp: Text/Trim (trim, to_lower,
--                starts_with), Text/Split (split, join), Text/Path (normalize_path, join_path),
--                Text/Space (normalize_whitespace), Text/Utf8 (truncate_safe, sanitize_utf8),
--                Text/Html (strip_html_for_ai, sanitize_url)
--   Polls        src/plugins/polls/polls.cpp: Polls/Types (the data and Poll's methods),
--                Polls/Normalize (normalize_poll), Polls/Ballot (validate_vote), Polls/Tally
--                (get_winning_option and the counting), Polls/Manager (PollManager)
--   RateLimiter  src/core/rate_limiter.cpp, one module for each class: TokenBucket,
--                SlidingWindow, Keyed, Typing, Heartbeat, Debouncer, Throttler
--   Session      src/core/session.cpp: Session/Key (SessionKey), Session/Store (Session and
--                SessionManager)
--   ThreadPool   src/core/thread_pool.cpp: the shared state and the workers as a step relation
--   Chunker      src/core/content_chunker.cpp: the store and its chunks; Chunker/Search has the searches
--   Agent        src/core/agent.cpp: Agent/Json (the JSON library, a parameter), Agent/Types (the data of
--                agent.hpp), Agent/Recover and Agent/Params (lenient reading of JSON and of
--                parameters), Agent/Calls (parse_tool_calls, extract_response_text), Agent/Tools
--                (execute_tool, format_tool_result), Agent/History (try_truncate_history),
--                Agent/Intent (the patterns), Agent/Round (the body of the loop of run), Agent/Run
--   Context      src/core/context_manager.cpp: the resume cycle
--   Monitor      src/core/ai_monitor.cpp: the monitored sessions
--   Sandbox      src/core/sandbox.cpp: the path checks
--   Delivery     split_message_chunks of src/core/application.cpp
--   Handler      src/core/message_handler.cpp: on_message and handle_ai_message
--   Skills       src/skills/manager.cpp: the names and dispatch of the skill commands, and
--                Skills/Invocation, which finds them in what a user types
--   Prelude      numbers, lists, byte strings and sorted association lists for std::map
--   Tests        the theorems at concrete inputs
--
-- Polls and sessions use the string utilities; a session key is built from trimmed, lower-case
-- parts. The message handler passes a message through the debouncer and the rate limiter to the
-- thread pool, and a message for the model from the session to the agent, with the monitor and the
-- typing indicator around the run. The agent keeps large tool results in the chunker.
--
-- How code becomes definitions. A class is a record and a method a function from the state before
-- to the state after, with its result. A std::string is the list of its bytes. A std::map is an
-- association list in ascending order of its keys, so a loop over it meets the keys in the order
-- of the program's loop. A method that reads the clock takes the reading as an argument, and one
-- that reads it twice takes both. Identifiers from generate_uuid are arguments too. An exception
-- is an error value, and an empty error string is `none`. A history of calls is a list: the calls on one
-- object are taken one after the other. Only the thread pool has its interleavings spelled out;
-- that get_session_for_message goes on with its session after the lock is released is not modelled. Loops
-- are structural recursions where the code goes through a list or a string; the loop of run goes by the
-- iterations that are left, which is the bound of the code itself. Two loops have fuel: split_loop, with the
-- length of the text, since each round takes a byte at least (Delivery.Laws.split_message_chunks_lem
-- would fail if it ran out), and strip_fences, with the length of the text, since each round takes three
-- bytes out (Agent.Recover.Laws). Code outside the repository's own sources is a parameter: the JSON
-- library, std::regex, the model, what a tool does, realpath, getcwd and the memory tool.
--
-- Bounds. Times and counts are natural numbers without an upper bound: a 64-bit clock in
-- milliseconds does not wrap in the program's life, and subtractions that can be negative in the
-- source are written as comparisons of sums. The int fields of polls are unbounded integers, so the
-- overflow of hours in seconds is left out, as is that of an interval times two in the heartbeats. The
-- window of a sliding limiter is a product of int whose overflow is undefined behaviour, `none`. The
-- token bucket counts thousandths of a token in place of a double, so the rounding of that count is left
-- out; the wait that it announces is a division of doubles, a parameter. A duration such as an age
-- limit, an interval or a window is not negative.
--
-- Not modelled: PollResults::get_percentage (floating point), log lines, the uuid
-- generator of utils.cpp, the start-up of the sandbox and of the monitor's thread, send_response and
-- the commands of the message handler; and the parts that are input and output: the channels, the model
-- providers, the HTTP client, the tools, the memory store over SQLite, the loading and the
-- prompts of skills, plugin loading and configuration. The JSON and web-server libraries are other projects' code.
pub mod Prelude
pub mod Text
pub mod Polls
pub mod RateLimiter
pub mod Session
pub mod ThreadPool
pub mod Chunker
pub mod Agent
pub mod Context
pub mod Monitor
pub mod Sandbox
pub mod Delivery
pub mod Handler
pub mod Skills
pub mod Tests
