-- ===== src/Polls.antt =====
-- The polls plugin: include/opencrank/plugins/polls/polls.hpp and src/plugins/polls/polls.cpp.
-- An `int` is an integer ℤ, a clock reading and a counter are natural numbers.
pub mod Types
pub mod Normalize
pub mod Ballot
pub mod Tally
pub mod Manager
