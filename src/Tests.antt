-- ===== src/Tests.antt =====
-- The theorems at concrete inputs.
mod Polls
mod RateLimiter
mod Timers
mod Text
mod Session
mod ThreadPool
mod Agent
mod Runtime
