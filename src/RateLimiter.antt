-- ===== src/RateLimiter.antt =====
-- include/opencrank/core/rate_limiter.hpp and src/core/rate_limiter.cpp, a module for each class.
pub mod Types
pub mod TokenBucket
pub mod SlidingWindow
pub mod Keyed
pub mod Debouncer
pub mod Throttler
pub mod Typing
pub mod Heartbeat
