-- ===== src/RateLimiter.antt =====
-- stage1/01-concurrent-counter/ratelimiter. Each limiter holds its mutex for the whole of every
-- method, so a method is one function of the state and of the clock's reading.
pub mod SlidingLog
