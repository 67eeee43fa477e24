-- ===== src/RateLimit.antt =====
-- src/api/rate_limit.py: the rate limiter of the HTTP interface.
pub mod Rules
pub mod Bucket
pub mod Limiter
pub mod Charging
pub mod Refill
pub mod Rate
pub mod Retry
pub mod Skew
pub mod Scope
pub mod Resolve
pub mod Body
pub mod Replay
pub mod Middleware
pub mod Answers
pub mod Keys
pub mod Working
pub mod Promise
pub mod Blame
