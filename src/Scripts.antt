-- ===== src/Scripts.antt =====
-- The load generators of scripts, which the gateway's promises are measured with.
pub mod Loadtest
pub mod Attempts
pub mod Limit
pub mod Idempotency
pub mod Benchmark
