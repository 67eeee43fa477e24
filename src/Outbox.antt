-- ===== src/Outbox.antt =====
-- What src/infra/workers/dispatch_relay.py promises of the outbox, the table of dispatch jobs.
pub mod Publishing
pub mod Claiming
pub mod Filling
pub mod Serving
pub mod Settling
