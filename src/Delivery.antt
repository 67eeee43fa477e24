-- ===== src/Delivery.antt =====
-- What src/app/usecases/dispatch.py promises of one job: who may work on it, and how often.
pub mod Leases
pub mod Outcomes
pub mod Retries
pub mod Process
