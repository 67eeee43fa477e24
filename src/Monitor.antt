-- ===== src/Monitor.antt =====
-- The gauges of src/core/metrics.py that are read from the database at a scrape.
pub mod Collect
pub mod Cache
pub mod Alarms
pub mod Backlog
