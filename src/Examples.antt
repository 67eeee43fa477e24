-- ===== src/Examples.antt =====
-- Concrete runs: small databases, and each theorem with conditions at one of them.
mod Data
mod Money
mod Workers
mod Deliveries
mod Relays
mod Limits
mod Gauges
mod Scenarios
