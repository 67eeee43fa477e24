-- ===== src/Logging.antt =====
-- The log records: src/core/logging.py and src/core/request_context.py.
pub mod Record
pub mod Fields
