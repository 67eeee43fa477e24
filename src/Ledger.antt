-- ===== src/Ledger.antt =====
-- The credit ledger as one statement about the whole database: what src/core/metrics.py measures as
-- payment consistency violations, and the link of each dispatch job with its message's payment.
pub mod Consistent
pub mod Accounts
pub mod Admission
pub mod Verdict
pub mod Save
pub mod Transition
pub mod Delivery
pub mod Insert
pub mod Submission
pub mod Requests
pub mod Operations
pub mod Deposits
pub mod System
pub mod Answers
pub mod Batches
pub mod Keys
