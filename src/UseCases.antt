-- ===== src/UseCases.antt =====
-- src/app/usecases: the transactions of the API and of the workers.
pub mod Accounts
pub mod Submission
pub mod Dispatch
