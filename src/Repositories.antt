-- ===== src/Repositories.antt =====
-- src/infra/db/repositories: queries and changes of rows inside a transaction, which the use cases
-- of src/app/usecases open and commit.
pub mod Balances
pub mod Messages
pub mod Jobs
pub mod Claim
pub mod Order
