-- ===== src/Database.antt =====
-- The tables of src/infra/db/models, the transactions of a session, and the statements that the
-- flush of a changed row runs, with the constraints that PostgreSQL checks on them.
--
-- A transaction is a function of the whole database. Transactions run one after the other, as the
-- row locks (`with_for_update`) make those on the same rows do; an exception leaves the database
-- as it was (`with session.begin()` rolls back).
pub mod Table
pub mod Rows
pub mod Session
pub mod Constraints
