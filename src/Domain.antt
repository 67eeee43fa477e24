-- ===== src/Domain.antt =====
-- src/domain: the enumerations of enums.py and the exceptions of errors.py, with the exceptions of
-- the database driver that the use cases tell apart.
pub mod Enums
pub mod Errors
