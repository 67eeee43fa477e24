-- ===== src/Pagination.antt =====
-- src/api/schemas/pagination.py and the slices of src/infra/db/repositories/users.py and messages.py.
pub mod Rows
pub mod Pages
pub mod Ties
