-- ===== src/Api.antt =====
-- The HTTP layer: src/api/schemas, src/api/routes and the exception handler of src/main.py.
pub mod Schemas
pub mod Columns
pub mod Routes
pub mod Fits
pub mod Amounts
