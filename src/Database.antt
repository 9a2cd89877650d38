-- ===== src/Database.antt =====
-- The database layer of src/Shared/Database.
pub mod ConnectionPool
pub mod Registry
pub mod Query
