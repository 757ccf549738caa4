-- ===== src/Database.antt =====
-- The database, packages/core/src/database.
pub mod Batch
pub mod Queue
pub mod Tests
