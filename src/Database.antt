-- ===== src/Database.antt =====
-- pkg/database.
pub mod Timeout
