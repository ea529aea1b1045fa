-- ===== src/Api.antt =====
-- The API process: its routes and their guards, the health check, and what cmd/api/main.go decides.
pub mod AccessLog
pub mod Health
pub mod Routes
pub mod Server
