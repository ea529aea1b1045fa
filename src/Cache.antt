-- ===== src/Cache.antt =====
-- The cache that the use cases depend on (internal/domain/repository/cache.go) and its in-process
-- implementation (internal/repository/memory).
pub mod Memory
pub mod Redis
pub mod Interface
