-- ===== src/Auth.antt =====
-- pkg/auth: signing and verifying tokens, revoked tokens, and the middleware that uses both.
pub mod RedisBlacklist
pub mod Jwt
pub mod Blacklist
pub mod Middleware
pub mod MemoryBlacklist
