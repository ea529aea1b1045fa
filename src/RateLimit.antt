-- ===== src/RateLimit.antt =====
-- pkg/ratelimit: what a limiter answers (limiter.go), and its two implementations.
pub mod Memory
pub mod Http
pub mod Redis
use wapgo.Base.{ℕ, Bool}

-- `RetryAfter` is zero when `Allowed` is true.
pub record Result : Type 0 where
  pub allowed : Bool
  pub remaining : ℕ
  pub retry_after : ℕ
