-- ===== src/RateLimit/Http.antt =====
-- internal/delivery/http/middleware/ratelimit.go. What the middleware decides is data: to go on,
-- with the header X-RateLimit-Remaining if the limiter answered, or to answer 429 with the seconds
-- of the header Retry-After. `Seconds()` is a float that is cut to an integer; for every duration
-- below ninety days that is the quotient written here (from 2^24 seconds on it can be one more).
pub mod Laws
use wapgo.Base.{ℕ, ◌*◌, ◌/◌, ◌^◌, Bool, Option, none, some, ltb, if◌then◌else◌, Result, ok, err}
use wapgo.Base.Int.{ℤ, pos, ltb_ℤ}
use wapgo.Base.Text.{Text}
use wapgo.Base.Errors.{GoError}
use wapgo.RateLimit as RateLimit
use wapgo.RateLimit.Memory.{MemoryLimiter, minute, new_memory, allow}

pub data Decision : Type 0 where
  proceed : Option ℕ → Decision
  too_many_requests : ℕ → ℕ → Decision

abbrev pub second : ℕ
second = 10 ^ 9

-- The value of Retry-After for a wait.
unfoldable pub retry_after_header : ℕ → ℕ
retry_after_header wait = if ltb (wait / second) 1 then 1 else wait / second

-- The handler that `RateLimiterWith` returns, on the limiter's answer.
unfoldable pub rate_limiter_with : Result GoError RateLimit.Result → Decision
unfolding retry_after_header
rate_limiter_with (err e) = proceed none
rate_limiter_with (ok res) =
    if res.allowed
    then proceed (some res.remaining)
    else too_many_requests res.remaining (retry_after_header res.retry_after)

-- `RateLimiterWith` over the limiter in process memory, which never fails, on a request of a
-- client.
unfoldable pub limited : ℕ → Text → MemoryLimiter → Decision × MemoryLimiter
unfolding allow rate_limiter_with
limited now ip l = let (res, l') = allow now ip l in (rate_limiter_with (ok res), l')

abbrev pub positive_or : ℤ → Option ℤ → ℤ
positive_or d none = d
positive_or d (some n) = if ltb_ℤ (pos 0) n then n else d

-- `defaultLimiter`: the two environment variables as they are parsed, `none` for one that is unset
-- or is no number (no duration).
unfoldable pub default_limiter : Option ℤ → Option ℤ → MemoryLimiter
unfolding new_memory
default_limiter max window =
    new_memory (positive_or (pos 100) max) (positive_or (pos minute) window)
