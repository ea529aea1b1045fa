-- ===== src/RateLimit/Redis.antt =====
-- pkg/ratelimit/redis.go: the limiter whose counters live in Redis. The commands that its script
-- runs are the parameter; the server runs the script as one step. A time is a number of
-- nanoseconds.
pub mod Laws
use wapgo.Base.{
  ℕ, ◌+◌, ◌*◌, ◌-◌, ◌/◌, ◌^◌, ◌++◌, Bool, true, false, Option, none, some, [], ltb, ◌==◌,
  if◌then◌else◌, Result, ok, err,
}
use wapgo.Base.Int.{ℤ, pos, pos_part, ltb_ℤ}
use wapgo.Base.Text.{Text, codes, text_eq}
use wapgo.Base.Errors.{GoError, other, wrapped}
use wapgo.RateLimit as RateLimit
use wapgo.RateLimit.Memory.{minute}

pub record Commands (S : Type 0) : Type 0 where
  pub reachable : ℕ → S → Bool
  pub incr : ℕ → Text → S → ℕ × S
  pub pexpire : ℕ → Text → ℕ → S → S
  pub pttl : ℕ → Text → S → ℤ

pub record RedisLimiter : Type 0 where
  pub prefix : Text
  pub max : ℕ
  pub window : ℕ

unfoldable pub new_redis : Text → ℤ → ℤ → RedisLimiter
unfolding text_eq
new_redis prefix max window = record {
  prefix = if text_eq prefix [] then codes "ratelimit" else prefix;
  max = if ltb_ℤ (pos 0) max then pos_part max else 100;
  window = if ltb_ℤ (pos 0) window then pos_part window else minute;
}

abbrev pub millisecond : ℕ
millisecond = 10 ^ 6

-- The answer to a count and the milliseconds that the key has left.
unfoldable pub answer : RedisLimiter → ℕ × ℤ → RateLimit.Result
answer r (count, ttl_ms) =
    if ltb r.max count
    then record {
      allowed = false;
      remaining = 0;
      retry_after = if ltb_ℤ (pos 0) ttl_ms then pos_part ttl_ms * millisecond else r.window;
    }
    else record { allowed = true; remaining = r.max - count; retry_after = 0 }

module _ {S : Type 0} (commands : Commands S) where
  -- `incrWindowScript`
  unfoldable pub incr_window : ℕ → Text → ℕ → S → (ℕ × ℤ) × S
  incr_window now key ms s =
      let (c, s₁) = commands.incr now key s in
      let s₂ = if c == 1 then commands.pexpire now key ms s₁ else s₁ in
      ((c, commands.pttl now key s₂), s₂)

  unfoldable pub allow : RedisLimiter → ℕ → Text → S → Result GoError RateLimit.Result × S
  unfolding incr_window answer
  allow r now key s =
      if commands.reachable now s
      then (let (reply, s') =
            incr_window now (r.prefix ++ (codes ":" ++ key)) (r.window / millisecond) s in
          (ok (answer r reply), s'))
      else (err (wrapped (codes "rate limit") (other (codes "redis"))), s)
