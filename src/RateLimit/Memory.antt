-- ===== src/RateLimit/Memory.antt =====
-- pkg/ratelimit/memory.go: the fixed-window limiter in process memory. Times and durations are
-- numbers of nanoseconds; `Allow` takes the reading of its clock. The mutex makes each call atomic.
pub mod Quota
pub mod Refinement
use wapgo.Base.{
  ℕ, suc, ◌+◌, ◌-◌, ◌*◌, ◌^◌, ◌≤◌, ◌<◌, ◌≡◌, Bool, true, false, not, Option, none, some, leb, ltb,
  length, if◌then◌else◌, [],
}
use wapgo.Base.Int.{ℤ, pos, pos_part, ltb_ℤ}
use wapgo.Base.Text.{Text}
use wapgo.Base.Dict.{Dict, lookup, insert, retain, IsUnique}
use wapgo.RateLimit.{Result}

abbrev pub sweep_threshold : ℕ
sweep_threshold = 4096

abbrev pub minute : ℕ
minute = 60 * 10 ^ 9

pub record WindowState : Type 0 where
  pub count : ℕ
  pub reset_at : ℕ

pub record MemoryLimiter : Type 0 where
  pub max : ℕ
  pub window : ℕ
  pub m : Dict WindowState

unfoldable pub new_memory : ℤ → ℤ → MemoryLimiter
new_memory max window = record {
  max = if ltb_ℤ (pos 0) max then pos_part max else 100;
  window = if ltb_ℤ (pos 0) window then pos_part window else minute;
  m = [];
}

unfoldable pub sweep_locked : ℕ → MemoryLimiter → MemoryLimiter
unfolding retain
sweep_locked now l = record l { m = retain (λ w. ltb now w.reset_at) l.m }

-- The window that the call counts in: the stored one, or a new one if there is none or it is over.
unfoldable pub current : ℕ → ℕ → Option WindowState → WindowState
current now window none = record { count = 0; reset_at = now + window }
current now window (some w) =
    if ltb now w.reset_at then w else record { count = 0; reset_at = now + window }

unfoldable pub verdict : ℕ → ℕ → WindowState → Result
verdict max now w =
    if ltb max w.count
    then record { allowed = false; remaining = 0; retry_after = w.reset_at - now }
    else record { allowed = true; remaining = max - w.count; retry_after = 0 }

abbrev pub hit : WindowState → WindowState
hit w = record w { count = w.count + 1 }

unfoldable pub allow : ℕ → Text → MemoryLimiter → Result × MemoryLimiter
unfolding sweep_locked current verdict lookup insert
allow now key l =
    let swept = if leb sweep_threshold (length l.m) then sweep_locked now l else l in
    let w = hit (current now swept.window (lookup key swept.m)) in
    (verdict swept.max now w, record swept { m = insert key w swept.m })
