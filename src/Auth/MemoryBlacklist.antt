-- ===== src/Auth/MemoryBlacklist.antt =====
-- pkg/auth/memory_blacklist.go: revoked token ids in process memory. Times and durations are
-- numbers of nanoseconds; each operation takes the reading of its clock. The mutex makes each call
-- atomic.
pub mod Laws
use wapgo.Base.{
  ℕ, suc, ◌+◌, Bool, true, false, not, Option, none, some, [], leb, ltb, length, if◌then◌else◌,
  Result, ok, err,
}
use wapgo.Base.Text.{Text, text_eq}
use wapgo.Base.Dict.{Dict, lookup, insert, erase, retain}

pub data BlacklistError : Type 0 where
  empty_jti storage_failed : BlacklistError

abbrev pub sweep_threshold : ℕ
sweep_threshold = 1024

-- jti → expiry
pub record MemoryBlacklist : Type 0 where
  pub m : Dict ℕ

unfoldable pub new_memory_blacklist : MemoryBlacklist
new_memory_blacklist = record { m = [] }

unfoldable pub swept : ℕ → Dict ℕ → Dict ℕ
unfolding retain
swept now m = if leb sweep_threshold (length m) then retain (λ exp. ltb now exp) m else m

unfoldable pub revoke :
    ℕ → Text → ℕ → MemoryBlacklist → Result BlacklistError (Unit {0}) × MemoryBlacklist
unfolding swept insert text_eq
revoke now jti ttl b =
    if text_eq jti []
    then (err empty_jti, b)
    else (ok tt, record { m = insert jti (now + ttl) (swept now b.m) })

unfoldable pub is_revoked :
    ℕ → Text → MemoryBlacklist → Result BlacklistError Bool × MemoryBlacklist
unfolding lookup erase text_eq
is_revoked now jti b = if text_eq jti [] then (ok false, b) else (elim (lookup jti b.m) [
  | none ↦ (ok false, b)
  | some exp ↦ if ltb now exp then (ok true, b) else (ok false, record { m = erase jti b.m })
])
