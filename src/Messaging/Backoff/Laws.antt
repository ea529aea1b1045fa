-- ===== src/Messaging/Backoff/Laws.antt =====
-- The waits of the consumers of pkg/messaging in a row of failures.
use Prim.Native.Nat.{min}
use wapgo.Base.{ℕ, suc, zero, ◌*◌, ◌^◌, ◌≡◌, refl, arith}
use wapgo.Messaging.Backoff.{second, max_wait, doubled, wait_after}

doubled_lem : (n : ℕ) → doubled (min (second * n) max_wait) ≡ min (second * (n * 2)) max_wait
unfolding doubled
doubled_lem n = ground arith

power : (n : ℕ) → 2 ^ suc n ≡ 2 ^ n * 2
power n = grind arith

-- After `n` failures in a row a consumer waits 2^n seconds, but never more than thirty.
pub wait_after_lem : (n : ℕ) → wait_after n ≡ min (second * 2 ^ n) max_wait
unfolding wait_after
wait_after_lem zero = refl
wait_after_lem (suc n) = rw (wait_after_lem n, power n, doubled_lem (2 ^ n))
