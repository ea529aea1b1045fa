-- ===== src/RateLimit/Redis/Laws.antt =====
-- The quota of the Redis limiter (pkg/ratelimit/redis.go).
use Prim.Native.Nat.{min}
use wapgo.Base.{
  ℕ, ◌+◌, ◌*◌, ◌-◌, ◌/◌, ◌≤◌, ◌<◌, ◌≡◌, ap, ◌∙◌, ◌++◌, length, Bool, true, false, List, [], ◌∷◌,
  leb, if◌then◌else◌, Result, ok, err, arith,
}
use wapgo.Base.Text.{Text, codes}
use wapgo.Base.Errors.{GoError}
use wapgo.RateLimit as RateLimit
use wapgo.RateLimit.Redis.{Commands, RedisLimiter, millisecond, answer, incr_window, allow}

-- A server that stays reachable: a counter holds a number until its expiry; `INCR` counts one
-- further and keeps the expiry, `PEXPIRE` sets the expiry and keeps the number.
pub record IsCommands {S : Type 0} (commands : Commands S) : Type 0 where
  pub count : ℕ → S → Text → ℕ
  pub reaches : (now : ℕ) (s : S) → commands.reachable now s ≡ true
  pub incr_count : (now : ℕ) (k : Text) (s : S) → (commands.incr now k s).0 ≡ count now s k + 1
  pub incr_kept :
      (now t : ℕ) (k : Text) (s : S)
      → now ≤ t
      → 0 < count t s k
      → count t (commands.incr now k s).1 k ≡ count now s k + 1
  pub pexpire_count :
      (now t : ℕ) (k : Text) (ms : ℕ) (s : S)
      → now ≤ t
      → t < now + ms * millisecond
      → count t (commands.pexpire now k ms s) k ≡ count now s k
  pub incr_now :
      (now : ℕ) (k : Text) (s : S) → count now (commands.incr now k s).1 k ≡ count now s k + 1

abbrev pub sum : List ℕ → ℕ
sum [] = 0
sum (n ∷ ns) = n + sum ns

abbrev pub allowed : Result GoError RateLimit.Result → Bool
allowed (ok r) = r.allowed
allowed (err e) = false

module _ {S : Type 0} (commands : Commands S) (laws : IsCommands commands) (r : RedisLimiter) where
  abbrev pub full_key : Text → Text
  full_key key = r.prefix ++ (codes ":" ++ key)

  allow_lem :
      (now : ℕ) (key : Text) (s : S)
      → (allowed (allow commands r now key s).0 ≡ leb (laws.count now s (full_key key) + 1) r.max)
  unfolding allow incr_window answer
  allow_lem now key s = ground (arith, laws.reaches now s, laws.incr_count now (full_key key) s)

  -- The first call of a window is allowed, and opens a window in which the counter is 1.
  allow_first :
      (now t : ℕ) (key : Text) (s : S)
      → laws.count now s (full_key key) ≡ 0
      → now ≤ t
      → t < now + r.window / millisecond * millisecond
      → laws.count t (allow commands r now key s).1 (full_key key) ≡ 1
  unfolding allow incr_window
  allow_first now t key s empty h early = ground (
    arith,
    laws.reaches now s,
    laws.incr_count now (full_key key) s,
    laws.incr_now now (full_key key) s,
    laws.pexpire_count now t (full_key key) (r.window / millisecond)
        (commands.incr now (full_key key) s).1 h early,
  )

  allow_next :
      (now t : ℕ) (key : Text) (s : S)
      → 0 < laws.count now s (full_key key)
      → 0 < laws.count t s (full_key key)
      → now ≤ t
      → laws.count t (allow commands r now key s).1 (full_key key)
        ≡ laws.count now s (full_key key) + 1
  unfolding allow incr_window
  allow_next now t key s running later h = ground (
    arith,
    laws.reaches now s,
    laws.incr_count now (full_key key) s,
    laws.incr_kept now t (full_key key) s h later,
  )

  -- How many of a client's calls are allowed, each with the time since the one before.
  unfoldable pub granted : ℕ → Text → List ℕ → S → ℕ
  granted now key [] s = 0
  granted now key (wait ∷ waits) s =
      let (res, s') = allow commands r (now + wait) key s in
      (if allowed res then 1 else 0) + granted (now + wait) key waits s'

  granted_open :
      (now : ℕ) (key : Text) (waits : List ℕ) (s : S) (c end : ℕ)
      → 0 < c
      → now + sum waits < end
      → ((t : ℕ) → now ≤ t → t < end → laws.count t s (full_key key) ≡ c)
      → granted now key waits s ≡ min (r.max - c) (length waits)
  unfolding granted
  granted_open now key [] s c end p h same = omega arith
  granted_open now key (wait ∷ waits) s c end p h same =
      let s' = (allow commands r (now + wait) key s).1 in
      let here : laws.count (now + wait) s (full_key key) ≡ c =
        same (now + wait) (omega arith) (omega arith) in
      let next =
        granted_open (now + wait) key waits s' (c + 1) end (omega arith) (omega arith) (λ t m n.
          allow_next (now + wait) t key s (omega (arith, here))
            (omega (arith, same t (omega arith) n)) m
          ∙ ap (λ d. d + 1) here) in
      let own = allow_lem (now + wait) key s in ground (arith, here, next, own)

  -- Of the calls of a client within one window, from a moment when its counter is gone, exactly
  -- `max` are allowed, or all if there are fewer.
  pub granted_redis :
      (now : ℕ) (key : Text) (waits : List ℕ) (s : S)
      → 0 < r.max
      → laws.count now s (full_key key) ≡ 0
      → sum waits < r.window / millisecond * millisecond
      → granted now key (0 ∷ waits) s ≡ min r.max (length (0 ∷ waits))
  unfolding granted
  granted_redis now key waits s p empty h =
      let s' = (allow commands r (now + 0) key s).1 in
      let start : now + 0 ≡ now = omega arith in
      let here : laws.count (now + 0) s (full_key key) ≡ 0 = rw start empty in
      let next =
        granted_open (now + 0) key waits s' 1 (now + 0 + r.window / millisecond * millisecond)
          (omega arith) (omega arith) (λ t m n. allow_first (now + 0) t key s here m n) in
      let own = allow_lem (now + 0) key s in ground (arith, here, next, own)
