-- ===== src/RateLimit/Http/Laws.antt =====
-- What a client learns from the header Retry-After
-- (internal/delivery/http/middleware/ratelimit.go), over the limiter of pkg/ratelimit/memory.go.
use wapgo.Base.{
  ℕ, ◌+◌, ◌*◌, ◌<◌, ◌≡◌, ◌≤◌, ◌%◌, ◌==◌, ◌||◌, refl, Bool, true, false, not, ltb, leb, arith,
}
use wapgo.Base.Text.{Text, text_eq_iff}
use wapgo.Base.Dict.{lookup, IsUnique}
use wapgo.RateLimit.Memory.{MemoryLimiter, allow, current, verdict}
use wapgo.RateLimit.Memory.Refinement.{
  Windows, spec_allow, step-reply, step-Agrees, Agrees-stored, Agrees-later,
}
use wapgo.RateLimit.Http.{
  Decision, proceed, too_many_requests, second, retry_after_header, rate_limiter_with, limited,
}

spec_wait :
    (max window now d : ℕ) (k : Text) (s : Windows)
    → 0 < max
    → 0 < window
    → (spec_allow max window now k s).0.allowed ≡ false
    → let (r, s') = spec_allow max window now k s in
      (spec_allow max window (now + d) k s').0.allowed ≡ not (ltb d r.retry_after)
unfolding spec_allow current verdict
spec_wait max window now d k s p q e = ground (arith, text_eq_iff k k)

-- A denied client that waits for any time is allowed exactly when it waited as long as it was told.
allow_after :
    (l : MemoryLimiter) (now d : ℕ) (k : Text)
    → IsUnique l.m
    → 0 < l.max
    → 0 < l.window
    → (allow now k l).0.allowed ≡ false
    → (allow (now + d) k (allow now k l).1).0.allowed ≡ not (ltb d (allow now k l).0.retry_after)
allow_after l now d k u p q e =
    let s : Windows = λ j. lookup j l.m in
    let start = Agrees-stored l now u in
    let first = step-reply l.max l.window now k l s start in
    let next = step-Agrees l.max l.window now k l s start in
    let later =
      Agrees-later l.max l.window now d (allow now k l).1 (spec_allow l.max l.window now k s).1
        next in
    let second =
      step-reply l.max l.window (now + d) k (allow now k l).1 (spec_allow l.max l.window now k s).1
        later in
    rw (first, second) (spec_wait l.max l.window now d k s p q (rw first at e))

abbrev pub passes : Decision → Bool
passes (proceed r) = true
passes (too_many_requests r s) = false

passes-limited :
    (now : ℕ) (ip : Text) (l : MemoryLimiter)
    → (passes (limited now ip l).0 ≡ (allow now ip l).0.allowed)
      × ((limited now ip l).1 ≡ (allow now ip l).1)
unfolding limited rate_limiter_with
passes-limited now ip l = (ground arith, refl)

limited_refused :
    (now : ℕ) (ip : Text) (l : MemoryLimiter) (r s : ℕ)
    → (limited now ip l).0 ≡ too_many_requests r s
    → (passes (limited now ip l).0 ≡ false)
      × (s ≡ retry_after_header (allow now ip l).0.retry_after)
unfolding limited rate_limiter_with
limited_refused now ip l r s e = ground arith

-- The seconds of the header are as long as the wait only if that is a second at most or a whole
-- number of them.
whole_seconds :
    (wait : ℕ)
    → let s = retry_after_header wait in
      (1 ≤ s) × (not (ltb (s * second) wait) ≡ (leb wait second || wait % second == 0))
unfolding retry_after_header
whole_seconds wait = ground arith

-- The header Retry-After rounds a wait of less than ninety days down: a client that is answered 429,
-- and comes back after exactly the seconds that the header names, one at least, passes if the wait
-- of the limiter was a second at most or a whole number of seconds, and is rejected again
-- otherwise.
pub limited_after_header :
    (l : MemoryLimiter) (now : ℕ) (ip : Text) (r s : ℕ)
    → IsUnique l.m
    → 0 < l.max
    → 0 < l.window
    → (limited now ip l).0 ≡ too_many_requests r s
    → (allow now ip l).0.retry_after < 7_776_000 * second
    → let wait = (allow now ip l).0.retry_after in
      (1 ≤ s)
      × (passes (limited (now + s * second) ip (limited now ip l).1).0
          ≡ (leb wait second || wait % second == 0))
limited_after_header l now ip r s u p q e bounded =
    let (refused, header) = limited_refused now ip l r s e in
    let (same, state) = passes-limited now ip l in
    let (again, state') = passes-limited (now + s * second) ip (limited now ip l).1 in
    let (least, whole) = whole_seconds (allow now ip l).0.retry_after in
    (
      rw header least,
      rw (again, state, allow_after l now (s * second) ip u p q (rw same at refused), header) whole,
    )
