-- ===== src/RateLimit/Memory/Quota.antt =====
-- The quota that pkg/ratelimit/memory.go enforces: how many calls of one client are allowed in a
-- window, what other clients do to it, and when a denied client may come back.
use Prim.Native.Nat.{min}
use wapgo.Base.{
  ℕ, ◌+◌, ◌-◌, ◌<◌, ◌≡◌, refl, ◌∙◌, Bool, true, false, Option, none, some, List, [], ◌∷◌, leb, ltb,
  ◌&&◌, if◌then◌else◌, arith, Bool-cases, inl, inr,
}
use wapgo.Base.Text.{Text, text_eq, text_eq_iff}
use wapgo.Base.Dict.{lookup, IsUnique}
use wapgo.RateLimit.{Result}
use wapgo.RateLimit.Memory.{WindowState, MemoryLimiter, current, verdict, hit, allow}
use wapgo.RateLimit.Memory.Refinement.{
  Windows, spec_allow, run, spec_run, allow_run-eq-spec_run, step-reply, step-Agrees, Agrees-stored,
  Agrees-later,
}

abbrev pub total_wait : List (ℕ × Text) → ℕ
total_wait [] = 0
total_wait ((wait, key) ∷ calls) = wait + total_wait calls

-- How often a client calls, and how many of its calls are allowed.
abbrev pub calls_of : Text → List (ℕ × Text) → ℕ
calls_of k [] = 0
calls_of k ((wait, key) ∷ calls) = (if text_eq key k then 1 else 0) + calls_of k calls

abbrev pub granted : Text → List (ℕ × Text) → List Result → ℕ
granted k [] rs = 0
granted k (call ∷ calls) [] = 0
granted k ((wait, key) ∷ calls) (r ∷ rs) =
    (if text_eq key k && r.allowed then 1 else 0) + granted k calls rs

-- The client has no window, or its window is over.
abbrev pub is_over : ℕ → Option WindowState → Bool
is_over now none = true
is_over now (some w) = leb w.reset_at now

module _ (max window : ℕ) (k : Text) where
  -- The windows after a call.
  after : ℕ → Text → Windows → Windows
  after now key s = (spec_allow max window now key s).1

  after_self :
      (now : ℕ) (key : Text) (s : Windows)
      → text_eq key k ≡ true
      → after now key s k ≡ some (hit (current now window (s k)))
  unfolding after spec_allow
  after_self now key s e = ground (arith, text_eq_iff key k)

  after_other :
      (now : ℕ) (key : Text) (s : Windows) → text_eq key k ≡ false → after now key s k ≡ s k
  unfolding after spec_allow
  after_other now key s e = rw e

  current_open :
      (now : ℕ) (s : Windows) (w : WindowState)
      → s k ≡ some w
      → now < w.reset_at
      → current now window (s k) ≡ w
  unfolding current
  current_open now s w e h = rw e (ground arith)

  current_over :
      (now : ℕ) (s : Windows)
      → is_over now (s k) ≡ true
      → current now window (s k) ≡ record { count = 0; reset_at = now + window }
  unfolding current
  current_over now s e = ground arith

  -- The call's own share.
  granted_step :
      (now wait : ℕ) (key : Text) (calls : List (ℕ × Text)) (s : Windows)
      → granted k ((wait, key) ∷ calls) (spec_run max window now ((wait, key) ∷ calls) s)
        ≡ (if text_eq key k && ltb (current (now + wait) window (s k)).count max then 1 else 0)
          + granted k calls (spec_run max window (now + wait) calls (after (now + wait) key s))
  unfolding spec_run spec_allow verdict after
  granted_step now wait key calls s = ground (arith, text_eq_iff key k)

  -- Within an open window, the calls that are left over from the quota are allowed.
  granted_open :
      (now : ℕ) (calls : List (ℕ × Text)) (s : Windows) (w : WindowState)
      → s k ≡ some w
      → now + total_wait calls < w.reset_at
      → granted k calls (spec_run max window now calls s) ≡ min (max - w.count) (calls_of k calls)
  granted_open now [] s w e h = omega arith
  granted_open now ((wait, key) ∷ calls) s w e h = elim (Bool-cases (text_eq key k)) [
    | inl same ↦
        let found : after (now + wait) key s k ≡ some (hit w) =
          after_self (now + wait) key s same ∙ rw (current_open (now + wait) s w e (omega arith)) in
        ground (
          arith,
          granted_step now wait key calls s,
          current_open (now + wait) s w e (omega arith),
          granted_open (now + wait) calls (after (now + wait) key s) (hit w) found (omega arith),
        )
    | inr other ↦ ground (
      arith,
      granted_step now wait key calls s,
      granted_open (now + wait) calls (after (now + wait) key s) w
          (after_other (now + wait) key s other ∙ e) (omega arith),
    )
  ]

  over_later :
      (now wait : ℕ) (o : Option WindowState) → is_over now o ≡ true → is_over (now + wait) o ≡ true
  over_later now wait none e = refl
  over_later now wait (some w) e = ground arith

  -- From a client's first call on, a whole quota.
  granted_over :
      (now : ℕ) (calls : List (ℕ × Text)) (s : Windows)
      → 0 < max
      → is_over now (s k) ≡ true
      → total_wait calls < window
      → granted k calls (spec_run max window now calls s) ≡ min max (calls_of k calls)
  granted_over now [] s p e h = omega arith
  granted_over now ((wait, key) ∷ calls) s p e h =
      let over = over_later now wait (s k) e in
      elim (Bool-cases (text_eq key k)) [
        | inl same ↦
            let w : WindowState = record { count = 1; reset_at = now + wait + window } in
            let found : after (now + wait) key s k ≡ some w =
              after_self (now + wait) key s same
              ∙ rw (current_over (now + wait) s over) (ground arith) in
            ground (
              arith,
              granted_step now wait key calls s,
              current_over (now + wait) s over,
              granted_open (now + wait) calls (after (now + wait) key s) w found (omega arith),
            )
        | inr other ↦ ground (
          arith,
          granted_step now wait key calls s,
          granted_over (now + wait) calls (after (now + wait) key s) p
              (rw (after_other (now + wait) key s other) over) (omega arith),
        )
      ]

-- A client whose window is over (or that was never seen) gets its whole quota and no more: of its
-- calls within one window length, mixed with any calls of other clients and any number of sweeps,
-- exactly `max` are allowed, or all if there are fewer.
pub granted-run :
    (l : MemoryLimiter) (now : ℕ) (k : Text) (calls : List (ℕ × Text))
    → IsUnique l.m
    → 0 < l.max
    → is_over now (lookup k l.m) ≡ true
    → total_wait calls < l.window
    → granted k calls (run now calls l) ≡ min l.max (calls_of k calls)
granted-run l now k calls u p e h =
    rw (allow_run-eq-spec_run l now calls u)
      (granted_over l.max l.window k now calls (λ j. lookup j l.m) p e h)

-- What the abstract limiter answers to a client that was denied and waited.
spec_retry :
    (max window now : ℕ) (k : Text) (s : Windows)
    → 0 < max
    → 0 < window
    → (spec_allow max window now k s).0.allowed ≡ false
    → let (r, s') = spec_allow max window now k s in
      (0 < r.retry_after) × ((spec_allow max window (now + r.retry_after) k s').0.allowed ≡ true)
unfolding spec_allow current verdict
spec_retry max window now k s p q e = ground (arith, text_eq_iff k k)

-- A denied client is told a wait of some length, and if it waits that long its next call is
-- allowed.
pub allow_after_wait :
    (l : MemoryLimiter) (now : ℕ) (k : Text)
    → IsUnique l.m
    → 0 < l.max
    → 0 < l.window
    → (allow now k l).0.allowed ≡ false
    → (0 < (allow now k l).0.retry_after)
      × ((allow (now + (allow now k l).0.retry_after) k (allow now k l).1).0.allowed ≡ true)
allow_after_wait l now k u p q e =
    let s : Windows = λ j. lookup j l.m in
    let start = Agrees-stored l now u in
    let first = step-reply l.max l.window now k l s start in
    let next = step-Agrees l.max l.window now k l s start in
    let wait = (spec_allow l.max l.window now k s).0.retry_after in
    let later =
      Agrees-later l.max l.window now wait (allow now k l).1 (spec_allow l.max l.window now k s).1
        next in
    let second =
      step-reply l.max l.window (now + wait) k (allow now k l).1
        (spec_allow l.max l.window now k s).1 later in
    let (positive, allowed) = spec_retry l.max l.window now k s p q (rw first at e) in
    rw (first, second) (positive, allowed)
