-- ===== src/RateLimit/Memory/Refinement.antt =====
-- pkg/ratelimit/memory.go against an abstract limiter that holds one window per key and never
-- forgets.
use wapgo.Base.{
  ℕ, ◌+◌, ◌≤◌, ◌≡◌, refl, ap, ◌∙◌, Option, none, some, List, [], ◌∷◌, leb, ltb, length,
  if◌then◌else◌, arith, Bool-cases, inl, inr,
}
use wapgo.Base.Text.{Text, text_eq}
use wapgo.Base.Dict.{
  lookup, insert, IsUnique, lookup-insert, lookup-retain, insert-IsUnique, retain-IsUnique, keep_if,
}
use wapgo.RateLimit.{Result}
use wapgo.RateLimit.Memory.{
  sweep_threshold, WindowState, MemoryLimiter, sweep_locked, current, verdict, hit, allow,
}

-- One window per key; `none` for a key that was never seen.
abbrev pub Windows : Type 0
Windows = Text → Option WindowState

unfoldable pub spec_allow : ℕ → ℕ → ℕ → Text → Windows → Result × Windows
spec_allow max window now key s =
    let w = hit (current now window (s key)) in
    (verdict max now w, λ j. if text_eq key j then some w else s j)

-- A window that is over counts for nothing, so it may be dropped.
current-keep_if :
    (now t window : ℕ) (o : Option WindowState)
    → now ≤ t
    → current t window (keep_if (λ w. ltb now w.reset_at) o) ≡ current t window o
unfolding current
current-keep_if now t window none h = refl
current-keep_if now t window (some w) h = ground arith

-- The next call at any time from `now` on finds the same window under either.
pub record Agrees (max window now : ℕ) (l : MemoryLimiter) (s : Windows) : Type 0 where
  pub same_max : l.max ≡ max
  pub same_window : l.window ≡ window
  pub unique : IsUnique l.m
  pub seen : (t : ℕ) (k : Text) → now ≤ t → current t window (lookup k l.m) ≡ current t window (s k)

-- Calls in order, each with the time since the one before and the client's key.
unfoldable pub run : ℕ → List (ℕ × Text) → MemoryLimiter → List Result
run now [] l = []
run now ((wait, key) ∷ calls) l =
    let (r, l') = allow (now + wait) key l in r ∷ run (now + wait) calls l'

module _ (max window : ℕ) where
  pub Agrees-later :
      (now wait : ℕ) (l : MemoryLimiter) (s : Windows)
      → Agrees max window now l s
      → Agrees max window (now + wait) l s
  Agrees-later now wait l s a = record {
    same_max = a.same_max;
    same_window = a.same_window;
    unique = a.unique;
    seen = λ t k h. a.seen t k (omega arith);
  }

  swept : ℕ → MemoryLimiter → MemoryLimiter
  swept now l = if leb sweep_threshold (length l.m) then sweep_locked now l else l

  swept-Agrees :
      (now : ℕ) (l : MemoryLimiter) (s : Windows)
      → Agrees max window now l s
      → Agrees max window now (swept now l) s
  unfolding swept sweep_locked
  swept-Agrees now l s a = elim (Bool-cases (leb sweep_threshold (length l.m))) [
    | inr room ↦ rw room a
    | inl full ↦ rw full (record {
      same_max = a.same_max;
      same_window = a.same_window;
      unique = retain-IsUnique _ l.m a.unique;
      seen = λ t k h.
          rw (lookup-retain k (λ w. ltb now w.reset_at) l.m a.unique)
            (current-keep_if now t window (lookup k l.m) h ∙ a.seen t k h);
    })
  ]

  -- The part of `Allow` after the sweep.
  count_in : ℕ → Text → MemoryLimiter → Result × MemoryLimiter
  count_in now key l =
      let w = hit (current now l.window (lookup key l.m)) in
      (verdict l.max now w, record l { m = insert key w l.m })

  allow-count_in :
      (now : ℕ) (key : Text) (l : MemoryLimiter) → allow now key l ≡ count_in now key (swept now l)
  unfolding allow count_in swept
  allow-count_in now key l = refl

  count_in-reply :
      (now : ℕ) (key : Text) (l : MemoryLimiter) (s : Windows)
      → Agrees max window now l s
      → (count_in now key l).0 ≡ (spec_allow max window now key s).0
  unfolding count_in spec_allow
  count_in-reply now key l s a = rw (a.same_max, a.same_window, a.seen now key (omega arith))

  count_in-Agrees :
      (now : ℕ) (key : Text) (l : MemoryLimiter) (s : Windows)
      → Agrees max window now l s
      → Agrees max window now (count_in now key l).1 (spec_allow max window now key s).1
  unfolding count_in spec_allow
  count_in-Agrees now key l s a =
      let w = hit (current now l.window (lookup key l.m)) in
      record {
        same_max = a.same_max;
        same_window = a.same_window;
        unique = insert-IsUnique key w l.m a.unique;
        seen = λ t k h.
            ground (arith, lookup-insert k key w l.m, a.seen now key (omega arith), a.seen t k h);
      }

  unfoldable pub spec_run : ℕ → List (ℕ × Text) → Windows → List Result
  spec_run now [] s = []
  spec_run now ((wait, key) ∷ calls) s =
      let (r, s') = spec_allow max window (now + wait) key s in r ∷ spec_run (now + wait) calls s'

  pub step-Agrees :
      (now : ℕ) (key : Text) (l : MemoryLimiter) (s : Windows)
      → Agrees max window now l s
      → Agrees max window now (allow now key l).1 (spec_allow max window now key s).1
  step-Agrees now key l s a =
      rw (allow-count_in now key l)
        (count_in-Agrees now key (swept now l) s (swept-Agrees now l s a))

  pub step-reply :
      (now : ℕ) (key : Text) (l : MemoryLimiter) (s : Windows)
      → Agrees max window now l s
      → (allow now key l).0 ≡ (spec_allow max window now key s).0
  step-reply now key l s a =
      rw (allow-count_in now key l)
        (count_in-reply now key (swept now l) s (swept-Agrees now l s a))

  run-Agrees :
      (now : ℕ) (calls : List (ℕ × Text)) (l : MemoryLimiter) (s : Windows)
      → Agrees max window now l s
      → run now calls l ≡ spec_run now calls s
  unfolding run spec_run
  run-Agrees now [] l s a = refl
  run-Agrees now ((wait, key) ∷ calls) l s a =
      let later = Agrees-later now wait l s a in
      let r = spec_allow max window (now + wait) key s in
      rw (step-reply (now + wait) key l s later) (
        ap (λ rs. r.0 ∷ rs)
          (run-Agrees (now + wait) calls (allow (now + wait) key l).1 r.1
            (step-Agrees (now + wait) key l s later)))

-- A limiter agrees with its own stored windows.
pub Agrees-stored :
    (l : MemoryLimiter) (now : ℕ) → IsUnique l.m → Agrees l.max l.window now l (λ k. lookup k l.m)
Agrees-stored l now u = record {
  same_max = refl;
  same_window = refl;
  unique = u;
  seen = λ t k h. refl;
}

-- Whatever is called and whenever, a limiter that stores no key twice answers as the abstract
-- limiter which starts from its stored windows and never drops one: the sweep cannot be observed.
pub allow_run-eq-spec_run :
    (l : MemoryLimiter) (now : ℕ) (calls : List (ℕ × Text))
    → IsUnique l.m
    → run now calls l ≡ spec_run l.max l.window now calls (λ k. lookup k l.m)
allow_run-eq-spec_run l now calls u =
    run-Agrees l.max l.window now calls l (λ k. lookup k l.m) (Agrees-stored l now u)
