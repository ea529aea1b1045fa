-- ===== src/Tests/Stores.antt =====
-- The in-process cacher, limiter and blacklist on short runs.
use Prim.Native.Nat.{min}
use wapgo.Cache.Memory.{read}
use wapgo.Base.{ℕ, ◌<◌, ◌≡◌, refl, false, Option, none, some, List, [], ◌∷◌, arith}
use wapgo.Base.{err, ok}
use wapgo.Base.Int.{pos}
use wapgo.Base.Text.{Text, codes, text_eq}
use wapgo.Cache.Memory.{new, set, get, drop, miss, Cacher}
use wapgo.Cache.Memory.Laws as Laws
use wapgo.Cache.Memory.Race.{get_loses_set}
use wapgo.Cache.Memory.Refinement as Cache
use wapgo.Cache.Memory.Refinement.{Call, set_call, get_call, del_call, exists_call, run-eq-spec_run}
use wapgo.RateLimit.Memory.{MemoryLimiter, new_memory, allow}
use wapgo.RateLimit.Memory.Refinement as Limiter
use wapgo.RateLimit.Memory.Refinement.{allow_run-eq-spec_run}
use wapgo.RateLimit.Memory.Quota.{granted, calls_of, total_wait, granted-run}
use wapgo.Base.Dict.{lookup, IsUnique}

-- Numbers are their own encoding.
abbrev same : ℕ → Option ℕ
same n = some n

abbrev calls : List (ℕ × Call ℕ)
calls =
    (0, set_call (codes "a") 7 (pos 10))
    ∷ (3, get_call (codes "a"))
    ∷ (8, get_call (codes "a"))
    ∷ (0, set_call (codes "b") 1 (pos 0))
    ∷ (1, exists_call (codes "b"))
    ∷ (0, del_call (codes "b" ∷ []))
    ∷ (0, exists_call (codes "b"))
    ∷ []

run-eq-spec_run_example :
    Cache.run same same 5 calls (new (codes "app:")) ≡ Cache.spec_run same same 5 calls (λ k. none)
run-eq-spec_run_example = run-eq-spec_run same same (codes "app:") 5 calls

abbrev limiter : MemoryLimiter
limiter = new_memory (pos 2) (pos 100)

abbrev clients : List (ℕ × Text)
clients = (1, codes "x") ∷ (2, codes "x") ∷ (1, codes "y") ∷ (3, codes "x") ∷ (4, codes "x") ∷ []

limiter-IsUnique : IsUnique limiter.m
unfolding new_memory
limiter-IsUnique = tt

allow_run-eq-spec_run_example :
    Limiter.run 5 clients limiter
    ≡ Limiter.spec_run limiter.max limiter.window 5 clients (λ k. lookup k limiter.m)
allow_run-eq-spec_run_example = allow_run-eq-spec_run limiter 5 clients limiter-IsUnique

max_pos : 0 < limiter.max
unfolding new_memory
max_pos = omega arith

in_window : total_wait clients < limiter.window
unfolding new_memory
in_window = omega arith

granted-run_example :
    granted (codes "x") clients (Limiter.run 5 clients limiter)
    ≡ min limiter.max (calls_of (codes "x") clients)
unfolding lookup new_memory
granted-run_example =
    granted-run limiter 5 (codes "x") clients limiter-IsUnique max_pos refl in_window

-- The limiter after two calls of a client at time 5.
abbrev spent : MemoryLimiter
spent = (allow 5 (codes "x") (allow 5 (codes "x") limiter).1).1

denied : (allow 9 (codes "x") spent).0.allowed ≡ false
unfolding allow new_memory text_eq
denied = refl

-- A cacher whose entry under `k` was over at time 3.
abbrev stale : Cacher ℕ
stale = (set same 1 (codes "k") 1 (pos 2) (new [])).1

stale-IsValid : Laws.IsValid stale
unfolding set new lookup
stale-IsValid = (refl, tt)

get_loses_set_example :
    let after_set = (set same 5 (codes "k") 2 (pos 0) stale).1 in
    (get same 5 (codes "k") stale ≡ (err miss, drop (codes "k") stale))
    × ((get same 9 (codes "k") after_set).0 ≡ ok 2)
    × ((get same 9 (codes "k") (drop (codes "k") after_set)).0 ≡ err miss)
unfolding read set new
get_loses_set_example =
    get_loses_set same same 5 9 (codes "k") 2 2 (record { payload = 1; expires_at = some 3 }) stale
      stale-IsValid refl refl (omega arith) refl
