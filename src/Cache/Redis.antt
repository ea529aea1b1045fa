-- ===== src/Cache/Redis.antt =====
-- internal/repository/redis/cache.go. The commands of the Redis client are a parameter, with the
-- errors that they return; a stored value is a document `D`, as encoding/json makes it of a value
-- (`none` if it cannot).
use wapgo.Base.{ℕ, Bool, Option, none, some, List, ltb, Result, ok, err, map}
use wapgo.Base.Int.{ℤ}
use wapgo.Base.Text.{Text, codes}
use wapgo.Base.Errors.{GoError, sentinel, other, wrapped, cache_miss}
use wapgo.Cache.Memory.{prefixed}
use wapgo.Cache.Interface.{CacheOps}

-- The answer to GET: a value, `redis.Nil`, or another error.
pub data Got (D : Type 0) : Type 0 where
  found : D → Got D
  absent : Got D
  failed : Text → Got D

-- An error that is `none` is Go's nil.
pub record Commands (S D : Type 0) : Type 0 where
  pub set : ℕ → Text → D → ℤ → S → Option Text × S
  pub get : ℕ → Text → S → Got D × S
  pub del : List Text → S → Option Text × S
  pub exists : ℕ → Text → S → Result Text ℕ

abbrev pub as_result : Option Text → Result GoError (Unit {0})
as_result none = ok tt
as_result (some e) = err (other e)

-- `Get`, up to the decoding: a failure of the server is a miss.
abbrev pub or_degraded : {D : Type 0} → Got D → Result GoError D
or_degraded (found d) = ok d
or_degraded absent = err (sentinel cache_miss)
or_degraded (failed e) = err (sentinel cache_miss)

module _ {S D : Type 0} (commands : Commands S D) (ns : Text) where
  unfoldable pub set :
      {V : Type 0} → (V → Option D) → ℕ → Text → V → ℤ → S → Result GoError (Unit {0}) × S
  unfolding prefixed
  set marshal now key value ttl s = elim (marshal value) [
    | none ↦ (err (other (codes "cache set marshal")), s)
    | some d ↦ let (e, s') = commands.set now (prefixed ns key) d ttl s in (as_result e, s')
  ]

  unfoldable pub fetch : ℕ → Text → S → Result GoError D × S
  unfolding prefixed
  fetch now key s = let (got, s') = commands.get now (prefixed ns key) s in (or_degraded got, s')

  unfoldable pub del : List Text → S → Result GoError (Unit {0}) × S
  unfolding prefixed
  del keys s = let (e, s') = commands.del (map (prefixed ns) keys) s in (as_result e, s')

  unfoldable pub exists : ℕ → Text → S → Result GoError Bool
  unfolding prefixed
  exists now key s = elim (commands.exists now (prefixed ns key) s) [
    | err e ↦ err (wrapped (codes "cache exists") (other e))
    | ok n ↦ ok (ltb 0 n)
  ]

  -- The cacher behind the interface of the use cases.
  unfoldable pub redis_cache : CacheOps S D
  unfolding set fetch del
  redis_cache = record { set = set (λ d. some d); fetch = fetch; del = del }
