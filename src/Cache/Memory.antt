-- ===== src/Cache/Memory.antt =====
-- internal/repository/memory/cache.go: the in-process cacher. A time is a number of nanoseconds,
-- and each operation takes the reading of the clock that it makes. `marshal` and `unmarshal` stand
-- for encoding/json; stored bytes are a type of documents `D`. The mutex makes `Set` and `Del`
-- atomic. `Get` and `Exists` take it once to read and once more to delete an entry that they found
-- expired: `read` and `drop` are these two steps, and `get` and `exists` are calls between whose
-- steps no other call happens.
pub mod Laws
pub mod Race
pub mod Refinement
use wapgo.Base.{
  ℕ, suc, ◌+◌, Bool, true, false, not, Option, none, some, List, [], ◌∷◌, ◌++◌, leb, length,
  if◌then◌else◌, Result, ok, err, or_err,
}
use wapgo.Base.Int.{ℤ, pos, pos_part, ltb_ℤ}
use wapgo.Base.Text.{Text, codes, text_eq}
use wapgo.Base.Dict.{Dict, lookup, insert, erase, retain}

pub data CacheError : Type 0 where
  miss marshal_failed unmarshal_failed : CacheError

abbrev pub sweep_threshold : ℕ
sweep_threshold = 1024

-- `expires_at = none` is the zero time: no expiry.
pub record Entry (D : Type 0) : Type 0 where
  pub payload : D
  pub expires_at : Option ℕ

pub record Cacher (D : Type 0) : Type 0 where
  pub ns : Text
  pub m : Dict (Entry D)

unfoldable pub new : {D : Type 0} → Text → Cacher D
new ns = record { ns = ns; m = [] }

-- `!t.IsZero() && !now.Before(t)`
abbrev pub is_past : ℕ → Option ℕ → Bool
is_past now none = false
is_past now (some t) = leb t now

abbrev pub deadline : ℕ → ℤ → Option ℕ
deadline now ttl = if ltb_ℤ (pos 0) ttl then some (now + pos_part ttl) else none

unfoldable pub prefixed : Text → Text → Text
unfolding text_eq
prefixed ns key = if text_eq ns [] then key else ns ++ (codes ":" ++ key)

module _ {D : Type 0} where
  abbrev pub is_expired : ℕ → Entry D → Bool
  is_expired now e = is_past now e.expires_at

  unfoldable pub sweep_locked : ℕ → Cacher D → Cacher D
  unfolding retain
  sweep_locked now c = record c { m = retain (λ e. not (is_expired now e)) c.m }

  -- The critical section of `Set`.
  unfoldable pub store : ℕ → Text → Entry D → Cacher D → Cacher D
  unfolding sweep_locked insert prefixed
  store now key e c =
      let swept = if leb sweep_threshold (length c.m) then sweep_locked now c else c in
      record swept { m = insert (prefixed swept.ns key) e swept.m }

  unfoldable pub set :
      {V : Type 0}
      → (V → Option D)
      → ℕ
      → Text
      → V
      → ℤ
      → Cacher D
      → Result CacheError (Unit {0}) × Cacher D
  unfolding store
  set marshal now key value ttl c = elim (marshal value) [
    | none ↦ (err marshal_failed, c)
    | some b ↦ (ok tt, store now key (record { payload = b; expires_at = deadline now ttl }) c)
  ]

  -- `e, ok := c.m[full]`, under the read lock.
  unfoldable pub read : Text → Cacher D → Option (Entry D)
  unfolding lookup prefixed
  read key c = lookup (prefixed c.ns key) c.m

  -- `delete(c.m, full)`, under the write lock: whatever is stored under the key by then goes.
  unfoldable pub drop : Text → Cacher D → Cacher D
  unfolding erase prefixed
  drop key c = record c { m = erase (prefixed c.ns key) c.m }

  unfoldable pub get :
      {A : Type 0} → (D → Option A) → ℕ → Text → Cacher D → Result CacheError A × Cacher D
  unfolding read drop
  get unmarshal now key c = elim (read key c) [
    | none ↦ (err miss, c)
    | some e ↦
        if is_expired now e
        then (err miss, drop key c)
        else (or_err unmarshal_failed (unmarshal e.payload), c)
  ]

  unfoldable pub del : List Text → Cacher D → Cacher D
  unfolding erase prefixed
  del [] c = c
  del (k ∷ ks) c = del ks (record c { m = erase (prefixed c.ns k) c.m })

  unfoldable pub exists : ℕ → Text → Cacher D → Bool × Cacher D
  unfolding read drop
  exists now key c = elim (read key c) [
    | none ↦ (false, c)
    | some e ↦ if is_expired now e then (false, drop key c) else (true, c)
  ]
