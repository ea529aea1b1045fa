-- ===== src/Auth/MemoryBlacklist/Laws.antt =====
-- Which tokens pkg/auth/memory_blacklist.go reports as revoked, and when.
use wapgo.Base.{
  ℕ, ◌+◌, ◌≤◌, ◌≡◌, ◌≢◌, refl, Bool, false, Option, none, some, [], leb, ltb, length, if◌then◌else◌,
  ok, arith, Bool-cases, inl, inr, ◌&&◌, not,
}
use wapgo.Base.Text.{Text, text_eq, text_eq_iff}
use wapgo.Base.Dict.{
  Dict, lookup, IsUnique, lookup-insert, lookup-erase, lookup-retain, insert-IsUnique,
  erase-IsUnique, retain-IsUnique, keep_if,
}
use wapgo.Auth.MemoryBlacklist.{MemoryBlacklist, swept, sweep_threshold, revoke, is_revoked}

-- The id is listed with an expiry that is still to come.
abbrev pub listed : ℕ → Option ℕ → Bool
listed now none = false
listed now (some exp) = ltb now exp

-- A revocation that is in force at `now`.
unfoldable pub is_banned : ℕ → MemoryBlacklist → Text → Bool
is_banned now b jti = listed now (lookup jti b.m)

abbrev pub IsValid : MemoryBlacklist → Type 0
IsValid b = IsUnique b.m

listed-keep_if :
    (now t : ℕ) (o : Option ℕ) → now ≤ t → listed t (keep_if (λ exp. ltb now exp) o) ≡ listed t o
listed-keep_if now t none h = refl
listed-keep_if now t (some exp) h = ground arith

listed-swept :
    (now t : ℕ) (jti : Text) (m : Dict ℕ)
    → IsUnique m
    → now ≤ t
    → listed t (lookup jti (swept now m)) ≡ listed t (lookup jti m)
unfolding swept
listed-swept now t jti m u h = elim (Bool-cases (leb sweep_threshold (length m))) [
  | inl full ↦
      rw (full, lookup-retain jti (λ exp. ltb now exp) m u) (listed-keep_if now t (lookup jti m) h)
  | inr room ↦ rw room
]

swept-IsUnique : (now : ℕ) (m : Dict ℕ) → IsUnique m → IsUnique (swept now m)
unfolding swept
swept-IsUnique now m u = ground (arith, retain-IsUnique (λ exp. ltb now exp) m u)

pub revoke-IsValid :
    (now : ℕ) (jti : Text) (ttl : ℕ) (b : MemoryBlacklist)
    → IsValid b
    → IsValid (revoke now jti ttl b).1
unfolding revoke
revoke-IsValid now jti ttl b v =
    ground (arith, insert-IsUnique jti (now + ttl) (swept now b.m) (swept-IsUnique now b.m v))

pub is_revoked-IsValid :
    (now : ℕ) (jti : Text) (b : MemoryBlacklist) → IsValid b → IsValid (is_revoked now jti b).1
unfolding is_revoked
is_revoked-IsValid now jti b v = ground (arith, erase-IsUnique jti b.m v)

-- What a check answers, the empty id aside.
pub is_revoked-eq-is_banned :
    (now : ℕ) (jti : Text) (b : MemoryBlacklist)
    → (is_revoked now jti b).0 ≡ ok (not (text_eq jti []) && is_banned now b jti)
unfolding is_revoked is_banned
is_revoked-eq-is_banned now jti b = ground arith

-- A check changes no later check.
pub is_banned-is_revoked :
    (now t : ℕ) (jti j : Text) (b : MemoryBlacklist)
    → now ≤ t
    → is_banned t (is_revoked now jti b).1 j ≡ is_banned t b j
unfolding is_revoked is_banned
is_banned-is_revoked now t jti j b h = ground (arith, lookup-erase j jti b.m, text_eq_iff jti j)

-- A revocation at `now` for a lifetime holds for its id until that lifetime is over, and changes
-- nothing for any other id, although the call may drop ids whose time is over.
pub is_banned-revoke :
    (now t : ℕ) (jti j : Text) (ttl : ℕ) (b : MemoryBlacklist)
    → IsValid b
    → jti ≢ []
    → now ≤ t
    → is_banned t (revoke now jti ttl b).1 j
      ≡ (if text_eq jti j then ltb t (now + ttl) else is_banned t b j)
unfolding revoke is_banned
is_banned-revoke now t jti j ttl b v nonempty h = ground (
  arith,
  text_eq_iff jti [],
  lookup-insert j jti (now + ttl) (swept now b.m),
  listed-swept now t j b.m v h,
)
