-- ===== src/Auth/RedisBlacklist/Laws.antt =====
-- The Redis blacklist of pkg/auth/blacklist.go beside the in-process one.
use wapgo.Base.{
  ℕ, ◌+◌, ◌≤◌, ◌≡◌, ◌≢◌, ◌⊎◌, inl, inr, not, ◌&&◌, [], ltb, if◌then◌else◌, ok, arith, Bool-cases,
}
use wapgo.Base.Text.{Text, codes, text_eq, text_eq_iff, text_eq_refl, append_cancel}
use wapgo.Auth.MemoryBlacklist as Memory
use wapgo.Auth.MemoryBlacklist.{MemoryBlacklist}
use wapgo.Auth.MemoryBlacklist.Laws as MemoryLaws
use wapgo.Redis.{Client, IsClient, millisecond}
use wapgo.Auth.RedisBlacklist.{blacklist_key, revoke, is_revoked}

blacklist_key_eq : (s t : Text) → text_eq (blacklist_key s) (blacklist_key t) ≡ text_eq s t
unfolding blacklist_key
blacklist_key_eq s t = ground (
  arith,
  text_eq_iff (blacklist_key s) (blacklist_key t),
  text_eq_iff s t,
  append_cancel (codes "jwt:bl:") s t,
)

module _ {S : Type 0} (client : Client S) (laws : IsClient client) where
  is_revoked-live :
      (now : ℕ) (jti : Text) (s : S)
      → is_revoked client now jti s
        ≡ ok (not (text_eq jti []) && laws.live now s (blacklist_key jti))
  unfolding is_revoked
  is_revoked-live now jti s = ground (arith, laws.exists_live now (blacklist_key jti) s)

  revoke-live :
      (now t : ℕ) (jti j : Text) (ttl : ℕ) (s : S)
      → jti ≢ []
      → millisecond ≤ ttl
      → now ≤ t
      → (t + millisecond ≤ now + ttl) ⊎ (now + ttl + millisecond ≤ t)
      → laws.live t (revoke client now jti ttl s).1 (blacklist_key j)
        ≡ (if text_eq jti j then ltb t (now + ttl) else laws.live t s (blacklist_key j))
  unfolding revoke
  revoke-live now t jti j ttl s named p h clear = elim (Bool-cases (text_eq jti j)) [
    | inr other ↦ ground (
      arith,
      text_eq_iff jti [],
      laws.set_ok now (blacklist_key jti) ttl s,
      blacklist_key_eq jti j,
      laws.set_other now t (blacklist_key jti) (blacklist_key j) ttl s,
    )
    | inl same ↦
        let own : jti ≡ j = (text_eq_iff jti j).0 same in
        let done = laws.set_ok now (blacklist_key jti) ttl s in
        rw (← own, text_eq_refl jti)
          (elim clear [
            | inl early ↦ ground (
              arith,
              text_eq_iff jti [],
              done,
              laws.set_live now t (blacklist_key jti) ttl s p h early,
            )
            | inr late ↦ ground (
              arith,
              text_eq_iff jti [],
              done,
              laws.set_over now t (blacklist_key jti) ttl s p late,
            )
          ])
  ]

  -- The two blacklists are interchangeable up to a millisecond: if they agree on a token id at a
  -- time, they agree on it after the same revocation, of whatever id, for a lifetime of a millisecond
  -- at least, unless the time is within a millisecond of the end of that lifetime.
  pub revoke_same :
      (now t : ℕ) (jti j : Text) (ttl : ℕ) (s : S) (b : MemoryBlacklist)
      → MemoryLaws.IsValid b
      → jti ≢ []
      → millisecond ≤ ttl
      → now ≤ t
      → (t + millisecond ≤ now + ttl) ⊎ (now + ttl + millisecond ≤ t)
      → is_revoked client t j s ≡ (Memory.is_revoked t j b).0
      → is_revoked client t j (revoke client now jti ttl s).1
        ≡ (Memory.is_revoked t j (Memory.revoke now jti ttl b).1).0
  revoke_same now t jti j ttl s b valid named p h clear same =
      let s' = (revoke client now jti ttl s).1 in
      let b' = (Memory.revoke now jti ttl b).1 in
      ground (
        arith,
        is_revoked-live t j s,
        is_revoked-live t j s',
        revoke-live now t jti j ttl s named p h clear,
        MemoryLaws.is_revoked-eq-is_banned t j b,
        MemoryLaws.is_revoked-eq-is_banned t j b',
        MemoryLaws.is_banned-revoke now t jti j ttl b valid named h,
        same,
      )
