-- ===== src/Auth/RedisBlacklist.antt =====
-- `RedisBlacklist` of pkg/auth/blacklist.go. An error of the client is the error `storage_failed`.
pub mod Laws
use wapgo.Base.{
  ℕ, ◌++◌, Bool, true, false, Option, none, some, [], ltb, if◌then◌else◌, Result, ok, err,
}
use wapgo.Base.Text.{Text, codes, text_eq}
use wapgo.Auth.MemoryBlacklist.{BlacklistError, empty_jti, storage_failed}
use wapgo.Redis.{Client}

unfoldable pub blacklist_key : Text → Text
blacklist_key jti = codes "jwt:bl:" ++ jti

module _ {S : Type 0} (client : Client S) where
  unfoldable pub revoke : ℕ → Text → ℕ → S → Result BlacklistError (Unit {0}) × S
  unfolding text_eq blacklist_key
  revoke now jti ttl s =
      if text_eq jti []
      then (err empty_jti, s)
      else (let (done, s') = client.set now (blacklist_key jti) ttl s in
          if done then (ok tt, s') else (err storage_failed, s'))

  unfoldable pub is_revoked : ℕ → Text → S → Result BlacklistError Bool
  unfolding text_eq blacklist_key
  is_revoked now jti s =
      if text_eq jti [] then ok false else (elim (client.exists now (blacklist_key jti) s) [
        | none ↦ err storage_failed
        | some n ↦ ok (ltb 0 n)
      ])
