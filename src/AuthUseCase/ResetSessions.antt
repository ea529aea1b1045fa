-- ===== src/AuthUseCase/ResetSessions.antt =====
-- What a password reset does to the refresh sessions that were open before it
-- (internal/usecase/auth_usecase.go).
use wapgo.Base.{ℕ, ◌+◌, ◌≤◌, ◌<◌, ◌≡◌, ap, ◌∙◌, true, false, none, some, [], ltb, ok, err, arith}
use wapgo.Base.Text.{Text, text_eq_refl}
use wapgo.Cache.Interface.{IsCache}
use wapgo.Auth.Jwt as Jwt
use wapgo.Auth.Jwt.{Claims, sign, verify}
use wapgo.Users.Entity.{User}
use wapgo.AuthUseCase.{AuthUseCase, World, Draws, RefreshSession, session_doc, invalid, version_ttl}
use wapgo.AuthUseCase.Keys.{
  refresh_key, version_key, reset_key-refresh_key, version_key-refresh_key,
}
use wapgo.AuthUseCase.Operations.{ResetPasswordRequest, refresh, rotate}
use wapgo.AuthUseCase.Sessions.{version_at, version_of-eq}
use wapgo.AuthUseCase.Rotation.{refresh_found, looked_up}
use wapgo.AuthUseCase.Renewal.{pair, rotate_current}
use wapgo.AuthUseCase.Reset.{ResetParts, peek-reset}

module _ {U C B : Type 0} (a : AuthUseCase U C B) (cache : IsCache a.cacher) where
  -- A session of an older version than the current one is refused.
  rotate_stale :
      (now : ℕ) (draws : Draws) (claims : Claims) (session : RefreshSession) (users : U) (c : C)
      → ltb session.version (version_at a cache now c claims.subject) ≡ true
      → (rotate a now draws claims session users c).0 ≡ err invalid
  unfolding rotate
  rotate_stale now draws claims session users c old =
      ground (arith, version_of-eq a cache now claims.subject c)

  module _ (now t : ℕ) (req : ResetPasswordRequest) (w w' : World U C B)
      (x : ResetParts a cache now req w w') (fit : cache.IsFit w.cache) (h : now ≤ t)
      (claims : Claims) (session : RefreshSession) (mine : claims.subject ≡ a.uuid_string x.user.id)
      (stored : cache.peek t w.cache (refresh_key claims.id) ≡ some (session_doc session)) where
    still_stored : cache.peek t w'.cache (refresh_key claims.id) ≡ some (session_doc session)
    still_stored =
        peek-reset a cache now t req w w' (refresh_key claims.id) x fit h
        ∙ rw
            (
              version_key-refresh_key (a.uuid_string x.user.id) claims.id,
              reset_key-refresh_key req.token claims.id,
            )
            stored

    raised :
        t < now + version_ttl
        → version_at a cache t (looked_up a cache t claims w'.cache) claims.subject
          ≡ version_at a cache now w.cache claims.subject + 1
    raised early =
        let key = version_key (a.uuid_string x.user.id) in
        rw
          (
            mine,
            cache.peek_fetch t t (refresh_key claims.id) key w'.cache (omega arith),
            peek-reset a cache now t req w w' key x fit h,
            text_eq_refl key,
          )
          (ground arith)

  -- A reset ends the sessions of its user: for ninety days, a refresh with a token of that user is
  -- refused as invalid if the token's session was stored with a version that is not above the one
  -- which the cache held when the password was reset.
  pub refresh_after_reset :
      (now t : ℕ) (req : ResetPasswordRequest) (w w' : World U C B)
      (x : ResetParts a cache now req w w') (draws : Draws) (token : Text) (claims : Claims)
      (session : RefreshSession)
      → cache.IsFit w.cache
      → now ≤ t
      → t < now + version_ttl
      → verify a.jwt t token a.refresh_cfg ≡ ok claims
      → claims.subject ≡ a.uuid_string x.user.id
      → cache.peek t w.cache (refresh_key claims.id) ≡ some (session_doc session)
      → session.version ≤ version_at a cache now w.cache claims.subject
      → (refresh a t draws token w').0 ≡ err invalid
  refresh_after_reset now t req w w' x draws token claims session fit h early good mine stored old =
      let here = still_stored now t req w w' x fit h claims session mine stored in
      let version = raised now t req w w' x fit h claims session mine stored early in
      let stale : ltb session.version
            (version_at a cache t (looked_up a cache t claims w'.cache) claims.subject)
          ≡ true =
        rw version (ground arith) in
      ap (λ y. y.0) (refresh_found a cache t draws token w' claims session good here)
      ∙ rotate_stale t draws claims session w'.users (looked_up a cache t claims w'.cache) stale

  -- The exception: a session of a version above 0 that is open when its user's version is no longer
  -- in the cache survives a reset. The reset counts from 0 again, and a refresh with the token of
  -- that session, after the reset, still returns a pair.
  pub refresh_survives_reset :
      (now t : ℕ) (req : ResetPasswordRequest) (w w' : World U C B)
      (x : ResetParts a cache now req w w') (draws : Draws) (token : Text) (claims : Claims)
      (session : RefreshSession) (user : User) (at rt : Text)
      → cache.IsFit w.cache
      → now ≤ t
      → t < now + version_ttl
      → verify a.jwt t token a.refresh_cfg ≡ ok claims
      → claims.subject ≡ a.uuid_string x.user.id
      → cache.peek t w.cache (refresh_key claims.id) ≡ some (session_doc session)
      → session.subject ≡ claims.subject
      → 1 ≤ session.version
      → cache.peek now w.cache (version_key claims.subject) ≡ none
      → a.parse_uuid claims.subject ≡ some user.id
      → a.user_repo.find_by_id user.id w'.users ≡ ok user
      → sign a.jwt t draws.access_jti claims.subject [] Jwt.access a.jwt_cfg
        ≡ ok (at, draws.access_jti)
      → sign a.jwt t draws.refresh_jti claims.subject [] Jwt.refresh a.refresh_cfg
        ≡ ok (rt, draws.refresh_jti)
      → (refresh a t draws token w').0 ≡ ok (pair a cache at rt)
  refresh_survives_reset now t req w w' x draws token claims session user at rt fit h early good
        mine stored own positive expired parsed there signed made =
      let here = still_stored now t req w w' x fit h claims session mine stored in
      let version = raised now t req w w' x fit h claims session mine stored early in
      let current : ltb session.version
            (version_at a cache t (looked_up a cache t claims w'.cache) claims.subject)
          ≡ false =
        rw (version, expired) (ground arith) in
      ap (λ y. y.0) (refresh_found a cache t draws token w' claims session good here)
      ∙ rotate_current a cache t draws claims session user w'.users
          (looked_up a cache t claims w'.cache) at rt own current parsed there signed made
