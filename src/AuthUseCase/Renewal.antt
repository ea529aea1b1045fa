-- ===== src/AuthUseCase/Renewal.antt =====
-- A login and the refresh that follows it (internal/usecase/auth_usecase.go).
use wapgo.Base.{
  ℕ, ◌+◌, ◌/◌, ◌^◌, ◌≤◌, ◌≡◌, refl, sym, ap, ◌∙◌, false, some, [], ltb, ok, arith, inl, inr,
  ok_injective,
}
use mathlib.Core.Path.{subst}
use wapgo.Base.Int.{pos}
use wapgo.Base.Text.{text_eq_refl, Text, text_eq_iff}
use wapgo.Cache.Memory.{is_past, deadline}
use wapgo.Cache.Interface.{IsCache}
use wapgo.Auth.Jwt as Jwt
use wapgo.Auth.Jwt.{Config, Claims, sign, verify, lifetime, new_claims}
use wapgo.Auth.Jwt.Laws.{IsJwtLib, verify-sign}
use wapgo.Users.Entity.{User}
use wapgo.AuthUseCase.{
  AuthUseCase, World, Draws, LoginResponse, RefreshSession, version_of, issue_token_pair, second,
  session_doc,
}
use wapgo.AuthUseCase.Keys.{refresh_key, version_key, refresh_key-version_key}
use wapgo.AuthUseCase.Operations.{LoginRequest, login, refresh, rotate, reissue, del_key}
use wapgo.AuthUseCase.Sessions.{IsIssued, issued_seen, version_at, version_of-eq, store_session-ok}
use wapgo.AuthUseCase.Login.{login-IsLogin}
use wapgo.AuthUseCase.Rotation.{refresh_found, looked_up}

-- A session that is stored for the lifetime of its token is there as long as the token verifies.
session_alive :
    (cfg : Config) (now t : ℕ)
    → t + 10 ^ 9 ≤ now + lifetime cfg
    → is_past t (deadline now (pos cfg.expiry)) ≡ false
session_alive cfg now t h = ground arith

module _ {U C B : Type 0} (a : AuthUseCase U C B) (cache : IsCache a.cacher) where
  -- A password version does not rise by itself.
  version_later :
      (now t : ℕ) (subject : Text) (c : C)
      → now ≤ t
      → ltb (version_at a cache now c subject) (version_at a cache t c subject) ≡ false
  version_later now t subject c h = elim (cache.peek_later now t (version_key subject) c h) [
    | inl same ↦ rw same (ground arith)
    | inr gone ↦ rw gone (ground arith)
  ]

  -- What a pair is when both signings succeed.
  abbrev pub pair : Text → Text → LoginResponse
  pair at rt = record {
    access_token = at;
    refresh_token = rt;
    expires_in = a.jwt_cfg.expiry / second;
  }

  issue_signed :
      (now : ℕ) (draws : Draws) (subject at rt : Text) (c : C)
      → sign a.jwt now draws.access_jti subject [] Jwt.access a.jwt_cfg ≡ ok (at, draws.access_jti)
      → sign a.jwt now draws.refresh_jti subject [] Jwt.refresh a.refresh_cfg
        ≡ ok (rt, draws.refresh_jti)
      → (issue_token_pair a now draws subject c).0 ≡ ok (pair at rt)
  unfolding issue_token_pair
  issue_signed now draws subject at rt c signed made =
      rw (signed, issue_token_pair, made)
        (store_session-ok a cache now subject at rt draws.refresh_jti c)

  -- A rotation of a session that is current, for a user that is still there.
  pub rotate_current :
      (now : ℕ) (draws : Draws) (claims : Claims) (session : RefreshSession) (user : User)
      (users : U) (c : C) (at rt : Text)
      → session.subject ≡ claims.subject
      → ltb session.version (version_at a cache now c claims.subject) ≡ false
      → a.parse_uuid claims.subject ≡ some user.id
      → a.user_repo.find_by_id user.id users ≡ ok user
      → sign a.jwt now draws.access_jti claims.subject [] Jwt.access a.jwt_cfg
        ≡ ok (at, draws.access_jti)
      → sign a.jwt now draws.refresh_jti claims.subject [] Jwt.refresh a.refresh_cfg
        ≡ ok (rt, draws.refresh_jti)
      → (rotate a now draws claims session users c).0 ≡ ok (pair at rt)
  unfolding rotate reissue
  rotate_current now draws claims session user users c at rt same current parsed there signed made =
      let c' = del_key a (refresh_key claims.id) (version_of a now claims.subject c).1 in
      ground (
        arith,
        text_eq_iff session.subject claims.subject,
        version_of-eq a cache now claims.subject c,
        issue_signed now draws claims.subject at rt c' signed made,
      )

  -- The refresh token of a login, over a cache that does not fail, can be used: until a second before its lifetime is over, if the
  -- user is still there and signing succeeds, a refresh with it returns the pair that is then
  -- signed.
  pub refresh-login :
      (laws : IsJwtLib a.jwt) (now t : ℕ) (draws next : Draws) (req : LoginRequest)
      (w w' : World U C B) (r : LoginResponse) (user : User) (at rt : Text)
      → cache.IsFit w.cache
      → now ≤ t
      → t + 10 ^ 9 ≤ now + lifetime a.refresh_cfg
      → login a now draws req w ≡ (ok r, w')
      → a.user_repo.find_by_email req.email w.users ≡ ok user
      → a.parse_uuid (a.uuid_string user.id) ≡ some user.id
      → a.user_repo.find_by_id user.id w.users ≡ ok user
      → sign a.jwt t next.access_jti (a.uuid_string user.id) [] Jwt.access a.jwt_cfg
        ≡ ok (at, next.access_jti)
      → sign a.jwt t next.refresh_jti (a.uuid_string user.id) [] Jwt.refresh a.refresh_cfg
        ≡ ok (rt, next.refresh_jti)
      → (refresh a t next r.refresh_token w').0 ≡ ok (pair at rt)
  refresh-login laws now t draws next req w w' r user at rt fit h k e found parsed there signed
        made =
      let x = login-IsLogin a cache now draws req w w' r fit e in
      let same : x.user ≡ user = ok_injective (sym x.found ∙ found) in
      let subject = a.uuid_string user.id in
      let issued : IsIssued a cache now draws subject w.cache w'.cache r =
        subst (λ (u : User). IsIssued a cache now draws (a.uuid_string u.id) w.cache w'.cache r)
          same x.issued in
      let claims = new_claims a.jwt now draws.refresh_jti subject [] Jwt.refresh a.refresh_cfg in
      let good =
        verify-sign a.jwt laws now t draws.refresh_jti subject [] Jwt.refresh a.refresh_cfg
          r.refresh_token draws.refresh_jti issued.refresh_signed h k in
      let session : RefreshSession = record {
        subject = subject;
        version = version_at a cache now w.cache subject;
      } in
      let stored : cache.peek t w'.cache (refresh_key draws.refresh_jti)
          ≡ some (session_doc session) =
        issued_seen a cache now t draws subject (refresh_key draws.refresh_jti) w.cache w'.cache r
          issued h
        ∙ rw (text_eq_refl (refresh_key draws.refresh_jti), session_alive a.refresh_cfg now t k) in
      let c = looked_up a cache t claims w'.cache in
      let version : cache.peek t c (version_key subject)
          ≡ cache.peek t w.cache (version_key subject) =
        cache.peek_fetch t t (refresh_key claims.id) (version_key subject) w'.cache (omega arith)
        ∙ issued_seen a cache now t draws subject (version_key subject) w.cache w'.cache r issued h
        ∙ rw (refresh_key-version_key draws.refresh_jti subject) in
      let current : ltb session.version (version_at a cache t c subject) ≡ false =
        rw version (version_later now t subject w.cache h) in
      let there' : a.user_repo.find_by_id user.id w'.users ≡ ok user = rw x.same_users there in
      ap (λ y. y.0) (refresh_found a cache t next r.refresh_token w' claims session good stored)
      ∙ rotate_current t next claims session user w'.users c at rt refl current parsed there' signed
          made
