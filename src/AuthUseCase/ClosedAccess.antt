-- ===== src/AuthUseCase/ClosedAccess.antt =====
-- A logout (internal/usecase/auth_usecase.go) seen by the middleware that guards the other requests
-- (pkg/auth/middleware.go) and shares its blacklist.
use wapgo.Base.{
  ℕ, ◌≤◌, ◌<◌, ◌≡◌, ◌≢◌, sym, ap, ◌∙◌, true, Option, some, [], ◌++◌, ok, arith, Option-cases, inl,
  inr, ok_injective,
}
use mathlib.Core.Path.{subst}
use wapgo.Base.Text.{Text, append_cancel}
use wapgo.Auth.Jwt.{Claims, verify}
use wapgo.Auth.Jwt.Laws.{IsJwtLib, Running, verify_same, verify-Running}
use wapgo.Auth.Blacklist.{Blacklist, IsBlacklist}
use wapgo.Auth.Middleware.{middleware, next, bearer}
use wapgo.Auth.Middleware.Laws.{middleware-IsAdmitted, middleware_banned}
use wapgo.AuthUseCase.{AuthUseCase, World}
use wapgo.AuthUseCase.Operations.{revoke_claims, logout}
use wapgo.AuthUseCase.Logout.{
  logout-IsLogout, end_session_revoked, banned-revoke_claims, banned_other, revoke_claims_fit,
}

module _ {U C B : Type 0} (a : AuthUseCase U C B) (laws : IsJwtLib a.jwt) (bl : Blacklist B)
    (contract : IsBlacklist bl) (present : a.bl ≡ some bl) where
  -- The id of the access token is on the list after the whole call.
  banned-logout :
      (now t exp : ℕ) (at rt : Text) (w w' : World U C B) (claims : Claims)
      → contract.IsFit w.revoked
      → verify a.jwt now at a.jwt_cfg ≡ ok claims
      → claims.id ≢ []
      → ((other : Claims) → verify a.jwt now rt a.refresh_cfg ≡ ok other → other.id ≢ claims.id)
      → logout a now at rt w ≡ (ok tt, w')
      → claims.expires_at ≡ some exp
      → now ≤ t
      → t < exp
      → contract.banned t w'.revoked claims.id ≡ true
  banned-logout now t exp at rt w w' claims fit good named apart e expires h alive =
      let x = logout-IsLogout a now at rt w w' e in
      let same : x.claims ≡ claims = ok_injective (sym x.verified ∙ good) in
      let b = (revoke_claims a now claims w.revoked).1 in
      let w₁ = record w { revoked = (revoke_claims a now x.claims w.revoked).1 } in
      let first : contract.banned t b claims.id ≡ true =
        banned-revoke_claims a laws bl contract present now t exp claims w.revoked fit named expires
          (omega arith) h alive in
      let start : w₁.revoked ≡ b = ap (λ (c : Claims). (revoke_claims a now c w.revoked).1) same in
      elim (end_session_revoked a now rt w₁) [
        | inl kept ↦ rw (sym (ap (λ y. y.revoked) x.ended) ∙ kept ∙ start) first
        | inr (other, verified, second) ↦
            rw
              (sym (ap (λ y. y.revoked) x.ended)
                ∙ second
                ∙ ap (λ (r : B). (revoke_claims a now other r).1) start)
              (banned_other a laws bl contract present now t other claims.id b
                  (revoke_claims_fit a laws bl contract present now claims w.revoked fit)
                  (apart other verified) h
                ∙ first)
      ]

  -- After a logout the access token opens nothing: no later request with it passes the middleware,
  -- provided that the use case and the middleware share a blacklist that does not fail, that the
  -- token has an id, and that the refresh token which was closed with it, if any, has another.
  pub middleware-logout :
      (now t : ℕ) (at rt : Text) (w w' : World U C B) (claims c : Claims)
      → contract.IsFit w.revoked
      → verify a.jwt now at a.jwt_cfg ≡ ok claims
      → claims.id ≢ []
      → ((other : Claims) → verify a.jwt now rt a.refresh_cfg ≡ ok other → other.id ≢ claims.id)
      → logout a now at rt w ≡ (ok tt, w')
      → now ≤ t
      → (middleware a.jwt a.jwt_cfg (some bl) t (bearer ++ at) w'.revoked).0 ≢ next c
  middleware-logout now t at rt w w' claims c fit good named apart e h passed =
      let y =
        middleware-IsAdmitted a.jwt a.jwt_cfg (some bl) t (bearer ++ at) w'.revoked c passed in
      let token : at ≡ y.token = append_cancel bearer at y.token y.header in
      let verified : verify a.jwt t at a.jwt_cfg ≡ ok c = rw token y.verified in
      let same : claims ≡ c = verify_same a.jwt laws now t at a.jwt_cfg claims c good verified in
      let running : Running t claims.expires_at =
        subst (λ (k : Claims). Running t k.expires_at) (sym same)
          (verify-Running a.jwt laws t at a.jwt_cfg c verified) in
      elim (Option-cases claims.expires_at) [
        | inl never ↦ absurd (subst (λ (o : Option ℕ). Running t o) never running)
        | inr (exp, expires) ↦
            let alive : t < exp = subst (λ (o : Option ℕ). Running t o) expires running in
            let banned =
              banned-logout now t exp at rt w w' claims fit good named apart e expires h alive in
            middleware_banned a.jwt laws bl contract a.jwt_cfg w'.revoked t (bearer ++ at) claims
              named banned (rw same passed)
      ]
