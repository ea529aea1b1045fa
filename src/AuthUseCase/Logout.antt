-- ===== src/AuthUseCase/Logout.antt =====
-- `Logout` of internal/usecase/auth_usecase.go, with the middleware that guards every other request
-- (pkg/auth/middleware.go).
use wapgo.Base.{
  ℕ, ◌-◌, ◌≤◌, ◌<◌, ◌≡◌, ◌≢◌, sym, ap, ◌∙◌, ◌⊎◌, true, none, some, [], ◌∷◌, ok, err, arith,
  Result-cases, Bool-cases, inl, inr,
}
use wapgo.Base.Text.{Text, text_eq, text_eq_iff, text_eq_refl}
use wapgo.Cache.Interface.{IsCache}
use wapgo.Auth.Jwt.{Claims, verify}
use wapgo.Auth.Jwt.Laws.{IsJwtLib, verify_same}
use wapgo.Auth.Blacklist.{Blacklist, IsBlacklist}
use wapgo.AuthUseCase.{AuthUseCase, World, Draws, invalid, remaining}
use wapgo.AuthUseCase.Keys.{refresh_key}
use wapgo.AuthUseCase.Operations.{revoke_claims, end_session, logout, refresh, del_key}
use wapgo.AuthUseCase.Rotation.{refresh_refused}

module _ {U C B : Type 0} (a : AuthUseCase U C B) where
  -- What stands behind a successful logout.
  pub record IsLogout (now : ℕ) (at rt : Text) (w w' : World U C B) : Type 0 where
    pub claims : Claims
    pub verified : verify a.jwt now at a.jwt_cfg ≡ ok claims
    pub revoked : (revoke_claims a now claims w.revoked).0 ≡ ok tt
    pub ended :
        end_session a now rt (record w { revoked = (revoke_claims a now claims w.revoked).1 }) ≡ w'

  pub logout-IsLogout :
      (now : ℕ) (at rt : Text) (w w' : World U C B)
      → logout a now at rt w ≡ (ok tt, w')
      → IsLogout now at rt w w'
  unfolding logout
  logout-IsLogout now at rt w w' e = elim (Result-cases (verify a.jwt now at a.jwt_cfg)) [
    | inr (x, bad) ↦ absurd (ground arith)
    | inl (claims, good) ↦ elim (Result-cases (revoke_claims a now claims w.revoked).0) [
      | inr (x, failed) ↦ absurd (ground arith)
      | inl (done, revoked) ↦ record {
        claims = claims;
        verified = good;
        revoked = revoked;
        ended = ground arith;
      }
    ]
  ]

  end_session_verified :
      (now : ℕ) (rt : Text) (w : World U C B) (claims : Claims)
      → rt ≢ []
      → verify a.jwt now rt a.refresh_cfg ≡ ok claims
      → end_session a now rt w ≡ record w {
        cache = del_key a (refresh_key claims.id) w.cache;
        revoked = (revoke_claims a now claims w.revoked).1;
      }
  unfolding end_session
  end_session_verified now rt w claims some_token good = ground (arith, text_eq_iff rt [])

  -- The revoked tokens after the optional second half of a logout.
  pub end_session_revoked :
      (now : ℕ) (rt : Text) (w : World U C B)
      → ((end_session a now rt w).revoked ≡ w.revoked)
        ⊎ ((claims : Claims) × (verify a.jwt now rt a.refresh_cfg ≡ ok claims)
            × ((end_session a now rt w).revoked ≡ (revoke_claims a now claims w.revoked).1))
  unfolding end_session
  end_session_revoked now rt w = elim (Bool-cases (text_eq rt [])) [
    | inl empty ↦ inl (rw (empty, end_session))
    | inr given ↦ elim (Result-cases (verify a.jwt now rt a.refresh_cfg)) [
      | inr (x, bad) ↦ inl (rw (given, end_session, bad))
      | inl (claims, good) ↦ inr (claims, good, rw (given, end_session, good))
    ]
  ]

  -- After a logout with a refresh token that verifies, every later refresh with that token is
  -- refused as invalid.
  pub refresh-logout :
      (cache : IsCache a.cacher) (laws : IsJwtLib a.jwt) (now t : ℕ) (draws : Draws) (at rt : Text)
      (w w' : World U C B) (claims : Claims)
      → rt ≢ []
      → verify a.jwt now rt a.refresh_cfg ≡ ok claims
      → logout a now at rt w ≡ (ok tt, w')
      → (refresh a t draws rt w').0 ≡ err invalid
  refresh-logout cache laws now t draws at rt w w' claims some_token good e =
      let x = logout-IsLogout now at rt w w' e in
      let w₁ = record w { revoked = (revoke_claims a now x.claims w.revoked).1 } in
      let deleted : del_key a (refresh_key claims.id) w.cache ≡ w'.cache =
        sym (ap (λ y. y.cache) (end_session_verified now rt w₁ claims some_token good))
        ∙ ap (λ y. y.cache) x.ended in
      let gone : cache.peek t w'.cache (refresh_key claims.id) ≡ none = rw (← deleted) (
        cache.peek_del t (refresh_key claims.id ∷ []) (refresh_key claims.id) w.cache
        ∙ rw (text_eq_refl (refresh_key claims.id))) in
      refresh_refused a cache t draws rt w' (λ claims' good'.
        rw (verify_same a.jwt laws t now rt a.refresh_cfg claims' claims good' good) gone)

  module _ (laws : IsJwtLib a.jwt) (bl : Blacklist B) (contract : IsBlacklist bl)
      (present : a.bl ≡ some bl) where
    -- A revocation puts the id of a token on the list for as long as the token lives.
    pub banned-revoke_claims :
        (now t exp : ℕ) (claims : Claims) (b : B)
        → contract.IsFit b
        → claims.id ≢ []
        → claims.expires_at ≡ some exp
        → now < exp
        → now ≤ t
        → t < exp
        → contract.banned t (revoke_claims a now claims b).1 claims.id ≡ true
    unfolding revoke_claims
    banned-revoke_claims now t exp claims b fit named expires early h alive = ground (
      arith,
      text_eq_iff claims.id [],
      text_eq_iff claims.id claims.id,
      contract.banned_revoke now t claims.id claims.id (exp - now) b fit named h,
    )

    -- The revocation of another id changes nothing for this one.
    pub banned_other :
        (now t : ℕ) (claims : Claims) (j : Text) (b : B)
        → contract.IsFit b
        → claims.id ≢ j
        → now ≤ t
        → contract.banned t (revoke_claims a now claims b).1 j ≡ contract.banned t b j
    unfolding revoke_claims
    banned_other now t claims j b fit ne h = elim (Bool-cases (text_eq claims.id [])) [
      | inl unnamed ↦ ground arith
      | inr named ↦ ground (
        arith,
        text_eq_iff claims.id [],
        text_eq_iff claims.id j,
        λ (n : claims.id ≢ []).
            contract.banned_revoke now t claims.id j (remaining now claims.expires_at) b fit n h,
      )
    ]

    pub revoke_claims_fit :
        (now : ℕ) (claims : Claims) (b : B)
        → contract.IsFit b
        → contract.IsFit (revoke_claims a now claims b).1
    unfolding revoke_claims
    revoke_claims_fit now claims b fit =
        ground (arith, contract.revoke_fit now claims.id (remaining now claims.expires_at) b fit)
