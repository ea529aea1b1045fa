-- ===== src/Auth/Middleware/Laws.antt =====
-- Whom pkg/auth/middleware.go lets through.
use wapgo.Base.{
  ℕ, ◌+◌, ◌-◌, ◌^◌, ◌≤◌, ◌<◌, ◌≡◌, ◌≢◌, true, false, Option, none, some, List, [], ◌++◌, any, ◌↔◌,
  if◌then◌else◌, ok, arith, Option-cases, Result-cases, Bool-cases, inl, inr,
}
use wapgo.Base.Text.{Text, text_eq, text_eq_iff, strip_prefix, strip_prefix-eq-some}
use wapgo.Auth.Jwt.{Config, Claims, JwtLib, sign, verify, lifetime, access, refresh, new_claims}
use wapgo.Auth.Jwt.Laws.{IsJwtLib, verify-sign, verify-Running}
use wapgo.Auth.Blacklist.{Blacklist, IsBlacklist}
use wapgo.Auth.Middleware.{
  unauthorized, next, bearer, is_typed_otherwise, check_blacklist, middleware, require_role,
}

module _ (lib : JwtLib) {B : Type 0} where
  -- Why a request passed.
  pub record IsAdmitted (cfg : Config) (bl : Option (Blacklist B)) (now : ℕ) (raw : Text) (b : B)
      (c : Claims) : Type 0 where
    pub token : Text
    pub header : raw ≡ bearer ++ token
    pub verified : verify lib now token cfg ≡ ok c
    pub typed : is_typed_otherwise c ≡ false
    pub passed : (check_blacklist lib now bl c b).0 ≡ next c

  check_blacklist-next :
      (now : ℕ) (bl : Option (Blacklist B)) (c c' : Claims) (b : B)
      → (check_blacklist lib now bl c b).0 ≡ next c'
      → c ≡ c'
  unfolding check_blacklist
  check_blacklist-next now none c c' b e = cc
  check_blacklist-next now (some bl) c c' b e = ground arith

  -- A request passes only with a bearer token that verifies, is no refresh token, and is not
  -- reported as revoked; the claims handed on are those of the token.
  pub middleware-IsAdmitted :
      (cfg : Config) (bl : Option (Blacklist B)) (now : ℕ) (raw : Text) (b : B) (c : Claims)
      → (middleware lib cfg bl now raw b).0 ≡ next c
      → IsAdmitted cfg bl now raw b c
  unfolding middleware
  middleware-IsAdmitted cfg bl now raw b c e = elim (Option-cases (strip_prefix bearer raw)) [
    | inl other ↦ absurd (ground arith)
    | inr (token, found) ↦ elim (Result-cases (verify lib now token cfg)) [
      | inr (e', refused) ↦ absurd (ground arith)
      | inl (c', verified) ↦ elim (Bool-cases (is_typed_otherwise c')) [
        | inl refresh_type ↦ absurd (ground arith)
        | inr typed ↦
            let passed : (check_blacklist lib now bl c' b).0 ≡ next c = ground arith in
            let same = check_blacklist-next now bl c' c b passed in
            record {
              token = token;
              header = strip_prefix-eq-some bearer raw token found;
              verified = rw (← same) verified;
              typed = rw (← same) typed;
              passed = rw (← same) (rw (← same) at passed);
            }
      ]
    ]
  ]

  -- A header that carries a token which verifies to these claims.
  middleware_token :
      (cfg : Config) (bl : Option (Blacklist B)) (now : ℕ) (token : Text) (b : B) (c : Claims)
      → verify lib now token cfg ≡ ok c
      → middleware lib cfg bl now (bearer ++ token) b
        ≡ (if is_typed_otherwise c then (unauthorized, b) else check_blacklist lib now bl c b)
  unfolding middleware
  middleware_token cfg bl now token b c e = rw (e, middleware)

-- A refresh token that the service signed is no bearer token: whatever lifetime it was signed with
-- and whatever the blacklist holds, the middleware rejects it as long as it verifies.
pub middleware-refresh_token :
    (lib : JwtLib) (laws : IsJwtLib lib) {B : Type 0} (cfg : Config) (expiry : ℕ)
    (bl : Option (Blacklist B)) (b : B) (now t : ℕ) (jti subject : Text) (roles : List Text)
    (token id : Text)
    → sign lib now jti subject roles refresh (record cfg { expiry = expiry }) ≡ ok (token, id)
    → now ≤ t
    → t + 10 ^ 9 ≤ now + lifetime (record cfg { expiry = expiry })
    → middleware lib cfg bl t (bearer ++ token) b ≡ (unauthorized, b)
unfolding verify text_eq
middleware-refresh_token lib laws cfg expiry bl b now t jti subject roles token id e h k =
    let long : Config = record cfg { expiry = expiry } in
    middleware_token lib cfg bl t token b (new_claims lib now jti subject roles refresh long)
      (verify-sign lib laws now t jti subject roles refresh long token id e h k)

module _ (lib : JwtLib) (laws : IsJwtLib lib) {B : Type 0} (bl : Blacklist B)
    (contract : IsBlacklist bl) where
  -- An access token passes, and with its own claims, as long as it verifies and is not revoked.
  pub middleware-access_token :
      (cfg : Config) (b : B) (now t : ℕ) (jti subject : Text) (roles : List Text) (token id : Text)
      → sign lib now jti subject roles access cfg ≡ ok (token, id)
      → now ≤ t
      → t + 10 ^ 9 ≤ now + lifetime cfg
      → contract.banned t b jti ≡ false
      → (middleware lib cfg (some bl) t (bearer ++ token) b).0
        ≡ next (new_claims lib now jti subject roles access cfg)
  unfolding check_blacklist text_eq
  middleware-access_token cfg b now t jti subject roles token id e h k free =
      let c = new_claims lib now jti subject roles access cfg in
      rw
        (middleware_token lib cfg (some bl) t token b c
          (verify-sign lib laws now t jti subject roles access cfg token id e h k))
        (ground (arith, contract.check t jti b))

  -- A token whose id is banned at the moment does not pass.
  pub middleware_banned :
      (cfg : Config) (b : B) (t : ℕ) (raw : Text) (c : Claims)
      → c.id ≢ []
      → contract.banned t b c.id ≡ true
      → (middleware lib cfg (some bl) t raw b).0 ≢ next c
  unfolding check_blacklist
  middleware_banned cfg b t raw c named banned e =
      let a = middleware-IsAdmitted lib cfg (some bl) t raw b c e in
      let passed = a.passed in ground (arith, contract.check t c.id b, text_eq_iff c.id [])

  -- Once the id of a token is revoked for the rest of the token's lifetime, no request with that
  -- token passes at any later time.
  pub middleware_revoked :
      (cfg : Config) (b : B) (now t exp : ℕ) (raw : Text) (c : Claims)
      → contract.IsFit b
      → c.id ≢ []
      → c.expires_at ≡ some exp
      → now ≤ exp
      → now ≤ t
      → (middleware lib cfg (some bl) t raw (bl.revoke now c.id (exp - now) b).1).0 ≢ next c
  middleware_revoked cfg b now t exp raw c fit named expires early later e =
      let b' = (bl.revoke now c.id (exp - now) b).1 in
      let a = middleware-IsAdmitted lib cfg (some bl) t raw b' c e in
      let running = verify-Running lib laws t a.token cfg c a.verified in
      let alive : t < exp = rw expires at running in
      let banned : contract.banned t b' c.id ≡ true = ground (
        arith,
        contract.banned_revoke now t c.id c.id (exp - now) b fit named later,
        text_eq_iff c.id c.id,
      ) in
      middleware_banned cfg b' t raw c named banned e

-- A role guard passes exactly the requests whose token carries one of the allowed roles; it answers
-- 401 exactly when there are no claims, and 403 otherwise.
pub require_role_lem :
    (roles : List Text) (claims : Option Claims)
    → ((require_role roles claims ≡ unauthorized) ↔ (claims ≡ none))
      × ((c : Claims)
          → (require_role roles claims ≡ next c)
            ↔ ((claims ≡ some c) × (any (λ r. any (λ a. text_eq a r) roles) c.roles ≡ true)))
unfolding require_role
require_role_lem roles none = (ground arith, λ c. ground arith)
require_role_lem roles (some c) = (ground arith, λ c'. ground arith)
