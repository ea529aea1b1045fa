-- ===== src/Auth/Middleware.antt =====
-- pkg/auth/middleware.go. A handler is what it decides: to reject the request, or to pass it on
-- with the claims that it stores for `GetClaims`. `Middleware` threads the state of the blacklist.
pub mod Laws
use wapgo.Base.{
  ℕ, Bool, true, false, not, ◌&&◌, ◌||◌, Option, none, some, List, [], any, if◌then◌else◌, Result,
  ok, err,
}
use wapgo.Base.Text.{Text, codes, text_eq, strip_prefix}
use wapgo.Auth.Jwt.{Config, Claims, JwtLib, verify, access}
use wapgo.Auth.Blacklist.{Blacklist}

pub data Verdict : Type 0 where
  unauthorized forbidden : Verdict
  next : Claims → Verdict

abbrev pub bearer : Text
bearer = codes "Bearer "

-- `TokenType != "" && TokenType != "access"`
abbrev pub is_typed_otherwise : Claims → Bool
is_typed_otherwise c = not (text_eq c.token_type []) && not (text_eq c.token_type access)

module _ (lib : JwtLib) {B : Type 0} where
  -- The optional blacklist check: an error of the storage lets the request pass.
  unfoldable pub check_blacklist : ℕ → Option (Blacklist B) → Claims → B → Verdict × B
  unfolding text_eq
  check_blacklist now none claims b = (next claims, b)
  check_blacklist now (some bl) claims b =
      if text_eq claims.id []
      then (next claims, b)
      else (let (r, b') = bl.is_revoked now claims.id b in
          elim r [
            | err e ↦ (next claims, b')
            | ok revoked ↦ if revoked then (unauthorized, b') else (next claims, b')
          ])

  unfoldable pub middleware : Config → Option (Blacklist B) → ℕ → Text → B → Verdict × B
  unfolding check_blacklist verify strip_prefix text_eq
  middleware cfg bl now raw b = elim (strip_prefix bearer raw) [
    | none ↦ (unauthorized, b)
    | some token ↦ elim (verify lib now token cfg) [
      | err e ↦ (unauthorized, b)
      | ok claims ↦
          if is_typed_otherwise claims then (unauthorized, b) else check_blacklist now bl claims b
    ]
  ]

-- `RequireRole`, on the claims that `GetClaims` finds.
unfoldable pub require_role : List Text → Option Claims → Verdict
unfolding text_eq
require_role roles none = unauthorized
require_role roles (some claims) =
    if any (λ r. any (λ a. text_eq a r) roles) claims.roles then next claims else forbidden
