-- ===== src/AuthUseCase.antt =====
-- internal/usecase/auth_usecase.go. The collaborators are the user repository, the cacher and the
-- blacklist by their interfaces; golang-jwt, bcrypt and the uuid package are fields too. A call
-- happens at one instant `now`, and the random ids that it draws are arguments. Errors that the use
-- case does not return to its caller are dropped, as in the source.
pub mod Keys
pub mod Operations
mod Sessions
pub mod Login
pub mod Rotation
pub mod RedisDown
pub mod Renewal
pub mod Reset
pub mod ResetToken
pub mod ResetSessions
pub mod Logout
pub mod ClosedAccess
use wapgo.Base.{
  ℕ, suc, ◌+◌, ◌-◌, ◌*◌, ◌/◌, ◌^◌, Bool, true, false, not, ◌&&◌, Option, none, some, List, [], ◌∷◌,
  ltb, Result, ok, err, if◌then◌else◌,
}
use wapgo.Base.Int.{ℤ, pos}
use wapgo.Base.Text.{Text, codes, text_eq}
use wapgo.Base.Errors.{
  GoError, sentinel, other, wrapped, record_not_found, cache_miss, invalid_credentials,
  invalid_token, errors_is, wrap,
}
use wapgo.Cache.Interface.{CacheOps, get_as}
use wapgo.Auth.Jwt as Jwt
use wapgo.Auth.Jwt.{Config, Claims, JwtLib, sign, verify, access, refresh}
use wapgo.Auth.Blacklist.{Blacklist}
use wapgo.Users.Entity.{User, Uuid}
use wapgo.Users.Repository.{UserRepository}
use Keys.{refresh_key, reset_key, version_key}

pub record RefreshSession : Type 0 where
  pub subject : Text
  pub version : ℕ

-- What the use case stores: each is its own JSON value, and none decodes as another.
pub data Doc : Type 0 where
  session_doc : RefreshSession → Doc
  text_doc : Text → Doc
  number_doc : ℕ → Doc

abbrev pub as_session : Doc → Option RefreshSession
as_session (session_doc s) = some s
as_session (text_doc t) = none
as_session (number_doc n) = none

abbrev pub as_text : Doc → Option Text
as_text (session_doc s) = none
as_text (text_doc t) = some t
as_text (number_doc n) = none

abbrev pub as_number : Doc → Option ℕ
as_number (session_doc s) = none
as_number (text_doc t) = none
as_number (number_doc n) = some n

pub record LoginResponse : Type 0 where
  pub access_token : Text
  pub refresh_token : Text
  pub expires_in : ℕ

abbrev pub second : ℕ
second = 10 ^ 9

abbrev pub reset_ttl : ℕ
reset_ttl = 15 * 60 * second

abbrev pub version_ttl : ℕ
version_ttl = 90 * 24 * 60 * 60 * second

-- The state behind the interfaces: the database, the cache and the revoked tokens.
pub record World (U C B : Type 0) : Type 0 where
  pub users : U
  pub cache : C
  pub revoked : B

pub record AuthUseCase (U C B : Type 0) : Type 0 where
  pub user_repo : UserRepository U
  pub cacher : CacheOps C Doc
  pub jwt_cfg : Config
  pub refresh_cfg : Config
  pub bl : Option (Blacklist B)
  pub bcrypt_cost : ℕ
  pub jwt : JwtLib
  pub generate_hash : ℕ → Text → Option Text
  pub compare_hash : Text → Text → Bool
  pub parse_uuid : Text → Option Uuid
  pub uuid_string : Uuid → Text

-- The two ids that a pair of tokens draws.
pub record Draws : Type 0 where
  pub access_jti : Text
  pub refresh_jti : Text

-- `NewAuthUseCase`, the libraries first.
unfoldable pub new_auth_use_case :
    {U C B : Type 0}
    → JwtLib
    → (ℕ → Text → Option Text)
    → (Text → Text → Bool)
    → (Text → Option Uuid)
    → (Uuid → Text)
    → UserRepository U
    → CacheOps C Doc
    → Config
    → ℕ
    → Option (Blacklist B)
    → ℕ
    → AuthUseCase U C B
new_auth_use_case jwt generate compare parse print repo cacher jwt_cfg refresh_expiry bl cost =
    record {
      user_repo = repo;
      cacher = cacher;
      jwt_cfg = jwt_cfg;
      refresh_cfg = record jwt_cfg { expiry = refresh_expiry };
      bl = bl;
      bcrypt_cost = if ltb cost 10 then 10 else cost;
      jwt = jwt;
      generate_hash = generate;
      compare_hash = compare;
      parse_uuid = parse;
      uuid_string = print;
    }

abbrev pub invalid : GoError
invalid = sentinel invalid_token

abbrev pub or_zero : Result GoError ℕ → ℕ
or_zero (ok n) = n
or_zero (err e) = 0

-- `errors.Is(err, ErrCacheMiss)` is an invalid token, any other error of the lookup is wrapped.
abbrev pub lookup_error : Text → GoError → GoError
lookup_error text e = if errors_is e cache_miss then invalid else wrapped text e

-- The time that a token has left; `Verify` accepts no token without an expiry.
abbrev pub remaining : ℕ → Option ℕ → ℕ
remaining now none = 0
remaining now (some t) = t - now

module _ {U C B : Type 0} (a : AuthUseCase U C B) where
  -- The user's password version; any error counts as version 0.
  unfoldable pub version_of : ℕ → Text → C → ℕ × C
  version_of now subject c =
      let (r, c') = get_as a.cacher as_number now (version_key subject) c in (or_zero r, c')

  -- The last step of `issueTokenPair`, when both tokens are signed.
  unfoldable pub store_session :
      ℕ → Text → Text → Text → Text → C → Result GoError LoginResponse × C
  store_session now subject access_token refresh_token refresh_jti c =
      let (version, c₁) = version_of now subject c in
      let (r, c₂) =
        a.cacher.set now (refresh_key refresh_jti)
          (session_doc (record { subject = subject; version = version })) (pos a.refresh_cfg.expiry)
          c₁ in
      elim r [
        | err e ↦ (err (wrapped (codes "store refresh session") e), c₂)
        | ok _ ↦ (
          ok (record {
            access_token = access_token;
            refresh_token = refresh_token;
            expires_in = a.jwt_cfg.expiry / second;
          }),
          c₂,
        )
      ]

  unfoldable pub issue_token_pair : ℕ → Draws → Text → C → Result GoError LoginResponse × C
  issue_token_pair now draws subject c =
      elim (sign a.jwt now draws.access_jti subject [] access a.jwt_cfg) [
        | err e ↦ (err (wrapped (codes "sign access token") (other (codes "jwt"))), c)
        | ok (access_token, _) ↦
            elim (sign a.jwt now draws.refresh_jti subject [] refresh a.refresh_cfg) [
              | err e ↦ (err (wrapped (codes "sign refresh token") (other (codes "jwt"))), c)
              | ok (refresh_token, refresh_jti) ↦
                  store_session now subject access_token refresh_token refresh_jti c
            ]
      ]
