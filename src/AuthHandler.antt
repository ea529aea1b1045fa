-- ===== src/AuthHandler.antt =====
-- internal/delivery/http/handler/auth_handler.go over the session use cases. A body is what
-- `BodyParser` leaves (`none` for one that cannot be parsed); the validators give `some message`
-- for an invalid request.
pub mod Laws
use wapgo.Base.{
  ℕ, Bool, true, false, not, ◌&&◌, Option, none, some, List, [], Result, ok, err, if◌then◌else◌,
}
use wapgo.Base.Text.{Text, codes, text_eq, strip_prefix}
use wapgo.Base.Errors.{GoError, invalid_credentials, invalid_token, errors_is}
use wapgo.Response.{Reply, success, internal_error, unauthorized_reply}
use wapgo.Auth.Middleware.{bearer}
use wapgo.Users.Handler.{checked, answer}
use wapgo.AuthUseCase.{AuthUseCase, World, Draws, LoginResponse}
use wapgo.AuthUseCase.Operations as Operations
use wapgo.AuthUseCase.Operations.{LoginRequest, ResetPasswordRequest}

pub record RefreshRequest : Type 0 where
  pub refresh_token : Text

pub record LogoutRequest : Type 0 where
  pub refresh_token : Text

pub record ForgotPasswordRequest : Type 0 where
  pub email : Text

-- What an answer carries: a pair of tokens, or the fixed message with a reset token if it is shown.
pub data Payload : Type 0 where
  tokens : LoginResponse → Payload
  reset_requested : Option Text → Payload

pub record Validators : Type 0 where
  pub login : LoginRequest → Option Text
  pub refresh : RefreshRequest → Option Text
  pub forgot_password : ForgotPasswordRequest → Option Text
  pub reset_password : ResetPasswordRequest → Option Text

unfoldable pub map_error : GoError → Reply Payload
unfolding errors_is
map_error e =
    if errors_is e invalid_credentials
    then unauthorized_reply
    else (if errors_is e invalid_token then unauthorized_reply else internal_error)

abbrev pub production : Text
production = codes "production"

-- The token that is shown: none in production.
abbrev pub shown_token : Text → Text → Option Text
shown_token env token =
    if not (text_eq token []) && not (text_eq env production) then some token else none

-- The refresh token of a body that may be missing or unreadable.
abbrev pub optional_token : Option LogoutRequest → Text
optional_token none = []
optional_token (some req) = req.refresh_token

module _ {U C B : Type 0} (uc : AuthUseCase U C B) (val : Validators) (env : Text) where
  unfoldable pub login : ℕ → Draws → Option LoginRequest → World U C B → Reply Payload × World U C B
  unfolding map_error
  login now draws body w = elim (checked val.login body) [
    | err reply ↦ (reply, w)
    | ok req ↦
        answer map_error (λ resp. success (codes "login successful") (some (tokens resp)))
          (Operations.login uc now draws req w)
  ]

  unfoldable pub refresh :
      ℕ → Draws → Option RefreshRequest → World U C B → Reply Payload × World U C B
  unfolding map_error
  refresh now draws body w = elim (checked val.refresh body) [
    | err reply ↦ (reply, w)
    | ok req ↦
        answer map_error (λ resp. success (codes "token refreshed") (some (tokens resp)))
          (Operations.refresh uc now draws req.refresh_token w)
  ]

  -- `raw` is the header Authorization.
  unfoldable pub logout :
      ℕ → Text → Option LogoutRequest → World U C B → Reply Payload × World U C B
  unfolding map_error strip_prefix
  logout now raw body w = elim (strip_prefix bearer raw) [
    | none ↦ (unauthorized_reply, w)
    | some access_token ↦
        answer map_error (λ done. success (codes "logged out") none)
          (Operations.logout uc now access_token (optional_token body) w)
  ]

  unfoldable pub forgot_password :
      ℕ → Text → Option ForgotPasswordRequest → World U C B → Reply Payload × World U C B
  unfolding text_eq
  forgot_password now drawn body w = elim (checked val.forgot_password body) [
    | err reply ↦ (reply, w)
    | ok req ↦
        answer (λ e. internal_error)
          (λ token.
            success (codes "password reset requested")
              (some (reset_requested (shown_token env token))))
          (Operations.forgot_password uc now drawn req.email w)
  ]

  unfoldable pub reset_password :
      ℕ → Option ResetPasswordRequest → World U C B → Reply Payload × World U C B
  unfolding map_error
  reset_password now body w = elim (checked val.reset_password body) [
    | err reply ↦ (reply, w)
    | ok req ↦
        answer map_error (λ done. success (codes "password reset successful") none)
          (Operations.reset_password uc now req w)
  ]
