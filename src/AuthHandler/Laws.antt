-- ===== src/AuthHandler/Laws.antt =====
-- What a client of internal/delivery/http/handler/auth_handler.go can learn.
use wapgo.Base.{ℕ, ◌≡◌, true, false, none, some, ok, err, arith, ◌⊎◌, inl, inr, Result-cases}
use wapgo.Base.Text.{Text, text_eq_refl}
use wapgo.Base.Errors.{GoError, record_not_found, errors_is}
use wapgo.Response.{status, unauthorized_reply}
use wapgo.Users.Entity.{User}
use wapgo.AuthUseCase.{AuthUseCase, World, Draws, text_doc, reset_ttl}
use wapgo.Base.Int.{pos}
use wapgo.AuthUseCase.Operations.{LoginRequest}
use wapgo.AuthUseCase.Login.{login_refusals_alike}
use wapgo.AuthUseCase.Keys.{reset_key}
use wapgo.AuthUseCase.Operations as Operations
use wapgo.AuthHandler.{
  Validators, ForgotPasswordRequest, production, map_error, login, forgot_password,
}

module _ {U C B : Type 0} (uc : AuthUseCase U C B) (val : Validators) where
  -- In production the answer to a password reset request does not tell whether the email is
  -- registered, as long as the cache takes the reset token: of two valid requests, one with a
  -- registered email and one without, the second is answered 200; the first gets the same answer
  -- exactly if its token is stored, and otherwise it is answered 500, which tells them apart.
  pub forgot_password_alike :
      (now : ℕ) (drawn other : Text) (known unknown : ForgotPasswordRequest) (w : World U C B)
      (user : User) (e : GoError)
      → val.forgot_password known ≡ none
      → val.forgot_password unknown ≡ none
      → uc.user_repo.find_by_email known.email w.users ≡ ok user
      → uc.user_repo.find_by_email unknown.email w.users ≡ err e
      → errors_is e record_not_found ≡ true
      → let stored =
          (uc.cacher.set now (reset_key drawn) (text_doc user.email) (pos reset_ttl) w.cache).0 in
        let first = (forgot_password uc val production now drawn (some known) w).0 in
        let second = (forgot_password uc val production now other (some unknown) w).0 in
        (status second ≡ 200)
        × (((stored ≡ ok tt) × (first ≡ second))
            ⊎ ((x : GoError) × (stored ≡ err x) × (status first ≡ 500)))
  unfolding forgot_password Operations.forgot_password
  forgot_password_alike now drawn other known unknown w user e good fine found missing kind =
      let set = uc.cacher.set now (reset_key drawn) (text_doc user.email) (pos reset_ttl) w.cache in
      elim (Result-cases set.0) [
        | inl (done, stored) ↦ (ground arith, inl (stored, ground (arith, text_eq_refl production)))
        | inr (x, refused) ↦ (ground arith, inr (x, refused, ground arith))
      ]

  -- The answer to a login does not tell it either: an email that is not registered and a wrong password are
  -- both answered 401 with the same body, and change nothing.
  pub login_alike :
      (env : Text) (now : ℕ) (draws : Draws) (unknown known : LoginRequest) (w : World U C B)
      (e : GoError) (user : User)
      → val.login unknown ≡ none
      → val.login known ≡ none
      → uc.user_repo.find_by_email unknown.email w.users ≡ err e
      → errors_is e record_not_found ≡ true
      → uc.user_repo.find_by_email known.email w.users ≡ ok user
      → uc.compare_hash user.password known.password ≡ false
      → (login uc val env now draws (some unknown) w ≡ (unauthorized_reply, w))
        × (login uc val env now draws (some known) w ≡ (unauthorized_reply, w))
  unfolding login map_error errors_is
  login_alike env now draws unknown known w e user good fine missing kind found wrong =
      let (a, b) =
        login_refusals_alike uc now draws unknown known w e user missing kind found wrong in
      (rw (good, login, a), rw (fine, login, b))
