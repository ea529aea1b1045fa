-- ===== src/AuthUseCase/Login.antt =====
-- `Login` of internal/usecase/auth_usecase.go.
use wapgo.Base.{ℕ, ◌≡◌, refl, true, false, ok, err, arith, Result-cases, Bool-cases, inl, inr}
use wapgo.Base.Errors.{GoError, sentinel, record_not_found, invalid_credentials, errors_is}
use wapgo.Cache.Interface.{IsCache}
use wapgo.Users.Entity.{User}
use wapgo.AuthUseCase.{AuthUseCase, World, Draws, LoginResponse, issue_token_pair}
use wapgo.AuthUseCase.Operations.{LoginRequest, login}
use wapgo.AuthUseCase.Sessions.{IsIssued, issue_token_pair-IsIssued}

module _ {U C B : Type 0} (a : AuthUseCase U C B) where
  -- A client cannot tell an email that is not registered from a wrong password: both logins end
  -- with the same error, and neither changes anything.
  pub login_refusals_alike :
      (now : ℕ) (draws : Draws) (unknown known : LoginRequest) (w : World U C B) (e : GoError)
      (user : User)
      → a.user_repo.find_by_email unknown.email w.users ≡ err e
      → errors_is e record_not_found ≡ true
      → a.user_repo.find_by_email known.email w.users ≡ ok user
      → a.compare_hash user.password known.password ≡ false
      → (login a now draws unknown w ≡ (err (sentinel invalid_credentials), w))
        × (login a now draws known w ≡ (err (sentinel invalid_credentials), w))
  unfolding login
  login_refusals_alike now draws unknown known w e user missing kind found wrong =
      (ground arith, ground arith)

  module _ (cache : IsCache a.cacher) where
    -- What stands behind a successful login.
    pub record IsLogin (now : ℕ) (draws : Draws) (req : LoginRequest) (w w' : World U C B)
        (r : LoginResponse) : Type 0 where
      pub user : User
      pub found : a.user_repo.find_by_email req.email w.users ≡ ok user
      pub matched : a.compare_hash user.password req.password ≡ true
      pub issued : IsIssued a cache now draws (a.uuid_string user.id) w.cache w'.cache r
      pub same_users : w'.users ≡ w.users
      pub same_revoked : w'.revoked ≡ w.revoked

    -- A login succeeds only for the registered email with a password that matches the stored hash;
    -- the tokens are signed for that user, the refresh session is stored with the user's password
    -- version, and neither the database nor the blacklist changes.
    pub login-IsLogin :
        (now : ℕ) (draws : Draws) (req : LoginRequest) (w w' : World U C B) (r : LoginResponse)
        → cache.IsFit w.cache
        → login a now draws req w ≡ (ok r, w')
        → IsLogin now draws req w w' r
    unfolding login
    login-IsLogin now draws req w w' r fit e =
        elim (Result-cases (a.user_repo.find_by_email req.email w.users)) [
          | inr (x, missing) ↦ absurd (ground arith)
          | inl (user, found) ↦ elim (Bool-cases (a.compare_hash user.password req.password)) [
            | inr wrong ↦ absurd (ground arith)
            | inl matched ↦
                let subject = a.uuid_string user.id in
                let pair = issue_token_pair a now draws subject w.cache in
                let answer : pair.0 ≡ ok r = ground arith in
                let after : record w { cache = pair.1 } ≡ w' = ground arith in
                rw (← after) (record {
                  user = user;
                  found = found;
                  matched = matched;
                  issued = issue_token_pair-IsIssued a cache now draws subject w.cache r fit answer;
                  same_users = refl;
                  same_revoked = refl;
                })
          ]
        ]
