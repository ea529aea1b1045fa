-- ===== src/AuthUseCase/ResetToken.antt =====
-- The life of a reset token, from `ForgotPassword` to `ResetPassword`
-- (internal/usecase/auth_usecase.go).
use wapgo.Base.{
  ℕ, ◌+◌, ◌≤◌, ◌<◌, ◌≡◌, refl, ◌∙◌, true, none, some, [], ok, err, if◌then◌else◌, arith, inl, inr,
  ltb, ◌⊎◌, Bool-cases,
}
use wapgo.Base.Int.{pos}
use wapgo.Base.Text.{Text, text_eq_refl}
use wapgo.Base.Errors.{GoError, record_not_found, errors_is}
use wapgo.Cache.Interface.{IsCache}
use wapgo.Users.Entity.{User}
use wapgo.AuthUseCase.{AuthUseCase, World, text_doc, invalid, reset_ttl}
use wapgo.AuthUseCase.Keys.{reset_key, version_key-reset_key}
use wapgo.AuthUseCase.Operations.{ResetPasswordRequest, forgot_password, reset_password}
use wapgo.AuthUseCase.Reset.{reset_password_missing, reset_password_parts, peek-reset}

module _ {U C B : Type 0} (a : AuthUseCase U C B) (cache : IsCache a.cacher) where
  -- A reset token is good for one use: after a reset that succeeds, every later reset with the same
  -- token is refused as invalid, whatever the new password.
  pub reset_password_once :
      (now t : ℕ) (req again : ResetPasswordRequest) (w w' : World U C B)
      → cache.IsFit w.cache
      → now ≤ t
      → again.token ≡ req.token
      → reset_password a now req w ≡ (ok tt, w')
      → (reset_password a t again w').0 ≡ err invalid
  reset_password_once now t req again w w' f h same e =
      let x = reset_password_parts a cache now req w w' e in
      let gone : cache.peek t w'.cache (reset_key req.token) ≡ none =
        peek-reset a cache now t req w w' (reset_key req.token) x f h
        ∙ rw (
          version_key-reset_key (a.uuid_string x.user.id) req.token,
          text_eq_refl (reset_key req.token),
        ) in
      reset_password_missing a cache t again w' (rw same gone)

  pub forgot_password_found :
      (now : ℕ) (token email : Text) (user : User) (w : World U C B)
      → a.user_repo.find_by_email email w.users ≡ ok user
      → forgot_password a now token email w ≡ (
        ok token,
        record w {
          cache =
              (a.cacher.set now (reset_key token) (text_doc user.email) (pos reset_ttl) w.cache).1;
        },
      )
  unfolding forgot_password
  forgot_password_found now token email user w found =
      ground
        (arith, cache.set_ok now (reset_key token) (text_doc user.email) (pos reset_ttl) w.cache)

  stored_token :
      (now t : ℕ) (token email : Text) (c : C)
      → cache.IsFit c
      → now ≤ t
      → cache.peek t
          (a.cacher.set now (reset_key token) (text_doc email) (pos reset_ttl) c).1
          (reset_key token)
        ≡ (if ltb t (now + reset_ttl) then some (text_doc email) else none)
  stored_token now t token email c f h =
      cache.peek_set now t (reset_key token) (reset_key token) (text_doc email) (pos reset_ttl) c f
        h
      ∙ rw (text_eq_refl (reset_key token)) (ground arith)

  -- For a registered email the call stores the email under the token that it returns, for fifteen
  -- minutes: until then the token is found, and from then on a reset with it is refused as invalid.
  pub forgot_password_window :
      (now t : ℕ) (token email : Text) (user : User) (req : ResetPasswordRequest) (w : World U C B)
      → cache.IsFit w.cache
      → now ≤ t
      → a.user_repo.find_by_email email w.users ≡ ok user
      → req.token ≡ token
      → let (r, w') = forgot_password a now token email w in
        (r ≡ ok token)
        × (cache.peek t w'.cache (reset_key token)
            ≡ (if ltb t (now + reset_ttl) then some (text_doc user.email) else none))
        × ((t < now + reset_ttl) ⊎ ((reset_password a t req w').0 ≡ err invalid))
  forgot_password_window now t token email user req w f h found same =
      let w' = (forgot_password a now token email w).1 in
      let stored = stored_token now t token user.email w.cache f h in
      rw (forgot_password_found now token email user w found) (
        refl,
        stored,
        elim (Bool-cases (ltb t (now + reset_ttl))) [
          | inl early ↦ inl (ground arith)
          | inr late ↦ inr (reset_password_missing a cache t req _ (rw (same, stored, late)))
        ],
      )

  -- For an email that is not registered the call succeeds as well, with no token, and changes
  -- nothing.
  pub forgot_password_unknown :
      (now : ℕ) (token email : Text) (e : GoError) (w : World U C B)
      → a.user_repo.find_by_email email w.users ≡ err e
      → errors_is e record_not_found ≡ true
      → forgot_password a now token email w ≡ (ok [], w)
  unfolding forgot_password
  forgot_password_unknown now token email e w missing kind = ground arith
