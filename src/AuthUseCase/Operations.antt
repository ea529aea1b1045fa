-- ===== src/AuthUseCase/Operations.antt =====
-- The five methods of internal/usecase/auth_usecase.go. Each takes the instant of the call; those
-- that issue tokens take the ids that they draw.
use wapgo.Base.{ℕ, ◌+◌, not, ◌&&◌, none, some, [], ◌∷◌, ltb, Result, ok, err, if◌then◌else◌}
use wapgo.Base.Int.{pos}
use wapgo.Base.Text.{Text, codes, text_eq}
use wapgo.Base.Errors.{
  GoError, sentinel, other, wrapped, record_not_found, invalid_credentials, errors_is,
}
use wapgo.Cache.Interface.{get_as}
use wapgo.Auth.Jwt.{Claims, verify}
use wapgo.AuthUseCase.{
  AuthUseCase, World, Draws, LoginResponse, RefreshSession, number_doc, text_doc, as_session,
  as_text, invalid, lookup_error, remaining, reset_ttl, version_ttl, version_of, issue_token_pair,
}
use wapgo.AuthUseCase.Keys.{refresh_key, reset_key, version_key}

pub record LoginRequest : Type 0 where
  pub email : Text
  pub password : Text

pub record ResetPasswordRequest : Type 0 where
  pub token : Text
  pub password : Text

-- The result of a step that touches the cache alone, in the whole world.
abbrev pub with_cache : {U C B A : Type 0} → World U C B → A × C → A × World U C B
with_cache w (r, c) = (r, record w { cache = c })

module _ {U C B : Type 0} (a : AuthUseCase U C B) where
  unfoldable pub login :
      ℕ → Draws → LoginRequest → World U C B → Result GoError LoginResponse × World U C B
  login now draws req w = elim (a.user_repo.find_by_email req.email w.users) [
    | err e ↦ (
      err (
          if errors_is e record_not_found
          then sentinel invalid_credentials
          else wrapped (codes "login find user") e),
      w,
    )
    | ok user ↦
        if a.compare_hash user.password req.password
        then with_cache w (issue_token_pair a now draws (a.uuid_string user.id) w.cache)
        else (err (sentinel invalid_credentials), w)
  ]

  -- `_ = a.cacher.Del(ctx, key)`
  abbrev pub del_key : Text → C → C
  del_key key c = (a.cacher.del (key ∷ []) c).1

  -- `Refresh` after the old session is deleted: the user must still exist.
  unfoldable pub reissue : ℕ → Draws → Text → U → C → Result GoError LoginResponse × C
  reissue now draws subject users c = elim (a.parse_uuid subject) [
    | none ↦ (err invalid, c)
    | some uid ↦ elim (a.user_repo.find_by_id uid users) [
      | err e ↦ (err invalid, c)
      | ok user ↦ issue_token_pair a now draws subject c
    ]
  ]

  -- `Refresh` once the session of the token is found.
  unfoldable pub rotate :
      ℕ → Draws → Claims → RefreshSession → U → C → Result GoError LoginResponse × C
  rotate now draws claims session users c =
      if not (text_eq session.subject claims.subject)
      then (err invalid, c)
      else (let (version, c') = version_of a now claims.subject c in
          let deleted = del_key (refresh_key claims.id) c' in
          if ltb session.version version
          then (err invalid, deleted)
          else reissue now draws claims.subject users deleted)

  unfoldable pub refresh :
      ℕ → Draws → Text → World U C B → Result GoError LoginResponse × World U C B
  refresh now draws token w = elim (verify a.jwt now token a.refresh_cfg) [
    | err e ↦ (err invalid, w)
    | ok claims ↦
        let (r, c) = get_as a.cacher as_session now (refresh_key claims.id) w.cache in
        elim r [
          | err e ↦ (err (lookup_error (codes "refresh session lookup") e), record w { cache = c })
          | ok session ↦ with_cache w (rotate now draws claims session w.users c)
        ]
  ]

  -- Revocation of a token id for the time that the token has left, if there is a blacklist, an id
  -- and time left.
  unfoldable pub revoke_claims : ℕ → Claims → B → Result GoError (Unit {0}) × B
  revoke_claims now claims b = elim a.bl [
    | none ↦ (ok tt, b)
    | some bl ↦
        if not (text_eq claims.id []) && ltb 0 (remaining now claims.expires_at)
        then (let (r, b') = bl.revoke now claims.id (remaining now claims.expires_at) b in
            elim r [
              | err e ↦
                  (err (wrapped (codes "revoke access token") (other (codes "blacklist"))), b')
              | ok _ ↦ (ok tt, b')
            ])
        else (ok tt, b)
  ]

  -- The optional second half of `Logout`: the refresh session goes, and its id is revoked too.
  unfoldable pub end_session : ℕ → Text → World U C B → World U C B
  end_session now refresh_token w =
      if text_eq refresh_token [] then w else (elim (verify a.jwt now refresh_token a.refresh_cfg) [
        | err e ↦ w
        | ok claims ↦ record w {
          cache = del_key (refresh_key claims.id) w.cache;
          revoked = (revoke_claims now claims w.revoked).1;
        }
      ])

  unfoldable pub logout : ℕ → Text → Text → World U C B → Result GoError (Unit {0}) × World U C B
  logout now access_token refresh_token w = elim (verify a.jwt now access_token a.jwt_cfg) [
    | err e ↦ (err invalid, w)
    | ok claims ↦
        let (r, b) = revoke_claims now claims w.revoked in
        let w' = record w { revoked = b } in
        elim r [ err e ↦ (err e, w') | ok _ ↦ (ok tt, end_session now refresh_token w') ]
  ]

  -- `token` is the random id that the call draws; the empty text answers an unknown email.
  unfoldable pub forgot_password : ℕ → Text → Text → World U C B → Result GoError Text × World U C B
  forgot_password now token email w = elim (a.user_repo.find_by_email email w.users) [
    | err e ↦ (
      if errors_is e record_not_found then ok [] else err (wrapped (codes "forgot password") e),
      w,
    )
    | ok user ↦
        let (r, c) =
          a.cacher.set now (reset_key token) (text_doc user.email) (pos reset_ttl) w.cache in
        elim r [
          | err e ↦ (err (wrapped (codes "store reset token") e), record w { cache = c })
          | ok _ ↦ (ok token, record w { cache = c })
        ]
  ]

  -- The end of `ResetPassword`: the token is consumed and the user's password version goes up. The
  -- wrap-around of the version, an `int`, is left out.
  unfoldable pub bump_version : ℕ → Text → Text → C → C
  bump_version now token subject c =
      let (version, c') = version_of a now subject (del_key (reset_key token) c) in
      (a.cacher.set now (version_key subject) (number_doc (version + 1)) (pos version_ttl) c').1

  -- `ResetPassword` once the email of the token is known.
  unfoldable pub set_password :
      ℕ → ResetPasswordRequest → Text → World U C B → Result GoError (Unit {0}) × World U C B
  set_password now req email w = elim (a.user_repo.find_by_email email w.users) [
    | err e ↦ (err (wrapped (codes "reset password find user") e), w)
    | ok user ↦ elim (a.generate_hash a.bcrypt_cost req.password) [
      | none ↦ (err (wrapped (codes "hashing password") (other (codes "bcrypt"))), w)
      | some hash ↦
          let (r, users) = a.user_repo.update (record user { password = hash }) w.users in
          elim r [
            | err e ↦ (err (wrapped (codes "update password") e), record w { users = users })
            | ok saved ↦ (
              ok tt,
              record w {
                users = users;
                cache = bump_version now req.token (a.uuid_string user.id) w.cache;
              },
            )
          ]
    ]
  ]

  unfoldable pub reset_password :
      ℕ → ResetPasswordRequest → World U C B → Result GoError (Unit {0}) × World U C B
  reset_password now req w =
      let (r, c) = get_as a.cacher as_text now (reset_key req.token) w.cache in
      elim r [
        | err e ↦ (err (lookup_error (codes "reset password lookup") e), record w { cache = c })
        | ok email ↦ set_password now req email (record w { cache = c })
      ]
