-- ===== src/Users/Handler.antt =====
-- internal/delivery/http/handler/user_handler.go. A request is the path parameter, the query's page
-- parameters, and the body as `BodyParser` leaves it (`none` for a body that cannot be parsed). The
-- validator is the parameter that gives `some message` for an invalid request.
pub mod Laws
use wapgo.Base.{ℕ, Bool, true, false, Option, none, some, List, Result, ok, err, if◌then◌else◌}
use wapgo.Base.Text.{Text, codes}
use wapgo.Base.Errors.{GoError, not_found, email_conflict, invalid_uuid, errors_is}
use wapgo.Pagination.{Request, page_num, page_size}
use wapgo.Response.{
  Reply, success, created, bad_request_reply, not_found_reply, conflict_reply, internal_error,
  paginated,
}
use wapgo.Users.Entity.{User, Uuid}
use wapgo.Users.Repository.{UserRepository}
use wapgo.Users.UseCase as UseCase
use wapgo.Users.UseCase.{CreateUserRequest, UpdateUserRequest}

unfoldable pub map_error : {A : Type 0} → GoError → Reply A
unfolding errors_is
map_error e =
    if errors_is e not_found
    then not_found_reply (codes "user not found")
    else (if errors_is e email_conflict
        then conflict_reply (codes "email already in use")
        else (if errors_is e invalid_uuid
            then bad_request_reply (codes "invalid id format")
            else internal_error))

-- `BodyParser`, then `Validate`: the request, or the answer to a bad one.
abbrev pub checked : {R A : Type 0} → (R → Option Text) → Option R → Result (Reply A) R
checked validate none = err (bad_request_reply (codes "invalid request body"))
checked validate (some req) = elim (validate req) [
  | none ↦ ok req
  | some message ↦ err (bad_request_reply message)
]

-- The last lines of a handler: the error, or the answer made of the result.
abbrev pub answer :
    {A B S : Type 0} → (GoError → Reply B) → (A → Reply B) → Result GoError A × S → Reply B × S
answer failed good (err e, s) = (failed e, s)
answer failed good (ok a, s) = (good a, s)

module _ {S : Type 0} (repo : UserRepository S) (hash : Text → Option Text)
    (parse : Text → Option Uuid) (valid_create : CreateUserRequest → Option Text)
    (valid_update : UpdateUserRequest → Option Text) where
  unfoldable pub get_user : Text → S → Reply User × S
  unfolding map_error UseCase.get_user
  get_user id s =
      answer map_error (λ u. success (codes "user retrieved") (some u))
        (UseCase.get_user repo hash parse id s, s)

  unfoldable pub list_users : Request → S → Reply User × S
  unfolding paginated page_num page_size UseCase.list_users_paged
  list_users req s =
      answer (λ e. internal_error)
        (λ (users, total).
          paginated (codes "users retrieved") users (page_num req) (page_size req) total)
        (UseCase.list_users_paged repo hash parse req s, s)

  unfoldable pub create_user : Uuid → Option CreateUserRequest → S → Reply User × S
  unfolding map_error UseCase.create_user
  create_user drawn body s = elim (checked valid_create body) [
    | err reply ↦ (reply, s)
    | ok req ↦
        answer map_error (λ u. created (codes "user created") (some u))
          (UseCase.create_user repo hash parse drawn req s)
  ]

  unfoldable pub update_user : Text → Option UpdateUserRequest → S → Reply User × S
  unfolding map_error UseCase.update_user
  update_user id body s = elim (checked valid_update body) [
    | err reply ↦ (reply, s)
    | ok req ↦
        answer map_error (λ u. success (codes "user updated") (some u))
          (UseCase.update_user repo hash parse id req s)
  ]

  unfoldable pub delete_user : Text → S → Reply User × S
  unfolding map_error UseCase.delete_user
  delete_user id s =
      answer map_error (λ u. success (codes "user deleted") none)
        (UseCase.delete_user repo hash parse id s)
