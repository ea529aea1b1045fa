-- ===== src/Users/UseCase.antt =====
-- internal/usecase/user_usecase.go over the repository interface. The parameters are the
-- repository, bcrypt's hashing (`none` for an error) and the parser of ids (`none` for an error);
-- `S` is the state of the database. A method that only reads has no new state.
pub mod Laws
pub mod Database
use wapgo.Base.{
  ℕ, Bool, true, false, not, ◌&&◌, Option, none, some, List, [], Result, ok, err, if◌then◌else◌,
}
use wapgo.Base.Text.{Text, codes, text_eq}
use wapgo.Base.Errors.{
  GoError, sentinel, other, wrapped, record_not_found, not_found, email_conflict, invalid_uuid,
  errors_is, wrap,
}
use wapgo.Pagination.{Request}
use wapgo.Users.Entity.{User, Uuid, fresh_user}
use wapgo.Users.Repository.{UserRepository}

pub record CreateUserRequest : Type 0 where
  pub name : Text
  pub email : Text
  pub password : Text

pub record UpdateUserRequest : Type 0 where
  pub name : Text
  pub email : Text

-- A lookup by id in the use cases: a missing record is `ErrNotFound`, any other error is wrapped.
abbrev pub or_not_found : {A : Type 0} → Text → Result GoError A → Result GoError A
or_not_found text (ok a) = ok a
or_not_found text (err e) =
    if errors_is e record_not_found then err (sentinel not_found) else err (wrapped text e)

-- `if req.Name != "" { user.Name = req.Name }`
abbrev pub renamed : UpdateUserRequest → User → User
renamed req user = if text_eq req.name [] then user else record user { name = req.name }

-- `req.Email != "" && req.Email != user.Email`
abbrev pub changes_email : UpdateUserRequest → User → Bool
changes_email req user = not (text_eq req.email []) && not (text_eq req.email user.email)

module _ {S : Type 0} (repo : UserRepository S) (hash : Text → Option Text)
    (parse : Text → Option Uuid) where
  unfoldable pub parse_uuid : Text → Result GoError Uuid
  parse_uuid id = elim (parse id) [ none ↦ err (sentinel invalid_uuid) | some uid ↦ ok uid ]

  unfoldable pub get_user : Text → S → Result GoError User
  unfolding parse_uuid errors_is
  get_user id s = elim (parse_uuid id) [
    | err e ↦ err e
    | ok uid ↦ or_not_found (codes "get user") (repo.find_by_id uid s)
  ]

  unfoldable pub list_users : S → Result GoError (List User)
  list_users s = wrap (codes "list users") (repo.find_all s)

  unfoldable pub list_users_paged : Request → S → Result GoError (List User × ℕ)
  list_users_paged req s = wrap (codes "list users paged") (repo.find_all_paged req s)

  -- `drawn` is the random id that the insert draws.
  unfoldable pub create_user : Uuid → CreateUserRequest → S → Result GoError User × S
  unfolding text_eq
  create_user drawn req s = elim (repo.exists_by_email req.email s) [
    | err e ↦ (err (wrapped (codes "check email") e), s)
    | ok exists ↦ if exists then (err (sentinel email_conflict), s) else (elim (hash req.password) [
      | none ↦ (err (wrapped (codes "hashing password") (other (codes "bcrypt"))), s)
      | some hashed ↦
          let (r, s') = repo.create drawn (fresh_user req.name req.email hashed) s in
          (wrap (codes "create user") r, s')
    ])
  ]

  -- The last write of `UpdateUser`.
  unfoldable pub save_user : User → S → Result GoError User × S
  save_user user s = let (r, s') = repo.update user s in (wrap (codes "update user") r, s')

  -- The part of `UpdateUser` after the user was found and renamed.
  unfoldable pub change_email : UpdateUserRequest → User → S → Result GoError User × S
  unfolding save_user text_eq
  change_email req user s =
      if changes_email req user
      then (elim (repo.exists_by_email req.email s) [
        | err e ↦ (err (wrapped (codes "check email") e), s)
        | ok exists ↦
            if exists
            then (err (sentinel email_conflict), s)
            else save_user (record user { email = req.email }) s
      ])
      else save_user user s

  unfoldable pub update_user : Text → UpdateUserRequest → S → Result GoError User × S
  unfolding parse_uuid change_email text_eq errors_is
  update_user id req s = elim (parse_uuid id) [
    | err e ↦ (err e, s)
    | ok uid ↦ elim (or_not_found (codes "find user") (repo.find_by_id uid s)) [
      | err e ↦ (err e, s)
      | ok user ↦ change_email req (renamed req user) s
    ]
  ]

  unfoldable pub delete_user : Text → S → Result GoError (Unit {0}) × S
  unfolding parse_uuid errors_is
  delete_user id s = elim (parse_uuid id) [
    | err e ↦ (err e, s)
    | ok uid ↦ elim (or_not_found (codes "find user") (repo.find_by_id uid s)) [
      | err e ↦ (err e, s)
      | ok user ↦ let (r, s') = repo.delete uid s in (wrap (codes "delete user") r, s')
    ]
  ]
