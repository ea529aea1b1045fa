-- ===== src/Users/Handler/Laws.antt =====
-- What a client of internal/delivery/http/handler/user_handler.go sees.
use wapgo.Base.{◌≡◌, refl, true, Option, none, some, any, arith, ◌⊎◌, inl, inr, Option-cases}
use wapgo.Base.Text.{Text}
use wapgo.Base.Errors.{GoError, wrapped, not_found, email_conflict, invalid_uuid, errors_is}
use wapgo.Response.{status, internal_error}
use wapgo.Users.Entity.{Uuid}
use wapgo.Users.Repository.{Gorm, new_user_repository}
use wapgo.Users.Repository.Contract.{IsGorm, find_live, has_email}
use wapgo.Users.UseCase.{CreateUserRequest, UpdateUserRequest}
use wapgo.Users.UseCase.Database.{create_user_conflict, create_user_deleted_email}
use wapgo.Users.Handler.{map_error, create_user}

-- Context that is added to an error on its way up changes no answer, and an error that is none of
-- the three domain errors is answered by one fixed text: its own is never shown.
pub map_error_opaque :
    {A : Type 0} (text : Text) (e : GoError)
    → (map_error {A = A} (wrapped text e) ≡ map_error e)
      × ((errors_is e not_found ≡ true)
          ⊎ ((errors_is e email_conflict ≡ true)
              ⊎ ((errors_is e invalid_uuid ≡ true) ⊎ (map_error {A = A} e ≡ internal_error))))
unfolding map_error
map_error_opaque text e = (refl, ground arith)

module _ {S : Type 0} (db : Gorm S) (laws : IsGorm db) (hash : Text → Option Text)
    (parse : Text → Option Uuid) (valid_create : CreateUserRequest → Option Text)
    (valid_update : UpdateUserRequest → Option Text) where
  -- A valid creation request with the email of a row of the table, and a password that hashes,
  -- leaves the table as it was. It is answered 409 when a live user has the email; when only
  -- deleted users have it, the answer is 500.
  pub create_user-status :
      (drawn : Uuid) (req : CreateUserRequest) (hashed : Text) (s : S)
      → valid_create req ≡ none
      → any (has_email req.email) (laws.rows s) ≡ true
      → hash req.password ≡ some hashed
      → let (r, s') =
          create_user
            (new_user_repository db)
            hash
            parse
            valid_create
            valid_update
            drawn
            (some req)
            s in
        (status r
          ≡ (elim (find_live (has_email req.email) (laws.rows s)) [ none ↦ 500 | some u ↦ 409 ]))
        × (s' ≡ s)
  unfolding create_user map_error errors_is
  create_user-status drawn req hashed s valid taken h =
      elim (Option-cases (find_live (has_email req.email) (laws.rows s))) [
        | inr (u, live) ↦
            let e = create_user_conflict db laws hash parse drawn req s u live in
            rw (valid, create_user, e, live) (refl, refl)
        | inl free ↦
            let (e, failed, plain) =
              create_user_deleted_email db laws hash parse drawn req hashed s free taken h in
            rw (valid, create_user, failed, free)
              (ground (arith, plain not_found, plain email_conflict, plain invalid_uuid), refl)
      ]
