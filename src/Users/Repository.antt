-- ===== src/Users/Repository.antt =====
-- internal/domain/repository/user_repository.go (the interface) and
-- internal/repository/db/user_repository.go (its implementation over GORM). The database handle
-- with GORM's queries is the parameter `Gorm`; `S` is the state of the database.
pub mod Contract
use wapgo.Base.{ℕ, Bool, true, false, Option, none, some, List, Result, ok, err, if◌then◌else◌, ltb}
use wapgo.Base.Text.{Text, codes}
use wapgo.Base.Errors.{GoError, sentinel, record_not_found, errors_is, wrap, wrapped}
use wapgo.Pagination.{Request, Scoped, scope}
use wapgo.Users.Entity.{User, Uuid, before_create}

pub record UserRepository (S : Type 0) : Type 0 where
  pub find_by_id : Uuid → S → Result GoError User
  pub find_all : S → Result GoError (List User)
  pub find_all_paged : Request → S → Result GoError (List User × ℕ)
  -- The random id of the insert comes first; the result is the user as the hook and the database
  -- leave it.
  pub create : Uuid → User → S → Result GoError User × S
  pub update : User → S → Result GoError User × S
  pub delete : Uuid → S → Result GoError (Unit {0}) × S
  pub exists_by_email : Text → S → Result GoError Bool
  pub find_by_email : Text → S → Result GoError User

-- The queries on the table `users` that the repository makes, each as GORM runs it.
pub record Gorm (S : Type 0) : Type 0 where
  pub first_by_id : Uuid → S → Result GoError User
  pub first_by_email : Text → S → Result GoError User
  pub find : S → Result GoError (List User)
  pub count : S → Result GoError ℕ
  pub find_scoped : Scoped → S → Result GoError (List User)
  pub count_email : Text → S → Result GoError ℕ
  pub insert : User → S → Result GoError User × S
  pub save : User → S → Result GoError User × S
  pub delete_by_id : Uuid → S → Result GoError (Unit {0}) × S

-- `First` in the repository: a missing record is the bare sentinel, any other error is wrapped.
abbrev pub first_or : {A : Type 0} → Text → Result GoError A → Result GoError A
first_or text (ok a) = ok a
first_or text (err e) =
    if errors_is e record_not_found then err (sentinel record_not_found) else err (wrapped text e)

-- The same for a write, whose state stays as the database left it.
abbrev pub wrap_write : {A S : Type 0} → Text → Result GoError A × S → Result GoError A × S
wrap_write text (r, s) = (wrap text r, s)

module _ {S : Type 0} (db : Gorm S) where
  unfoldable pub find_by_id : Uuid → S → Result GoError User
  unfolding errors_is
  find_by_id id s = first_or (codes "find user by id") (db.first_by_id id s)

  unfoldable pub find_all : S → Result GoError (List User)
  find_all s = wrap (codes "find all users") (db.find s)

  unfoldable pub find_all_paged : Request → S → Result GoError (List User × ℕ)
  unfolding scope
  find_all_paged req s = elim (db.count s) [
    | err e ↦ err (wrapped (codes "count users") e)
    | ok total ↦ elim (db.find_scoped (scope req) s) [
      | err e ↦ err (wrapped (codes "find all users paged") e)
      | ok users ↦ ok (users, total)
    ]
  ]

  unfoldable pub create : Uuid → User → S → Result GoError User × S
  unfolding before_create
  create drawn user s = wrap_write (codes "create user") (db.insert (before_create drawn user) s)

  unfoldable pub update : User → S → Result GoError User × S
  update user s = wrap_write (codes "update user") (db.save user s)

  unfoldable pub delete : Uuid → S → Result GoError (Unit {0}) × S
  delete id s = wrap_write (codes "delete user") (db.delete_by_id id s)

  unfoldable pub exists_by_email : Text → S → Result GoError Bool
  exists_by_email email s = elim (db.count_email email s) [
    | err e ↦ err (wrapped (codes "check email existence") e)
    | ok count ↦ ok (ltb 0 count)
  ]

  unfoldable pub find_by_email : Text → S → Result GoError User
  unfolding errors_is
  find_by_email email s = first_or (codes "find user by email") (db.first_by_email email s)

  unfoldable pub new_user_repository : UserRepository S
  unfolding find_by_id find_all find_all_paged create update delete exists_by_email find_by_email
  new_user_repository = record {
    find_by_id = find_by_id;
    find_all = find_all;
    find_all_paged = find_all_paged;
    create = create;
    update = update;
    delete = delete;
    exists_by_email = exists_by_email;
    find_by_email = find_by_email;
  }
