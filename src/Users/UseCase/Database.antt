-- ===== src/Users/UseCase/Database.antt =====
-- internal/usecase/user_usecase.go over internal/repository/db/user_repository.go and a reachable
-- database: how the calls of a client fit together.
use wapgo.Base.{
  ◌≡◌, refl, Bool, true, false, Option, none, some, List, [], ◌∷◌, any, ok, err, or_err, arith, ◌∙◌,
}
use wapgo.Base.Text.{Text, codes, text_eq}
use wapgo.Base.Errors.{
  GoError, Sentinel, sentinel, other, wrapped, record_not_found, not_found, email_conflict,
  errors_is, wrap,
}
use wapgo.Users.Entity.{User, Uuid, fresh_user, before_create}
use wapgo.Users.Repository.{Gorm, find_by_id, exists_by_email, create, delete, new_user_repository}
use wapgo.Users.Repository.Contract.{
  IsGorm, find_live, has_id, has_email, count_live-find_live, count_live_found,
  find_live-mark_deleted, find_live-append,
}
use wapgo.Users.UseCase.{CreateUserRequest, get_user, create_user, delete_user}

module _ {S : Type 0} (db : Gorm S) (laws : IsGorm db) (hash : Text → Option Text)
    (parse : Text → Option Uuid) where
  -- A user as the use case hands it to the insert.
  abbrev pub new_row : Uuid → CreateUserRequest → Text → User
  new_row drawn req hashed = record (fresh_user req.name req.email hashed) { id = drawn }

  before_create_fresh :
      (drawn : Uuid) (req : CreateUserRequest) (hashed : Text)
      → before_create drawn (fresh_user req.name req.email hashed) ≡ new_row drawn req hashed
  unfolding before_create text_eq
  before_create_fresh drawn req hashed = refl

  find_by_id_lem :
      (id : Uuid) (s : S)
      → find_by_id db id s
        ≡ or_err (sentinel record_not_found) (find_live (has_id id) (laws.rows s))
  unfolding find_by_id
  find_by_id_lem id s = ground (arith, laws.first_by_id id s)

  exists_free :
      (email : Text) (s : S)
      → find_live (has_email email) (laws.rows s) ≡ none
      → exists_by_email db email s ≡ ok false
  unfolding exists_by_email
  exists_free email s h =
      ground
        (arith, laws.count_email email s, count_live-find_live (has_email email) (laws.rows s) h)

  exists_taken :
      (email : Text) (s : S) (u : User)
      → find_live (has_email email) (laws.rows s) ≡ some u
      → exists_by_email db email s ≡ ok true
  unfolding exists_by_email
  exists_taken email s u h =
      ground (arith, laws.count_email email s, count_live_found (has_email email) (laws.rows s) u h)

  get_user_lem :
      (text : Text) (id : Uuid) (s : S)
      → parse text ≡ some id
      → get_user (new_user_repository db) hash parse text s
        ≡ or_err (sentinel not_found) (find_live (has_id id) (laws.rows s))
  unfolding get_user new_user_repository find_by_id
  get_user_lem text id s parsed = ground (arith, find_by_id_lem id s)

  -- The use case over this repository, when no live user has the email and the password hashes.
  create_user_free :
      (drawn : Uuid) (req : CreateUserRequest) (hashed : Text) (s : S)
      → find_live (has_email req.email) (laws.rows s) ≡ none
      → hash req.password ≡ some hashed
      → let w = db.insert (new_row drawn req hashed) s in
        create_user (new_user_repository db) hash parse drawn req s
        ≡ (wrap (codes "create user") (wrap (codes "create user") w.0), w.1)
  unfolding create_user new_user_repository create
  create_user_free drawn req hashed s free h =
      rw (exists_free req.email s free, create_user, new_user_repository, h)
        (ground (arith, before_create_fresh drawn req hashed))

  any-find_live : (p : User → Bool) (us : List User) → any p us ≡ false → find_live p us ≡ none
  unfolding find_live
  any-find_live p [] h = refl
  any-find_live p (u ∷ us) h = ground (arith, any-find_live p us)

  -- A created user is found again: with a new email, a new id and a password that hashes, creation
  -- succeeds, the user has the requested email and the hash as its password, and a lookup by the
  -- text of its id returns just that user.
  pub get_user-create_user :
      (drawn : Uuid) (req : CreateUserRequest) (hashed text : Text) (s : S)
      → any (has_email req.email) (laws.rows s) ≡ false
      → any (has_id drawn) (laws.rows s) ≡ false
      → hash req.password ≡ some hashed
      → parse text ≡ some drawn
      → let (r, s') = create_user (new_user_repository db) hash parse drawn req s in
        (u : User) × (r ≡ ok u)
        × (get_user (new_user_repository db) hash parse text s' ≡ ok u)
        × (u.email ≡ req.email)
        × (u.password ≡ hashed)
  get_user-create_user drawn req hashed text s new_email new_id h parsed =
      let row = new_row drawn req hashed in
      let u = laws.stamped s row in
      let w = db.insert row s in
      let made =
        create_user_free drawn req hashed s
          (any-find_live (has_email req.email) (laws.rows s) new_email) h in
      let (inserted, stored) = laws.insert_ok row s new_email new_id in
      let there : find_live (has_id drawn) (laws.rows w.1) ≡ some u = rw stored (
        find_live-append drawn (laws.rows s) u new_id (laws.stamped_id s row)
          (rw (laws.stamped_deleted_at s row) refl)) in
      (
        u,
        rw (made, inserted),
        rw (made, get_user_lem text drawn w.1 parsed, there),
        laws.stamped_email s row,
        laws.stamped_password s row,
      )

  -- Creation with the email of a live user is refused as a conflict and changes nothing.
  pub create_user_conflict :
      (drawn : Uuid) (req : CreateUserRequest) (s : S) (u : User)
      → find_live (has_email req.email) (laws.rows s) ≡ some u
      → create_user (new_user_repository db) hash parse drawn req s
        ≡ (err (sentinel email_conflict), s)
  unfolding create_user new_user_repository
  create_user_conflict drawn req s u h =
      rw (exists_taken req.email s u h, create_user, new_user_repository)

  -- Creation with the email of a deleted user passes the check for a conflict, which sees live
  -- users only, and then fails in the database's unique index with an error that is none of the
  -- domain's own.
  pub create_user_deleted_email :
      (drawn : Uuid) (req : CreateUserRequest) (hashed : Text) (s : S)
      → find_live (has_email req.email) (laws.rows s) ≡ none
      → any (has_email req.email) (laws.rows s) ≡ true
      → hash req.password ≡ some hashed
      → (e : GoError) × (create_user (new_user_repository db) hash parse drawn req s ≡ (err e, s))
        × ((x : Sentinel) → errors_is e x ≡ false)
  unfolding errors_is
  create_user_deleted_email drawn req hashed s free taken h =
      let row = new_row drawn req hashed in
      let text = codes "create user" in
      (
        wrapped text (wrapped text (other (laws.duplicate s))),
        create_user_free drawn req hashed s free h ∙ rw (laws.insert_duplicate row s taken),
        λ x. refl,
      )

  delete_user_found :
      (text : Text) (id : Uuid) (s : S) (u : User)
      → parse text ≡ some id
      → find_live (has_id id) (laws.rows s) ≡ some u
      → let w = db.delete_by_id id s in
        delete_user (new_user_repository db) hash parse text s
        ≡ (wrap (codes "delete user") (wrap (codes "delete user") w.0), w.1)
  unfolding delete_user new_user_repository delete find_by_id
  delete_user_found text id s u parsed there = ground (arith, laws.first_by_id id s)

  delete_user_missing :
      (text : Text) (id : Uuid) (s : S)
      → parse text ≡ some id
      → find_live (has_id id) (laws.rows s) ≡ none
      → delete_user (new_user_repository db) hash parse text s ≡ (err (sentinel not_found), s)
  unfolding delete_user new_user_repository find_by_id
  delete_user_missing text id s parsed gone = ground (arith, laws.first_by_id id s)

  -- Deletion of a user that is found succeeds; after it the user is not found, neither by a lookup
  -- nor by a second deletion, which changes nothing.
  pub get_user-delete_user :
      (text : Text) (id : Uuid) (s : S) (u : User)
      → parse text ≡ some id
      → find_live (has_id id) (laws.rows s) ≡ some u
      → let (r, s') = delete_user (new_user_repository db) hash parse text s in
        (r ≡ ok tt)
        × (get_user (new_user_repository db) hash parse text s' ≡ err (sentinel not_found))
        × (delete_user (new_user_repository db) hash parse text s' ≡ (err (sentinel not_found), s'))
  get_user-delete_user text id s u parsed there =
      let w = db.delete_by_id id s in
      let (done, marked) = laws.delete_by_id id s in
      let gone : find_live (has_id id) (laws.rows w.1) ≡ none =
        rw marked (find_live-mark_deleted (laws.delete_time s) id (laws.rows s)) in
      let first = delete_user_found text id s u parsed there in
      (
        rw (first, done),
        rw (first, get_user_lem text id w.1 parsed, gone),
        rw (first, delete_user_missing text id w.1 parsed gone),
      )
