-- ===== src/Users/UseCase/Laws.antt =====
-- The operations of internal/usecase/user_usecase.go over any repository.
use wapgo.Base.{
  ◌≡◌, true, false, Option, some, [], ok, err, if◌then◌else◌, arith, Option-cases, Result-cases,
  Bool-cases, inl, inr, ◌∙◌, ◌⊎◌, sym,
}
use wapgo.Base.Text.{Text, text_eq, text_eq_iff}
use wapgo.Base.Errors.{Sentinel, sentinel}
use wapgo.Users.Entity.{User, Uuid}
use wapgo.Users.Repository.{UserRepository}
use wapgo.Users.UseCase.{
  CreateUserRequest, UpdateUserRequest, create_user, update_user, delete_user, save_user, renamed,
  change_email, changes_email,
}

module _ {S : Type 0} (repo : UserRepository S) (hash : Text → Option Text)
    (parse : Text → Option Uuid) where
  -- A request that is refused with one of the domain's own errors (a bad id, a missing user, an
  -- email in use) has changed nothing in the database.
  pub refusal-unchanged :
      (e : Sentinel) (s s' : S) (drawn : Uuid) (new : CreateUserRequest) (id : Text)
      (change : UpdateUserRequest)
      → (create_user repo hash parse drawn new s ≡ (err (sentinel e), s'))
        ⊎ ((update_user repo hash parse id change s ≡ (err (sentinel e), s'))
            ⊎ (delete_user repo hash parse id s ≡ (err (sentinel e), s')))
      → s' ≡ s
  unfolding create_user update_user delete_user
  refusal-unchanged e s s' drawn new id change (inl h) = ground arith
  refusal-unchanged e s s' drawn new id change (inr (inl h)) = ground arith
  refusal-unchanged e s s' drawn new id change (inr (inr h)) = ground arith

  -- The user that an update writes: a field that the request leaves empty stays as it was.
  abbrev pub merged : UpdateUserRequest → User → User
  merged req user = record user {
    name = if text_eq req.name [] then user.name else req.name;
    email = if text_eq req.email [] then user.email else req.email;
  }

  -- What stands behind a successful update.
  pub record IsUpdate (id : Text) (req : UpdateUserRequest) (s s' : S) (u : User) : Type 0 where
    pub uid : Uuid
    pub user : User
    pub parsed : parse id ≡ some uid
    pub found : repo.find_by_id uid s ≡ ok user
    pub written : repo.update (merged req user) s ≡ (ok u, s')
    pub free : (changes_email req user ≡ false) ⊎ (repo.exists_by_email req.email s ≡ ok false)

  merged_kept :
      (req : UpdateUserRequest) (user : User)
      → changes_email req user ≡ false
      → renamed req user ≡ merged req user
  merged_kept req user h =
      ground (arith, text_eq_iff req.email user.email, text_eq_iff req.email [])

  merged_moved :
      (req : UpdateUserRequest) (user : User)
      → changes_email req user ≡ true
      → record (renamed req user) { email = req.email } ≡ merged req user
  merged_moved req user h = ground (arith, text_eq_iff req.email [])

  changes_email-renamed :
      (req : UpdateUserRequest) (user : User)
      → changes_email req (renamed req user) ≡ changes_email req user
  changes_email-renamed req user = ground arith

  save_user-ok :
      (user u : User) (s s' : S)
      → save_user repo hash parse user s ≡ (ok u, s')
      → repo.update user s ≡ (ok u, s')
  unfolding save_user
  save_user-ok user u s s' h = ground arith

  change_email_kept :
      (req : UpdateUserRequest) (user : User) (s : S)
      → changes_email req user ≡ false
      → change_email repo hash parse req user s ≡ save_user repo hash parse user s
  unfolding change_email
  change_email_kept req user s h = ground arith

  change_email_moved :
      (req : UpdateUserRequest) (user u : User) (s s' : S)
      → changes_email req user ≡ true
      → change_email repo hash parse req user s ≡ (ok u, s')
      → (save_user repo hash parse (record user { email = req.email }) s ≡ (ok u, s'))
        × (repo.exists_by_email req.email s ≡ ok false)
  unfolding change_email
  change_email_moved req user u s s' h e = ground arith

  change_email-ok :
      (req : UpdateUserRequest) (user u : User) (s s' : S)
      → change_email repo hash parse req (renamed req user) s ≡ (ok u, s')
      → (repo.update (merged req user) s ≡ (ok u, s'))
        × ((changes_email req user ≡ false) ⊎ (repo.exists_by_email req.email s ≡ ok false))
  change_email-ok req user u s s' h =
      let same = changes_email-renamed req user in
      elim (Bool-cases (changes_email req user)) [
        | inl moved ↦
            let (saved, free) = change_email_moved req (renamed req user) u s s' (same ∙ moved) h in
            (
              save_user-ok (merged req user) u s s' (rw (merged_moved req user moved) at saved),
              inr free,
            )
        | inr kept ↦
            let saved : save_user repo hash parse (renamed req user) s ≡ (ok u, s') =
              sym (change_email_kept req (renamed req user) s (same ∙ kept)) ∙ h in
            (
              save_user-ok (merged req user) u s s' (rw (merged_kept req user kept) at saved),
              inl kept,
            )
      ]

  -- A successful update wrote the user of that id, with exactly the fields replaced that the
  -- request gives, and an email that changes was free.
  pub update_user-IsUpdate :
      (id : Text) (req : UpdateUserRequest) (s s' : S) (u : User)
      → update_user repo hash parse id req s ≡ (ok u, s')
      → IsUpdate id req s s' u
  unfolding update_user
  update_user-IsUpdate id req s s' u h = elim (Option-cases (parse id)) [
    | inl bad ↦ absurd (ground arith)
    | inr (uid, parsed) ↦ elim (Result-cases (repo.find_by_id uid s)) [
      | inr (e, missing) ↦ absurd (ground arith)
      | inl (user, found) ↦
          let (written, free) =
            change_email-ok req user u s s' (rw (parsed, update_user, found) at h) in
          record {
            uid = uid;
            user = user;
            parsed = parsed;
            found = found;
            written = written;
            free = free;
          }
    ]
  ]
