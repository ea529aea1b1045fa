-- ===== src/Users/Repository/Contract.antt =====
-- What the repository (internal/repository/db/user_repository.go) relies on of GORM and the
-- database, as equations on the rows of the table `users`: reads see only rows that are not
-- soft-deleted, while the unique index of migrations/000001_init.up.sql covers every row. The laws
-- are those of a database that is reachable.
use wapgo.Base.{
  ℕ, ◌+◌, ◌<◌, ◌≡◌, refl, Bool, true, false, ◌&&◌, Option, none, some, List, [], ◌∷◌, ◌++◌, map,
  any, ok, err, or_err, if◌then◌else◌, arith,
}
use wapgo.Base.Text.{Text, text_eq, text_eq_iff}
use wapgo.Base.Errors.{sentinel, other, record_not_found}
use wapgo.Users.Entity.{User, Uuid}
use wapgo.Users.Repository.{Gorm}

abbrev pub is_live : User → Bool
is_live u = elim u.deleted_at [ none ↦ true | some t ↦ false ]

-- The first row that is not deleted and passes the test.
unfoldable pub find_live : (User → Bool) → List User → Option User
find_live p [] = none
find_live p (u ∷ us) = let rest = find_live p us in if is_live u && p u then some u else rest

unfoldable pub count_live : (User → Bool) → List User → ℕ
count_live p [] = 0
count_live p (u ∷ us) = (if is_live u && p u then 1 else 0) + count_live p us

abbrev pub has_id : Uuid → User → Bool
has_id id u = text_eq u.id id

abbrev pub has_email : Text → User → Bool
has_email email u = text_eq u.email email

-- `UPDATE users SET deleted_at = t WHERE id = …`
abbrev pub mark_deleted : ℕ → Uuid → List User → List User
mark_deleted t id us = map (λ u. if text_eq u.id id then record u { deleted_at = some t } else u) us

pub record IsGorm {S : Type 0} (db : Gorm S) : Type 0 where
  pub rows : S → List User
  -- The user with the times that GORM sets on a write, and the time of a soft delete.
  pub stamped : S → User → User
  pub stamped_id : (s : S) (u : User) → (stamped s u).id ≡ u.id
  pub stamped_email : (s : S) (u : User) → (stamped s u).email ≡ u.email
  pub stamped_password : (s : S) (u : User) → (stamped s u).password ≡ u.password
  pub stamped_deleted_at : (s : S) (u : User) → (stamped s u).deleted_at ≡ u.deleted_at
  pub delete_time : S → ℕ
  pub first_by_id :
      (id : Uuid) (s : S)
      → db.first_by_id id s ≡ or_err (sentinel record_not_found) (find_live (has_id id) (rows s))
  pub first_by_email :
      (email : Text) (s : S)
      → db.first_by_email email s
        ≡ or_err (sentinel record_not_found) (find_live (has_email email) (rows s))
  pub count_email :
      (email : Text) (s : S) → db.count_email email s ≡ ok (count_live (has_email email) (rows s))
  pub insert_ok :
      (u : User) (s : S)
      → any (has_email u.email) (rows s) ≡ false
      → any (has_id u.id) (rows s) ≡ false
      → ((db.insert u s).0 ≡ ok (stamped s u))
        × (rows (db.insert u s).1 ≡ rows s ++ stamped s u ∷ [])
  pub duplicate : S → Text
  pub insert_duplicate :
      (u : User) (s : S)
      → any (has_email u.email) (rows s) ≡ true
      → db.insert u s ≡ (err (other (duplicate s)), s)
  pub delete_by_id :
      (id : Uuid) (s : S)
      → ((db.delete_by_id id s).0 ≡ ok tt)
        × (rows (db.delete_by_id id s).1 ≡ mark_deleted (delete_time s) id (rows s))

pub count_live-find_live :
    (p : User → Bool) (us : List User) → find_live p us ≡ none → count_live p us ≡ 0
unfolding find_live count_live
count_live-find_live p [] h = refl
count_live-find_live p (u ∷ us) h = ground (arith, count_live-find_live p us)

pub count_live_found :
    (p : User → Bool) (us : List User) (u : User) → find_live p us ≡ some u → 0 < count_live p us
unfolding find_live count_live
count_live_found p [] u h = cc
count_live_found p (v ∷ us) u h = ground (arith, count_live_found p us u)

pub find_live-mark_deleted :
    (t : ℕ) (id : Uuid) (us : List User) → find_live (has_id id) (mark_deleted t id us) ≡ none
unfolding find_live
find_live-mark_deleted t id [] = refl
find_live-mark_deleted t id (u ∷ us) = ground (arith, find_live-mark_deleted t id us)

-- Deleting a row leaves its email in the table.
pub any-mark_deleted :
    (t : ℕ) (id : Uuid) (email : Text) (us : List User)
    → any (has_email email) (mark_deleted t id us) ≡ any (has_email email) us
any-mark_deleted t id email [] = refl
any-mark_deleted t id email (u ∷ us) = ground (arith, any-mark_deleted t id email us)

pub find_live-append :
    (id : Uuid) (us : List User) (u : User)
    → any (has_id id) us ≡ false
    → u.id ≡ id
    → is_live u ≡ true
    → find_live (has_id id) (us ++ u ∷ []) ≡ some u
unfolding find_live
find_live-append id [] u fresh same live = ground (arith, text_eq_iff u.id id)
find_live-append id (v ∷ us) u fresh same live = ground (arith, find_live-append id us u)
