-- ===== src/Tests/Table.antt =====
-- A table of users as a list, in place of GORM and the database.
use wapgo.Base.{
  ◌≡◌, refl, true, false, List, [], ◌∷◌, ◌++◌, any, length, Result, ok, err, or_err, if◌then◌else◌,
}
use wapgo.Base.Text.{codes, text_eq}
use wapgo.Base.Errors.{GoError, sentinel, other, record_not_found}
use wapgo.Users.Entity.{User}
use wapgo.Users.Repository.{Gorm}
use wapgo.Users.Repository.Contract.{IsGorm, find_live, count_live, has_id, has_email, mark_deleted}

abbrev replace : User → List User → List User
replace u [] = []
replace u (v ∷ us) = let rest = replace u us in if text_eq v.id u.id then u ∷ rest else v ∷ rest

abbrev insert_row : User → List User → Result GoError User × List User
insert_row u s =
    if any (has_email u.email) s
    then (err (other (codes "duplicate key")), s)
    else (ok u, s ++ u ∷ [])

abbrev pub table : Gorm (List User)
table = record {
  first_by_id = λ id s. or_err (sentinel record_not_found) (find_live (has_id id) s);
  first_by_email = λ email s. or_err (sentinel record_not_found) (find_live (has_email email) s);
  find = λ s. ok s;
  count = λ s. ok (length s);
  find_scoped = λ scoped s. ok s;
  count_email = λ email s. ok (count_live (has_email email) s);
  insert = insert_row;
  save = λ u s. (ok u, replace u s);
  delete_by_id = λ id s. (ok tt, mark_deleted 7 id s);
}

pub insert_new :
    (u : User) (s : List User)
    → any (has_email u.email) s ≡ false
    → ((insert_row u s).0 ≡ ok u) × ((insert_row u s).1 ≡ s ++ u ∷ [])
insert_new u s h = rw h (refl, refl)

pub insert_old :
    (u : User) (s : List User)
    → any (has_email u.email) s ≡ true
    → insert_row u s ≡ (err (other (codes "duplicate key")), s)
insert_old u s h = rw h

abbrev pub table-IsGorm : IsGorm table
table-IsGorm = record {
  rows = λ s. s;
  stamped = λ s u. u;
  stamped_id = λ s u. refl;
  stamped_email = λ s u. refl;
  stamped_password = λ s u. refl;
  stamped_deleted_at = λ s u. refl;
  delete_time = λ s. 7;
  first_by_id = λ id s. refl;
  first_by_email = λ email s. refl;
  count_email = λ email s. refl;
  insert_ok = λ u s new_email new_id. insert_new u s new_email;
  duplicate = λ s. codes "duplicate key";
  insert_duplicate = insert_old;
  delete_by_id = λ id s. (refl, refl);
}
