-- ===== src/Tests/Accounts.antt =====
-- The user operations over the table of users.
use wapgo.Users.Repository.Contract.{count_live}
use wapgo.Base.{◌≡◌, inl, refl, Option, some, List, [], ◌∷◌, ok, err}
use wapgo.Base.Text.{Text, codes, text_eq}
use wapgo.Base.Errors.{sentinel, email_conflict}
use wapgo.Users.Entity.{User, Uuid}
use wapgo.Users.Repository.{new_user_repository}
use wapgo.Users.Repository.Contract.{find_live}
use wapgo.Users.UseCase.{CreateUserRequest, UpdateUserRequest, get_user, create_user, update_user}
use wapgo.Users.UseCase.Laws.{refusal-unchanged}
use wapgo.Users.UseCase.Database.{get_user-create_user}
use wapgo.Tests.Table.{table, table-IsGorm}
use wapgo.Tests.Service.{repository, ann}

abbrev hash : Text → Option Text
hash t = some t

abbrev parse : Text → Option Uuid
parse t = some t

abbrev bob : CreateUserRequest
bob = record { name = codes "Bob"; email = codes "bob@x.io"; password = codes "pw" }

abbrev second_ann : CreateUserRequest
second_ann = record { name = codes "Ann"; email = codes "ann@x.io"; password = codes "pw" }

abbrev rows : List User
rows = ann ∷ []

get_user-create_user_example :
    let (r, s') = create_user repository hash parse (codes "2") bob rows in
    (u : User) × (r ≡ ok u)
    × (get_user repository hash parse (codes "2") s' ≡ ok u)
    × (u.email ≡ bob.email)
    × (u.password ≡ codes "pw")
unfolding text_eq
get_user-create_user_example =
    get_user-create_user table table-IsGorm hash parse (codes "2") bob (codes "pw") (codes "2") rows
      refl refl refl refl

abbrev rename : UpdateUserRequest
rename = record { name = codes "Anna"; email = codes "" }

abbrev anna : User
anna = record ann { name = codes "Anna" }

renamed_ok : update_user repository hash parse (codes "1") rename rows ≡ (ok anna, anna ∷ [])
unfolding update_user new_user_repository find_live
renamed_ok = refl

refused :
    create_user repository hash parse (codes "2") second_ann rows
    ≡ (err (sentinel email_conflict), rows)
unfolding create_user new_user_repository count_live
refused = refl

refusal-unchanged_example : rows ≡ rows
refusal-unchanged_example =
    refusal-unchanged repository hash parse email_conflict rows rows (codes "2") second_ann
      (codes "1") rename (inl refused)
