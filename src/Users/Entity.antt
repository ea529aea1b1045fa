-- ===== src/Users/Entity.antt =====
-- internal/domain/entity/user.go. An id is the list of its 16 bytes; times are numbers.
use wapgo.Base.{ℕ, Option, List, [], ◌∷◌, if◌then◌else◌, none}
use wapgo.Base.Text.{Text, text_eq}

abbrev pub Uuid : Type 0
Uuid = List ℕ

abbrev pub nil_uuid : Uuid
nil_uuid = 0 ∷ 0 ∷ 0 ∷ 0 ∷ 0 ∷ 0 ∷ 0 ∷ 0 ∷ 0 ∷ 0 ∷ 0 ∷ 0 ∷ 0 ∷ 0 ∷ 0 ∷ 0 ∷ []

pub record User : Type 0 where
  pub id : Uuid
  pub name : Text
  pub email : Text
  pub password : Text
  pub created_at : ℕ
  pub updated_at : ℕ
  pub deleted_at : Option ℕ

-- A user as `&entity.User{Name: …, Email: …, Password: …}` builds it.
abbrev pub fresh_user : Text → Text → Text → User
fresh_user name email password = record {
  id = nil_uuid;
  name = name;
  email = email;
  password = password;
  created_at = 0;
  updated_at = 0;
  deleted_at = none;
}

-- The hook that GORM calls before an insert; `drawn` is the random id.
unfoldable pub before_create : Uuid → User → User
unfolding text_eq
before_create drawn u = if text_eq u.id nil_uuid then record u { id = drawn } else u
