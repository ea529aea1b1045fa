-- ===== src/AuthUseCase/Keys.antt =====
-- The cache keys of internal/usecase/auth_usecase.go, in three families.
use wapgo.Base.{◌++◌, ◌≡◌, refl, false, arith}
use wapgo.Base.Text.{Text, codes, text_eq, text_eq_iff, append_cancel}

unfoldable pub refresh_key : Text → Text
refresh_key jti = codes "auth:refresh:" ++ jti

unfoldable pub reset_key : Text → Text
reset_key token = codes "auth:reset:" ++ token

unfoldable pub version_key : Text → Text
version_key subject = codes "auth:ver:" ++ subject

pub refresh_key_eq : (s t : Text) → text_eq (refresh_key s) (refresh_key t) ≡ text_eq s t
unfolding refresh_key
refresh_key_eq s t = ground (
  arith,
  text_eq_iff (refresh_key s) (refresh_key t),
  text_eq_iff s t,
  append_cancel (codes "auth:refresh:") s t,
)

pub refresh_key-version_key : (s t : Text) → text_eq (refresh_key s) (version_key t) ≡ false
unfolding refresh_key version_key text_eq
refresh_key-version_key s t = refl

pub version_key-refresh_key : (s t : Text) → text_eq (version_key s) (refresh_key t) ≡ false
unfolding refresh_key version_key text_eq
version_key-refresh_key s t = refl

pub reset_key-version_key : (s t : Text) → text_eq (reset_key s) (version_key t) ≡ false
unfolding reset_key version_key text_eq
reset_key-version_key s t = refl

pub version_key-reset_key : (s t : Text) → text_eq (version_key s) (reset_key t) ≡ false
unfolding reset_key version_key text_eq
version_key-reset_key s t = refl

pub reset_key-refresh_key : (s t : Text) → text_eq (reset_key s) (refresh_key t) ≡ false
unfolding reset_key refresh_key text_eq
reset_key-refresh_key s t = refl
