-- ===== src/Base/Ascii.antt =====
-- Bytes and texts in ASCII: the classes and case maps of the `unicode` and `strings` packages
-- there.
use Prim.Native.Nat.{ℕ, ◌+◌, ◌-◌}
use mathlib.Core.Path.{◌≡◌, refl}
use mathlib.Core.Bool.{Bool, ◌&&◌, ◌||◌}
use mathlib.Core.List.{[], ◌∷◌, map}
use native.Mathlib.Omega.{arith}
use wapgo.Base.Tests.{leb, if◌then◌else◌}
use wapgo.Base.Text.{Text}

abbrev pub is_upper : ℕ → Bool
is_upper c = leb b'A' c && leb c b'Z'

abbrev pub is_lower : ℕ → Bool
is_lower c = leb b'a' c && leb c b'z'

abbrev pub is_digit : ℕ → Bool
is_digit c = leb b'0' c && leb c b'9'

abbrev pub is_alnum : ℕ → Bool
is_alnum c = is_digit c || (is_upper c || is_lower c)

-- `unicode.ToLower` and `unicode.ToUpper`
abbrev pub lower_code : ℕ → ℕ
lower_code c = if is_upper c then c + 32 else c

abbrev pub upper_code : ℕ → ℕ
upper_code c = if is_lower c then c - 32 else c

-- `strings.ToLower`
abbrev pub lower : Text → Text
lower t = map lower_code t

pub lower_idem : (t : Text) → lower (lower t) ≡ lower t
lower_idem [] = refl
lower_idem (c ∷ t) = ground (arith, lower_idem t)
