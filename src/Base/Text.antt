-- ===== src/Base/Text.antt =====
-- Go strings as lists of bytes, with the comparison that `==` and map keys use.
use Prim.Native.Nat.{ℕ}
use Prim.Native.Char.{code}
use Prim.Native.String.{String}
use mathlib.Core.Path.{◌≡◌, refl}
use mathlib.Core.Logic.{◌↔◌, ◌≢◌}
use mathlib.Core.Bool.{Bool, true, false, ◌&&◌}
use mathlib.Core.List.{List, [], ◌∷◌, ◌++◌}
use mathlib.Core.Option.{Option, none, some}
use native.Mathlib.Omega.{arith}
use wapgo.Base.Tests.{◌==◌, if◌then◌else◌}

abbrev pub Text : Type 0
Text = List ℕ

-- The code points of a literal: its bytes, since the program's literals are ASCII.
abbrev pub codes : String → Text
codes String.[] = []
codes (String.◌∷◌ c s) = code c ∷ codes s

unfoldable pub text_eq : Text → Text → Bool
text_eq [] [] = true
text_eq (a ∷ s) (b ∷ t) = a == b && text_eq s t
text_eq _ _ = false

pub text_eq_iff : (s t : Text) → (text_eq s t ≡ true) ↔ (s ≡ t)
unfolding text_eq
text_eq_iff [] [] = ground arith
text_eq_iff [] (b ∷ t) = ground arith
text_eq_iff (a ∷ s) [] = ground arith
text_eq_iff (a ∷ s) (b ∷ t) = ground (arith, text_eq_iff s t)

pub text_eq_refl : (s : Text) → text_eq s s ≡ true
text_eq_refl s = (text_eq_iff s s).1 refl

pub text_ne : (s t : Text) → s ≢ t → text_eq s t ≡ false
text_ne s t h = ground (arith, text_eq_iff s t)

-- A common prefix cancels.
pub append_cancel : (p s t : Text) → p ++ s ≡ p ++ t → s ≡ t
append_cancel [] s t e = e
append_cancel (a ∷ p) s t e = append_cancel p s t (cc)

-- `strings.HasPrefix` and `strings.TrimPrefix` in one: the rest after the prefix.
unfoldable pub strip_prefix : Text → Text → Option Text
strip_prefix [] s = some s
strip_prefix (a ∷ p) [] = none
strip_prefix (a ∷ p) (b ∷ s) = if a == b then strip_prefix p s else none

pub strip_prefix-append : (p s : Text) → strip_prefix p (p ++ s) ≡ some s
unfolding strip_prefix
strip_prefix-append [] s = refl
strip_prefix-append (a ∷ p) s = ground (arith, strip_prefix-append p s)

pub strip_prefix-eq-some : (p s rest : Text) → strip_prefix p s ≡ some rest → s ≡ p ++ rest
unfolding strip_prefix
strip_prefix-eq-some [] s rest e = cc
strip_prefix-eq-some (a ∷ p) [] rest e = cc
strip_prefix-eq-some (a ∷ p) (b ∷ s) rest e = ground (arith, strip_prefix-eq-some p s rest)
