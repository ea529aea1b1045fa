-- ===== src/Base/Strings.antt =====
-- Functions of the `strings` package that the program uses, on bytes.
use Prim.Native.Nat.{ℕ}
use mathlib.Core.Path.{◌≡◌, refl}
use mathlib.Core.Bool.{Bool, true, false, not, ◌&&◌, ◌||◌}
use mathlib.Core.Option.{Option, none, some}
use mathlib.Core.List.{List, [], ◌∷◌, ◌++◌, reverse}
use native.Mathlib.Omega.{arith}
use wapgo.Base.Tests.{leb, ◌==◌, if◌then◌else◌}
use wapgo.Base.Lists.{all}
use wapgo.Base.Text.{Text, strip_prefix}

abbrev pub is_some {ℓ} : {A : Type ℓ} → Option A → Bool
is_some none = false
is_some (some a) = true

-- `strings.HasPrefix` and `strings.HasSuffix`
unfoldable pub has_prefix : Text → Text → Bool
unfolding strip_prefix
has_prefix s p = is_some (strip_prefix p s)

unfoldable pub has_suffix : Text → Text → Bool
unfolding has_prefix
has_suffix s p = has_prefix (reverse s) (reverse p)

-- `strings.Contains`
unfoldable pub contains : Text → Text → Bool
unfolding has_prefix
contains [] p = has_prefix [] p
contains (c ∷ s) p = has_prefix (c ∷ s) p || contains s p

-- `strings.TrimPrefix`
unfoldable pub trim_prefix : Text → Text → Text
unfolding strip_prefix
trim_prefix s p = elim (strip_prefix p s) [ none ↦ s | some rest ↦ rest ]

-- The text before the first byte of a class, and from it on.
unfoldable pub cut_at : (ℕ → Bool) → Text → Text × Text
cut_at stop [] = ([], [])
cut_at stop (c ∷ s) =
    let rest = cut_at stop s in if stop c then ([], c ∷ s) else (c ∷ rest.0, rest.1)

-- `strings.Split(s, string(sep))`, for a separator of one byte: never the empty list.
unfoldable pub split : ℕ → Text → Text × List Text
split sep [] = ([], [])
split sep (c ∷ s) = let (p, ps) = split sep s in if c == sep then ([], p ∷ ps) else (c ∷ p, ps)

abbrev pub pieces : ℕ → Text → List Text
pieces sep s = let (p, ps) = split sep s in p ∷ ps

abbrev pub no_byte : (ℕ → Bool) → Text → Bool
no_byte stop s = all (λ c. not (stop c)) s

pub cut_at-append :
    (stop : ℕ → Bool) (s t : Text)
    → no_byte stop s ≡ true
    → cut_at stop (s ++ t) ≡ (s ++ (cut_at stop t).0, (cut_at stop t).1)
unfolding cut_at
cut_at-append stop [] t h = refl
cut_at-append stop (c ∷ s) t h = ground (arith, cut_at-append stop s t)

pub cut_at_join : (stop : ℕ → Bool) (s : Text) → (cut_at stop s).0 ++ (cut_at stop s).1 ≡ s
unfolding cut_at
cut_at_join stop [] = refl
cut_at_join stop (c ∷ s) = ground (arith, cut_at_join stop s)

-- A piece without the separator, at the end and before one.
pub split_piece : (sep : ℕ) (s : Text) → no_byte (λ c. c == sep) s ≡ true → split sep s ≡ (s, [])
unfolding split
split_piece sep [] h = refl
split_piece sep (c ∷ s) h = ground (arith, split_piece sep s)

pub split-join :
    (sep : ℕ) (s t : Text)
    → no_byte (λ c. c == sep) s ≡ true
    → split sep (s ++ sep ∷ t) ≡ (s, pieces sep t)
unfolding split
split-join sep [] t h = ground arith
split-join sep (c ∷ s) t h = ground (arith, split-join sep s t)

-- Trimming at both ends: `strings.TrimSpace` takes the class `is_space`.
unfoldable pub drop_while : (ℕ → Bool) → Text → Text
drop_while p [] = []
drop_while p (c ∷ s) = let rest = drop_while p s in if p c then rest else c ∷ s

unfoldable pub trim : (ℕ → Bool) → Text → Text
unfolding drop_while
trim p s = reverse (drop_while p (reverse (drop_while p s)))

abbrev pub is_space : ℕ → Bool
is_space c = c == b' ' || (leb 9 c && leb c 13)

-- `strings.TrimRight`, by the class of its cutset.
abbrev cons_trimmed : (ℕ → Bool) → ℕ → Text → Text
cons_trimmed p c [] = if p c then [] else c ∷ []
cons_trimmed p c (d ∷ s) = c ∷ d ∷ s

unfoldable pub trim_right : (ℕ → Bool) → Text → Text
trim_right p [] = []
trim_right p (c ∷ s) = cons_trimmed p c (trim_right p s)

pub trim_right-append :
    (p : ℕ → Bool) (s t : Text) (d : ℕ) (u : Text)
    → trim_right p t ≡ d ∷ u
    → trim_right p (s ++ t) ≡ s ++ d ∷ u
unfolding trim_right
trim_right-append p [] t d u e = e
trim_right-append p (c ∷ []) t d u e = rw e
trim_right-append p (c ∷ b ∷ s) t d u e = rw (trim_right-append p (b ∷ s) t d u e)

-- Where all of the rest is cut off.
pub trim_right-cut :
    (p : ℕ → Bool) (s t : Text) → trim_right p t ≡ [] → trim_right p (s ++ t) ≡ trim_right p s
unfolding trim_right
trim_right-cut p [] t e = e
trim_right-cut p (c ∷ s) t e = rw (trim_right-cut p s t e)
