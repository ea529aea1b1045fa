-- ===== src/Base/Lists.antt =====
-- Lists measured by native numbers, under the library's names.
use Prim.Native.Nat.{ℕ, zero, suc, ◌+◌, ◌≤◌, min}
use mathlib.Core.Path.{◌≡◌, refl}
use mathlib.Core.Bool.{Bool, true, false, ◌||◌, ◌&&◌}
use mathlib.Core.List.{List, [], ◌∷◌, ◌++◌}
use native.Mathlib.Omega.{arith}

module _ {ℓ} {A : Type ℓ} where
  abbrev pub length : List A → ℕ
  length [] = 0
  length (x ∷ xs) = suc (length xs)

  abbrev pub take : ℕ → List A → List A
  take zero xs = []
  take (suc n) [] = []
  take (suc n) (x ∷ xs) = x ∷ take n xs

  abbrev pub drop : ℕ → List A → List A
  drop zero xs = xs
  drop (suc n) [] = []
  drop (suc n) (x ∷ xs) = drop n xs

  abbrev pub any : (A → Bool) → List A → Bool
  any p [] = false
  any p (x ∷ xs) = p x || any p xs

  abbrev pub all : (A → Bool) → List A → Bool
  all p [] = true
  all p (x ∷ xs) = p x && all p xs

  abbrev pub All {κ} : (A → Type κ) → List A → Type κ
  All P [] = Unit
  All P (x ∷ xs) = P x × All P xs

  pub length-append : (xs ys : List A) → length (xs ++ ys) ≡ length xs + length ys
  length-append [] ys = omega arith
  length-append (x ∷ xs) ys = omega (arith, length-append xs ys)

  pub length-take : (n : ℕ) (xs : List A) → length (take n xs) ≡ min n (length xs)
  length-take zero xs = omega arith
  length-take (suc n) [] = omega arith
  length-take (suc n) (x ∷ xs) = omega (arith, length-take n xs)

  pub take-append : (s t : List A) (n : ℕ) → length s ≡ n → take n (s ++ t) ≡ s
  take-append [] t zero e = refl
  take-append [] t (suc n) e = absurd (omega arith)
  take-append (c ∷ s) t zero e = absurd (omega arith)
  take-append (c ∷ s) t (suc n) e = ground (arith, take-append s t n)

  pub drop-append : (s t : List A) (n : ℕ) → length s ≡ n → drop n (s ++ t) ≡ t
  drop-append [] t zero e = refl
  drop-append [] t (suc n) e = absurd (omega arith)
  drop-append (c ∷ s) t zero e = absurd (omega arith)
  drop-append (c ∷ s) t (suc n) e = drop-append s t n (omega arith)

  pub take-drop : (n : ℕ) (s : List A) → take n s ++ drop n s ≡ s
  take-drop zero s = refl
  take-drop (suc n) [] = refl
  take-drop (suc n) (c ∷ s) = ground (arith, take-drop n s)

  pub take_all : (xs : List A) (n : ℕ) → length xs ≤ n → take n xs ≡ xs
  take_all [] zero h = refl
  take_all [] (suc n) h = refl
  take_all (x ∷ xs) zero h = absurd (omega arith)
  take_all (x ∷ xs) (suc n) h = ground (arith, take_all xs n)

  -- What is true of each element of two lists is true of each of both.
  pub all-append :
      (p : A → Bool) (xs ys : List A) → all p xs ≡ true → all p ys ≡ true → all p (xs ++ ys) ≡ true
  all-append p [] ys h k = k
  all-append p (x ∷ xs) ys h k = ground (arith, all-append p xs ys)
