-- ===== src/Base/Dict.antt =====
-- A Go map with string keys, as an association list: lookup, assignment, `delete`, and a loop that
-- deletes the entries failing a test. `IsUnique` says that no key is stored twice.
use Prim.Native.Nat.{◌+◌, ◌≤◌}
use mathlib.Core.Path.{◌≡◌, refl}
use mathlib.Core.Bool.{Bool}
use mathlib.Core.Option.{Option, none, some}
use mathlib.Core.List.{List, [], ◌∷◌}
use native.Mathlib.Omega.{arith}
use wapgo.Base.Tests.{if◌then◌else◌}
use wapgo.Base.Lists.{length}
use wapgo.Base.Text.{Text, text_eq, text_eq_iff}

abbrev pub Dict {ℓ} : Type ℓ → Type ℓ
Dict V = List (Text × V)

module _ {ℓ} {V : Type ℓ} where
  unfoldable pub lookup : Text → Dict V → Option V
  lookup k [] = none
  lookup k ((j, v) ∷ d) = if text_eq j k then some v else lookup k d

  -- `d[k] = v`
  unfoldable pub insert : Text → V → Dict V → Dict V
  insert k v [] = (k, v) ∷ []
  insert k v ((j, w) ∷ d) = if text_eq j k then (k, v) ∷ d else (j, w) ∷ insert k v d

  -- `delete(d, k)`
  unfoldable pub erase : Text → Dict V → Dict V
  erase k [] = []
  erase k ((j, w) ∷ d) = let rest = erase k d in if text_eq j k then rest else (j, w) ∷ rest

  -- `for k, v := range d { if !p(v) { delete(d, k) } }`
  unfoldable pub retain : (V → Bool) → Dict V → Dict V
  retain p [] = []
  retain p ((j, w) ∷ d) = let rest = retain p d in if p w then (j, w) ∷ rest else rest

  abbrev pub keep_if : (V → Bool) → Option V → Option V
  keep_if p none = none
  keep_if p (some v) = if p v then some v else none

  abbrev pub IsUnique : Dict V → Type ℓ
  IsUnique [] = Unit
  IsUnique ((k, v) ∷ d) = (lookup k d ≡ none) × IsUnique d

  pub lookup-insert :
      (j k : Text) (v : V) (d : Dict V)
      → lookup j (insert k v d) ≡ (if text_eq k j then some v else lookup j d)
  unfolding lookup insert
  lookup-insert j k v [] = refl
  lookup-insert j k v ((i, w) ∷ d) =
      ground (arith, text_eq_iff k j, text_eq_iff i k, text_eq_iff i j, lookup-insert j k v d)

  pub lookup-erase :
      (j k : Text) (d : Dict V) → lookup j (erase k d) ≡ (if text_eq k j then none else lookup j d)
  unfolding lookup erase
  lookup-erase j k [] = ground arith
  lookup-erase j k ((i, w) ∷ d) =
      ground (arith, text_eq_iff k j, text_eq_iff i k, text_eq_iff i j, lookup-erase j k d)

  retain-none :
      (j : Text) (p : V → Bool) (d : Dict V) → lookup j d ≡ none → lookup j (retain p d) ≡ none
  unfolding lookup retain
  retain-none j p [] h = refl
  retain-none j p ((i, w) ∷ d) h = ground (arith, retain-none j p d)

  pub lookup-retain :
      (j : Text) (p : V → Bool) (d : Dict V)
      → IsUnique d
      → lookup j (retain p d) ≡ keep_if p (lookup j d)
  unfolding lookup retain
  lookup-retain j p [] u = refl
  lookup-retain j p ((i, w) ∷ d) u =
      ground
        (arith, text_eq_iff i j, lookup-retain j p d u.1, retain-none i p d u.0, retain-none j p d)

  pub insert-IsUnique : (k : Text) (v : V) (d : Dict V) → IsUnique d → IsUnique (insert k v d)
  unfolding lookup insert
  insert-IsUnique k v [] u = (refl, tt)
  insert-IsUnique k v ((i, w) ∷ d) u =
      ground
        (arith, text_eq_iff i k, text_eq_iff k i, lookup-insert i k v d, insert-IsUnique k v d u.1)

  pub erase-IsUnique : (k : Text) (d : Dict V) → IsUnique d → IsUnique (erase k d)
  unfolding erase
  erase-IsUnique k [] u = tt
  erase-IsUnique k ((i, w) ∷ d) u =
      ground (arith, text_eq_iff k i, text_eq_iff i k, lookup-erase i k d, erase-IsUnique k d u.1)

  pub retain-IsUnique : (p : V → Bool) (d : Dict V) → IsUnique d → IsUnique (retain p d)
  unfolding retain
  retain-IsUnique p [] u = tt
  retain-IsUnique p ((i, w) ∷ d) u = ground (arith, retain-none i p d u.0, retain-IsUnique p d u.1)

  pub length-retain : (p : V → Bool) (d : Dict V) → length (retain p d) ≤ length d
  unfolding retain
  length-retain p [] = omega arith
  length-retain p ((i, w) ∷ d) = ground (arith, length-retain p d)

  pub length-insert : (k : Text) (v : V) (d : Dict V) → length (insert k v d) ≤ length d + 1
  unfolding insert
  length-insert k v [] = omega arith
  length-insert k v ((i, w) ∷ d) = ground (arith, length-insert k v d)
