-- ===== src/Cli/Names.antt =====
-- cli/generator/names.go, on names in ASCII.
pub mod Laws
use mathlib.Core.List.{reverse}
use wapgo.Base.{
  ℕ, Bool, true, false, not, ◌&&◌, ◌||◌, Option, none, some, List, [], ◌∷◌, ◌++◌, map, any, ◌==◌,
  if◌then◌else◌,
}
use wapgo.Base.Text.{Text, codes}
use wapgo.Base.Ascii.{is_upper, lower_code, upper_code, lower}
use wapgo.Base.Strings.{trim, is_space, pieces, split, has_suffix}

-- What `NewNames` sets.
pub record Names : Type 0 where
  pub original : Text
  pub snake : Text
  pub pascal : Text
  pub camel : Text
  pub table : Text

-- `strings.ReplaceAll(s, "-", "_")`
abbrev pub unkebab : Text → Text
unkebab s = map (λ c. if c == b'-' then b'_' else c) s

-- `i > 0 && !unicode.IsUpper(rune(s[i-1]))`, by the byte before.
abbrev pub follows_lower : Option ℕ → Bool
follows_lower none = false
follows_lower (some d) = not (is_upper d)

unfoldable pub snake_from : Option ℕ → Text → Text
snake_from prev [] = []
snake_from prev (c ∷ s) =
    let rest = snake_from (some c) s in
    if is_upper c
    then (if follows_lower prev then b'_' ∷ lower_code c ∷ rest else lower_code c ∷ rest)
    else c ∷ rest

unfoldable pub to_snake : Text → Text
unfolding snake_from trim
to_snake s = lower (snake_from none (unkebab (trim is_space s)))

abbrev pub capital : Text → Text
capital [] = []
capital (c ∷ s) = upper_code c ∷ s

abbrev pub capitals : List Text → Text
capitals [] = []
capitals (p ∷ ps) = capital p ++ capitals ps

unfoldable pub to_pascal : Text → Text
unfolding split
to_pascal snake = capitals (pieces b'_' snake)

unfoldable pub to_camel : Text → Text
to_camel [] = []
to_camel (c ∷ s) = lower_code c ∷ s

abbrev pub is_vowel : ℕ → Bool
is_vowel c = any (λ v. v == c) (codes "aeiou")

-- A name that ends in "y" behind a byte that is no vowel, without that "y"; from its end.
abbrev pub y_stem : Text → Option Text
y_stem (y ∷ prev ∷ s) = if y == b'y' && not (is_vowel prev) then some (reverse (prev ∷ s)) else none
y_stem _ = none

abbrev pub hisses : Text → Bool
hisses snake =
    has_suffix snake (codes "s")
    || (has_suffix snake (codes "x")
        || (has_suffix snake (codes "z")
            || (has_suffix snake (codes "sh") || has_suffix snake (codes "ch"))))

unfoldable pub to_table : Text → Text
unfolding has_suffix
to_table snake = elim (y_stem (reverse snake)) [
  | some stem ↦ stem ++ codes "ies"
  | none ↦ if hisses snake then snake ++ codes "es" else snake ++ codes "s"
]

unfoldable pub new_names : Text → Names
unfolding to_snake to_pascal to_camel to_table
new_names input =
    let snake = to_snake input in
    let pascal = to_pascal snake in
    record {
      original = input;
      snake = snake;
      pascal = pascal;
      camel = to_camel pascal;
      table = to_table snake;
    }
