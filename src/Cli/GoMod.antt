-- ===== src/Cli/GoMod.antt =====
-- The reading of go.mod in cli/generator/generator.go: `parseModuleLine`, `splitLines`,
-- `trimSpace`.
pub mod Laws
use wapgo.Base.{
  ℕ, Bool, true, false, ◌||◌, Option, none, some, List, [], ◌∷◌, ◌++◌, ◌==◌, if◌then◌else◌, Result,
  ok, err, or_err,
}
use wapgo.Base.Text.{Text, codes, strip_prefix}
use wapgo.Base.Strings.{trim}

-- The loop of `splitLines`, with the bytes since `start`.
unfoldable pub lines_from : Text → Text → List Text
lines_from [] [] = []
lines_from (d ∷ line) [] = (d ∷ line) ∷ []
lines_from line (c ∷ s) =
    let ended = line ∷ lines_from [] s in
    let longer = lines_from (line ++ c ∷ []) s in if c == b'\n' then ended else longer

unfoldable pub split_lines : Text → List Text
unfolding lines_from
split_lines s = lines_from [] s

-- What `trimSpace` cuts off.
abbrev pub is_blank : ℕ → Bool
is_blank c = c == b' ' || (c == b'\t' || c == b'\r')

unfoldable pub trim_space : Text → Text
unfolding trim
trim_space s = trim is_blank s

-- The path of a line that declares the module: more than seven bytes, the first of them "module ".
unfoldable pub module_of : Text → Option Text
unfolding trim_space strip_prefix
module_of line = elim (strip_prefix (codes "module ") (trim_space line)) [
  | none ↦ none
  | some path ↦ elim path [ [] ↦ none | c ∷ s ↦ some (trim_space (c ∷ s)) ]
]

unfoldable pub first_module : List Text → Option Text
first_module [] = none
first_module (line ∷ lines) =
    let rest = first_module lines in elim (module_of line) [ none ↦ rest | some m ↦ some m ]

pub data GoModError : Type 0 where
  no_module_declaration : GoModError

unfoldable pub parse_module_line : Text → Result GoModError Text
unfolding split_lines first_module
parse_module_line content = or_err no_module_declaration (first_module (split_lines content))
