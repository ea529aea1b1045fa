-- ===== src/Cli/GoMod/Laws.antt =====
-- What a go.mod file is read as.
use mathlib.Core.List.{append-nil, append_assoc}
use wapgo.Base.{◌≡◌, refl, true, none, some, List, [], ◌∷◌, ◌++◌, ◌==◌, ok, arith}
use wapgo.Base.Text.{Text}
use wapgo.Base.Strings.{no_byte}
use wapgo.Cli.GoMod.{lines_from, module_of, first_module, parse_module_line}

lines_from-line :
    (cur s t : Text)
    → no_byte (λ c. c == b'\n') s ≡ true
    → lines_from cur (s ++ b'\n' ∷ t) ≡ (cur ++ s) ∷ lines_from [] t
unfolding lines_from
lines_from-line cur [] t h = rw append-nil (ground arith)
lines_from-line cur (c ∷ s) t h =
    ground (arith, lines_from-line (cur ++ c ∷ []) s t, append_assoc cur (c ∷ []) s)

-- Lines, each with its end, before the rest of a file.
abbrev pub with_lines : List Text → Text → Text
with_lines [] t = t
with_lines (l ∷ ls) t = l ++ b'\n' ∷ with_lines ls t

-- Lines that end where they should and declare no module, such as comments.
abbrev pub IsPreamble : List Text → Type 0
IsPreamble [] = Unit
IsPreamble (l ∷ ls) = (no_byte (λ c. c == b'\n') l ≡ true) × (module_of l ≡ none) × IsPreamble ls

first_module-preamble :
    (ls : List Text) (t : Text)
    → IsPreamble ls
    → first_module (lines_from [] (with_lines ls t)) ≡ first_module (lines_from [] t)
unfolding first_module
first_module-preamble [] t h = refl
first_module-preamble (l ∷ ls) t (one_line, silent, others) =
    rw (lines_from-line [] l (with_lines ls t) one_line, silent, first_module)
      (first_module-preamble ls t others)

first_module_head :
    (path line : Text) (lines : List Text)
    → module_of line ≡ some path
    → first_module (line ∷ lines) ≡ some path
unfolding first_module
first_module_head path line lines declares = rw (declares, first_module)

-- The first module line of go.mod decides: behind any lines that declare no module, a line that
-- declares `path` is found, whatever the file goes on with.
pub parse_module_line-finds :
    (preamble : List Text) (line path rest : Text)
    → IsPreamble preamble
    → no_byte (λ c. c == b'\n') line ≡ true
    → module_of line ≡ some path
    → parse_module_line (with_lines preamble (line ++ b'\n' ∷ rest)) ≡ ok path
unfolding parse_module_line
parse_module_line-finds preamble line path rest h one_line declares =
    rw
      (
        first_module-preamble preamble (line ++ b'\n' ∷ rest) h,
        lines_from-line [] line rest one_line,
      )
      (rw (first_module_head path line (lines_from [] rest) declares))
