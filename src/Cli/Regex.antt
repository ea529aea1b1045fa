-- ===== src/Cli/Regex.antt =====
-- Regular expressions of the `regexp` package, as far as cli uses them: a pattern between `^` and
-- `$` matches a whole text. `matches` takes the pattern's derivative by each byte; Laws says that
-- this is the usual meaning.
pub mod Laws
use wapgo.Base.{ℕ, Bool, true, false, ◌&&◌, ◌||◌, List, [], ◌∷◌, ◌==◌, if◌then◌else◌}
use wapgo.Base.Text.{Text}

pub data Regex : Type 0 where
  never empty : Regex
  byte : (ℕ → Bool) → Regex
  alt seq : Regex → Regex → Regex
  star : Regex → Regex

abbrev pub lit : ℕ → Regex
lit c = byte (λ d. d == c)

-- `r?` and `r+`
abbrev pub opt : Regex → Regex
opt r = alt r empty

abbrev pub plus : Regex → Regex
plus r = seq r (star r)

unfoldable pub nullable : Regex → Bool
nullable never = false
nullable empty = true
nullable (byte p) = false
nullable (alt r s) = nullable r || nullable s
nullable (seq r s) = nullable r && nullable s
nullable (star r) = true

unfoldable pub after : ℕ → Regex → Regex
unfolding nullable
after c never = never
after c empty = never
after c (byte p) = if p c then empty else never
after c (alt r s) = alt (after c r) (after c s)
after c (seq r s) =
    let first = seq (after c r) s in
    let second = after c s in if nullable r then alt first second else first
after c (star r) = seq (after c r) (star r)

unfoldable pub matches : Regex → Text → Bool
unfolding nullable after
matches r [] = nullable r
matches r (c ∷ s) = matches (after c r) s
