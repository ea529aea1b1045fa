-- ===== src/Cli/Names/Laws.antt =====
-- The naming variants against each other.
use mathlib.Core.List.{reverse, append-nil, map-append, reverse-reverse, reverse-append}
use wapgo.Base.{
  all-append, ℕ, ◌≡◌, refl, Bool, true, false, not, ◌&&◌, ◌||◌, Option, none, some, List, [], ◌∷◌,
  ◌++◌, all, ◌==◌, if◌then◌else◌, arith,
}
use wapgo.Base.Text.{Text}
use wapgo.Base.Ascii.{is_upper, is_lower, is_digit, lower_code, lower}
use wapgo.Base.Strings.{trim, drop_while, is_space, split, split_piece, split-join, no_byte}
use wapgo.Cli.Names.{unkebab, follows_lower, snake_from, to_snake, capital, capitals, to_pascal}

-- A word of a snake_case name that survives: a lower-case letter, and then at least one more of the
-- lower-case letters and digits.
abbrev pub is_word_byte : ℕ → Bool
is_word_byte c = is_lower c || is_digit c

abbrev pub is_word : Text → Bool
is_word [] = false
is_word (a ∷ []) = false
is_word (a ∷ b ∷ s) = is_lower a && (is_word_byte b && all is_word_byte s)

-- `strings.Join(words, "_")`
abbrev pub snake_of : Text → List Text → Text
snake_of w [] = w
snake_of w (v ∷ ws) = w ++ b'_' ∷ snake_of v ws

abbrev pub are_words : List Text → Bool
are_words ws = all is_word ws

-- Bytes that trimming and `unkebab` leave alone.
abbrev is_plain : ℕ → Bool
is_plain c = not (is_space c) && not (c == b'-')

drop_while_plain : (s : Text) → all is_plain s ≡ true → drop_while is_space s ≡ s
unfolding drop_while
drop_while_plain [] h = refl
drop_while_plain (c ∷ s) h = ground arith

all-reverse : (p : ℕ → Bool) (s : Text) → all p s ≡ true → all p (reverse s) ≡ true
all-reverse p [] h = refl
all-reverse p (c ∷ s) h =
    rw (reverse-append (c ∷ []) s)
      (all-append p (reverse s) (c ∷ []) (all-reverse p s (ground arith)) (ground arith))

trim_plain : (s : Text) → all is_plain s ≡ true → trim is_space s ≡ s
unfolding trim
trim_plain s h =
    rw (drop_while_plain s h, drop_while_plain (reverse s) (all-reverse is_plain s h))
      (reverse-reverse s)

unkebab_plain : (s : Text) → all is_plain s ≡ true → unkebab s ≡ s
unkebab_plain [] h = refl
unkebab_plain (c ∷ s) h = ground (arith, unkebab_plain s)

word_plain : (s : Text) → all is_word_byte s ≡ true → all is_plain s ≡ true
word_plain [] h = refl
word_plain (c ∷ s) h = ground (arith, word_plain s)

capital_plain : (w : Text) → is_word w ≡ true → all is_plain (capital w) ≡ true
capital_plain [] h = refl
capital_plain (a ∷ []) h = cc
capital_plain (a ∷ b ∷ s) h = ground (arith, word_plain s)

capitals_plain : (ws : List Text) → are_words ws ≡ true → all is_plain (capitals ws) ≡ true
capitals_plain [] h = refl
capitals_plain (w ∷ ws) h =
    all-append is_plain (capital w) (capitals ws) (capital_plain w (ground arith))
      (capitals_plain ws (ground arith))

-- Behind any byte that is no capital, the loop goes on alike.
snake_from_alike :
    (d : ℕ) (s : Text) → is_word_byte d ≡ true → snake_from (some d) s ≡ snake_from (some b'a') s
unfolding snake_from
snake_from_alike d [] h = refl
snake_from_alike d (c ∷ s) h = ground arith

snake_from_copies :
    (d : ℕ) (s rest : Text)
    → is_word_byte d ≡ true
    → all is_word_byte s ≡ true
    → snake_from (some d) (s ++ rest) ≡ s ++ snake_from (some b'a') rest
unfolding snake_from
snake_from_copies d [] rest h k = snake_from_alike d rest h
snake_from_copies d (c ∷ s) rest h k = ground (arith, snake_from_copies c s rest)

snake_from_word :
    (prev : Option ℕ) (w rest : Text)
    → is_word w ≡ true
    → snake_from prev (capital w ++ rest)
      ≡ (if follows_lower prev then b'_' ∷ [] else []) ++ w ++ snake_from (some b'a') rest
unfolding snake_from
snake_from_word prev [] rest h = cc
snake_from_word prev (a ∷ []) rest h = cc
snake_from_word prev (a ∷ b ∷ s) rest h = ground (arith, snake_from_copies b s rest)

snake_from_end : snake_from (some b'a') [] ≡ []
unfolding snake_from
snake_from_end = refl

snake_from_words :
    (w : Text) (ws : List Text)
    → are_words (w ∷ ws) ≡ true
    → snake_from (some b'a') (capitals (w ∷ ws)) ≡ b'_' ∷ snake_of w ws
snake_from_words w [] h =
    rw (snake_from_word (some b'a') w [] (ground arith), snake_from_end, append-nil) refl
snake_from_words w (v ∷ ws) h =
    rw
      (
        snake_from_word (some b'a') w (capitals (v ∷ ws)) (ground arith),
        snake_from_words v ws (ground arith),
      )
      refl

snake_from_start :
    (w : Text) (ws : List Text)
    → are_words (w ∷ ws) ≡ true
    → snake_from none (capitals (w ∷ ws)) ≡ snake_of w ws
snake_from_start w [] h =
    rw (snake_from_word none w [] (ground arith), snake_from_end, append-nil) refl
snake_from_start w (v ∷ ws) h =
    rw
      (
        snake_from_word none w (capitals (v ∷ ws)) (ground arith),
        snake_from_words v ws (ground arith),
      )
      refl

lower_word : (s : Text) → all is_word_byte s ≡ true → lower s ≡ s
lower_word [] h = refl
lower_word (c ∷ s) h = ground (arith, lower_word s)

word_bytes : (w : Text) → is_word w ≡ true → all is_word_byte w ≡ true
word_bytes [] h = refl
word_bytes (a ∷ []) h = cc
word_bytes (a ∷ b ∷ s) h = ground arith

word_separate : (s : Text) → all is_word_byte s ≡ true → no_byte (λ c. c == b'_') s ≡ true
word_separate [] h = refl
word_separate (c ∷ s) h = ground (arith, word_separate s)

lower_snake :
    (w : Text) (ws : List Text) → are_words (w ∷ ws) ≡ true → lower (snake_of w ws) ≡ snake_of w ws
lower_snake w [] h = lower_word w (word_bytes w (ground arith))
lower_snake w (v ∷ ws) h =
    rw
      (
        map-append lower_code w,
        lower_word w (word_bytes w (ground arith)),
        lower_snake v ws (ground arith),
      )
      refl

pieces_snake :
    (w : Text) (ws : List Text) → are_words (w ∷ ws) ≡ true → split b'_' (snake_of w ws) ≡ (w, ws)
pieces_snake w [] h = split_piece b'_' w (word_separate w (word_bytes w (ground arith)))
pieces_snake w (v ∷ ws) h =
    rw
      (
        split-join b'_' w (snake_of v ws) (word_separate w (word_bytes w (ground arith))),
        pieces_snake v ws (ground arith),
      )
      refl

-- A snake_case name comes back from its PascalCase: if the name is made of words of at least two
-- bytes, each a lower-case letter and then lower-case letters and digits, `toSnake` of `toPascal`
-- is the name itself.
pub to_snake-to_pascal :
    (w : Text) (ws : List Text)
    → are_words (w ∷ ws) ≡ true
    → to_snake (to_pascal (snake_of w ws)) ≡ snake_of w ws
unfolding to_snake to_pascal
to_snake-to_pascal w ws h =
    rw
      (
        pieces_snake w ws h,
        trim_plain (capitals (w ∷ ws)) (capitals_plain (w ∷ ws) h),
        unkebab_plain (capitals (w ∷ ws)) (capitals_plain (w ∷ ws) h),
        snake_from_start w ws h,
      )
      (lower_snake w ws h)

abbrev pub is_snake_byte : ℕ → Bool
is_snake_byte c = not (is_upper c) && not (c == b'-')

snake_from_bytes :
    (prev : Option ℕ) (s : Text) → all is_snake_byte (lower (snake_from prev (unkebab s))) ≡ true
unfolding snake_from
snake_from_bytes prev [] = refl
snake_from_bytes prev (c ∷ s) =
    ground (arith, snake_from_bytes (some (if c == b'-' then b'_' else c)) s)

-- Whatever the input, no byte of a snake_case name is a capital or a dash.
pub to_snake-bytes : (s : Text) → all is_snake_byte (to_snake s) ≡ true
unfolding to_snake
to_snake-bytes s = snake_from_bytes none (trim is_space s)
