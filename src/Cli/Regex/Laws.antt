-- ===== src/Cli/Regex/Laws.antt =====
-- The matcher against what a regular expression means.
use wapgo.Base.{
  all-append, ℕ, ◌≡◌, refl, Bool, true, [], ◌∷◌, ◌++◌, ◌↔◌, ◌⊎◌, sym, ◌∙◌, ap, inl, inr, all, arith,
  Bool-cases,
}
use wapgo.Base.Text.{Text}
use wapgo.Cli.Regex.{Regex, never, empty, byte, alt, seq, star, nullable, after, matches}

-- The texts that an expression denotes.
pub data Matches : Regex → Text → Type 0 where
  empty_text : Matches empty []
  one_byte : (p : ℕ → Bool) (c : ℕ) → p c ≡ true → Matches (byte p) (c ∷ [])
  left : {r : Regex} (s : Regex) {t : Text} → Matches r t → Matches (alt r s) t
  right : (r : Regex) {s : Regex} {t : Text} → Matches s t → Matches (alt r s) t
  both : {r s : Regex} (t u w : Text) → Matches r t → Matches s u → w ≡ t ++ u → Matches (seq r s) w
  none_more : (r : Regex) → Matches (star r) []
  one_more :
      {r : Regex} (t u w : Text)
      → Matches r t
      → Matches (star r) u
      → w ≡ t ++ u
      → Matches (star r) w

nullable_sound : (r : Regex) → nullable r ≡ true → Matches r []
unfolding nullable
nullable_sound never h = cc
nullable_sound empty h = empty_text
nullable_sound (byte p) h = cc
nullable_sound (alt r s) h = elim (Bool-cases (nullable r)) [
  | inl e ↦ left s (nullable_sound r e)
  | inr e ↦ right r (nullable_sound s (ground arith))
]
nullable_sound (seq r s) h =
    both [] [] [] (nullable_sound r (ground arith)) (nullable_sound s (ground arith)) refl
nullable_sound (star r) h = none_more r

alt_cases : {r s : Regex} {t : Text} → Matches (alt r s) t → Matches r t ⊎ Matches s t
alt_cases (left s m) = inl m
alt_cases (right r m) = inr m

seq_parts :
    {r s : Regex} {w : Text}
    → Matches (seq r s) w
    → (t : Text) × (u : Text) × Matches r t × Matches s u × (w ≡ t ++ u)
seq_parts (both t u w m n e) = (t, u, m, n, e)

byte_text : {p : ℕ → Bool} {t : Text} → Matches (byte p) t → (c : ℕ) × (p c ≡ true) × (t ≡ c ∷ [])
byte_text (one_byte p c h) = (c, h, refl)

empty_text_only : {t : Text} → Matches empty t → t ≡ []
empty_text_only empty_text = refl

not_never : {t : Text} → ¬ Matches never t
not_never m = elim m [ ]

first_part :
    {q r s : Regex} (c : ℕ) (t : Text)
    → ((u : Text) → Matches q u → Matches r (c ∷ u))
    → Matches (seq q s) t
    → Matches (seq r s) (c ∷ t)
first_part c t sound m =
    let (u, v, n, k, e) = seq_parts m in both (c ∷ u) v (c ∷ t) (sound u n) k (cc)

after_sound : (c : ℕ) (r : Regex) (t : Text) → Matches (after c r) t → Matches r (c ∷ t)
unfolding after
after_sound c never t m = absurd (not_never m)
after_sound c empty t m = absurd (not_never m)
after_sound c (byte p) t m = elim (Bool-cases (p c)) [
  | inl h ↦ rw (empty_text_only (rw h at m)) (one_byte p c h)
  | inr h ↦ absurd (not_never (rw h at m))
]
after_sound c (alt r s) t m = elim (alt_cases m) [
  | inl n ↦ left s (after_sound c r t n)
  | inr n ↦ right r (after_sound c s t n)
]
after_sound c (seq r s) t m = elim (Bool-cases (nullable r)) [
  | inl h ↦ elim (alt_cases (rw h at m)) [
    | inl n ↦ first_part c t (after_sound c r) n
    | inr n ↦ both [] (c ∷ t) (c ∷ t) (nullable_sound r h) (after_sound c s t n) refl
  ]
  | inr h ↦ first_part c t (after_sound c r) (rw h at m)
]
after_sound c (star r) t m =
    let (u, v, m, n, e) = seq_parts m in one_more (c ∷ u) v (c ∷ t) (after_sound c r u m) n (cc)

matches_sound : (r : Regex) (t : Text) → matches r t ≡ true → Matches r t
unfolding matches
matches_sound r [] h = nullable_sound r h
matches_sound r (c ∷ t) h = after_sound c r t (matches_sound (after c r) t h)

nullable_complete : {r : Regex} {t : Text} → Matches r t → t ≡ [] → nullable r ≡ true
unfolding nullable
nullable_complete empty_text e = refl
nullable_complete (one_byte p c h) e = cc
nullable_complete (left s m) e = rw (nullable_complete m e)
nullable_complete (right r m) e = ground (arith, nullable_complete m e)
nullable_complete (both [] u w m n f) e =
    ground (arith, nullable_complete m refl, nullable_complete n (sym f ∙ e))
nullable_complete (both (c ∷ t) u w m n f) e = cc
nullable_complete (none_more r) e = refl
nullable_complete (one_more t u w m n f) e = refl

-- How the derivative acts, with `after` shut in what follows.
after_byte :
    (p : ℕ → Bool) (c d : ℕ) (t : Text) → p d ≡ true → d ∷ [] ≡ c ∷ t → Matches (after c (byte p)) t
unfolding after
after_byte p c d [] h e = rw (← (ap head e)) (rw h empty_text)
  where
    head : Text → ℕ
    head [] = 0
    head (x ∷ xs) = x
after_byte p c d (b ∷ t) h e = absurd (ground arith)

after_left :
    (c : ℕ) (r s : Regex) (t : Text) → Matches (after c r) t → Matches (after c (alt r s)) t
unfolding after
after_left c r s t m = left (after c s) m

after_right :
    (c : ℕ) (r s : Regex) (t : Text) → Matches (after c s) t → Matches (after c (alt r s)) t
unfolding after
after_right c r s t m = right (after c r) m

after_first :
    (c : ℕ) (r s : Regex) (t : Text) → Matches (seq (after c r) s) t → Matches (after c (seq r s)) t
unfolding after
after_first c r s t m = elim (Bool-cases (nullable r)) [
  | inl h ↦ rw h (left (after c s) m)
  | inr h ↦ rw h m
]

after_second :
    (c : ℕ) (r s : Regex) (t : Text)
    → nullable r ≡ true
    → Matches (after c s) t
    → Matches (after c (seq r s)) t
unfolding after
after_second c r s t h m = rw h (right (seq (after c r) s) m)

after_star :
    (c : ℕ) (r : Regex) (t : Text)
    → Matches (seq (after c r) (star r)) t
    → Matches (after c (star r)) t
unfolding after
after_star c r t m = m

after_complete :
    {r : Regex} {w : Text} → Matches r w → (c : ℕ) (t : Text) → w ≡ c ∷ t → Matches (after c r) t
after_complete empty_text c t e = cc
after_complete (one_byte p d h) c t e = after_byte p c d t h e
after_complete (left s m) c t e = after_left c _ s t (after_complete m c t e)
after_complete (right r m) c t e = after_right c r _ t (after_complete m c t e)
after_complete (both [] u w m n f) c t e =
    after_second c _ _ t (nullable_complete m refl) (after_complete n c t (sym f ∙ e))
after_complete (both (d ∷ v) u w m n f) c t e =
    after_first c _ _ t (both v u t (after_complete m c v (cc)) n (cc))
after_complete (none_more r) c t e = cc
after_complete (one_more [] u w m n f) c t e = after_complete n c t (sym f ∙ e)
after_complete (one_more (d ∷ v) u w m n f) c t e =
    after_star c _ t (both v u t (after_complete m c v (cc)) n (cc))

matches_complete : (r : Regex) (t : Text) → Matches r t → matches r t ≡ true
unfolding matches
matches_complete r [] m = nullable_complete m refl
matches_complete r (c ∷ t) m = matches_complete (after c r) t (after_complete m c t refl)

-- The matcher decides the meaning of an expression.
pub matches_iff : (r : Regex) (t : Text) → (matches r t ≡ true) ↔ Matches r t
matches_iff r t = (matches_sound r t, matches_complete r t)

-- A text that matches consists of bytes that the expression names.
abbrev pub InClass : (ℕ → Bool) → Regex → Type 0
InClass p never = Unit
InClass p empty = Unit
InClass p (byte q) = (c : ℕ) → q c ≡ true → p c ≡ true
InClass p (alt r s) = InClass p r × InClass p s
InClass p (seq r s) = InClass p r × InClass p s
InClass p (star r) = InClass p r

pub all-Matches : (p : ℕ → Bool) {r : Regex} {t : Text} → Matches r t → InClass p r → all p t ≡ true
all-Matches p empty_text i = refl
all-Matches p (one_byte q c h) i = rw (i c h)
all-Matches p (left s m) i = all-Matches p m i.0
all-Matches p (right r m) i = all-Matches p m i.1
all-Matches p (both t u w m n e) i =
    rw e (all-append p t u (all-Matches p m i.0) (all-Matches p n i.1))
all-Matches p (none_more r) i = refl
all-Matches p (one_more t u w m n e) i =
    rw e (all-append p t u (all-Matches p m i) (all-Matches p n i))
