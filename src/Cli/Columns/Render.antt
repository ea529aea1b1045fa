-- ===== src/Cli/Columns/Render.antt =====
-- The text of the columns of a migration (`RenderMigrationColumns` of
-- cli/generator/entity_parser.go).
use wapgo.Base.{
  ℕ, ◌≡◌, ◌≢◌, refl, Bool, List, [], ◌∷◌, ◌++◌, ◌==◌, if◌then◌else◌, Bool-cases, ◌⊎◌, inl, inr,
}
use wapgo.Base.Text.{Text, codes, text_eq}
use wapgo.Base.Strings.{trim_right, trim_right-append, trim_right-cut}
use wapgo.Cli.Columns.{EntityField, padding, column_line, written, render_migration_columns}

-- The lines of the fields that have a type.
abbrev pub column_lines : List EntityField → List Text
column_lines [] = []
column_lines (f ∷ fs) =
    let rest = column_lines fs in if text_eq f.sql_type [] then rest else column_line f ∷ rest

-- `strings.Join(lines, "\n")`
abbrev pub join_lines : List Text → Text
join_lines [] = []
join_lines (l ∷ []) = l
join_lines (l ∷ m ∷ ls) = l ++ b'\n' ∷ join_lines (m ∷ ls)

abbrev newline : ℕ → Bool
newline c = c == b'\n'

last_comma : trim_right newline (codes ",") ≡ b',' ∷ []
unfolding trim_right
last_comma = refl

trim_nothing : trim_right newline [] ≡ []
unfolding trim_right
trim_nothing = refl

trim_newline-nil : (s : Text) → trim_right newline s ≡ [] → trim_right newline (b'\n' ∷ s) ≡ []
unfolding trim_right
trim_newline-nil s e = rw e

trim_newline-cons :
    (s : Text) (d : ℕ) (u : Text)
    → trim_right newline s ≡ d ∷ u
    → trim_right newline (b'\n' ∷ s) ≡ b'\n' ∷ d ∷ u
unfolding trim_right
trim_newline-cons s d u e = rw e

-- A line ends with a comma, so nothing of it is cut off.
trim_line : (f : EntityField) → trim_right newline (column_line f) ≡ column_line f
trim_line f =
    trim_right-append newline (codes "    " ++ f.sql_name ++ padding f.sql_name ++ f.sql_type)
      (codes ",") b',' [] last_comma

-- Joined lines begin as the first does.
join_lines-head :
    (l : Text) (ls : List Text) → (u : Text) × (join_lines ((b' ' ∷ l) ∷ ls) ≡ b' ' ∷ u)
join_lines-head l [] = (l, refl)
join_lines-head l (m ∷ ls) = (l ++ b'\n' ∷ join_lines (m ∷ ls), refl)

column_lines-head :
    (fs : List EntityField)
    → (column_lines fs ≡ []) ⊎ ((l : Text) × (ls : List Text) × (column_lines fs ≡ (b' ' ∷ l) ∷ ls))
column_lines-head [] = inl refl
column_lines-head (f ∷ fs) = elim (Bool-cases (text_eq f.sql_type [])) [
  | inl e ↦ rw e (column_lines-head fs)
  | inr e ↦ inr (
    codes "   " ++ f.sql_name ++ padding f.sql_name ++ f.sql_type ++ codes ",",
    column_lines fs,
    rw e,
  )
]

trim_written :
    (fs : List EntityField) → trim_right newline (written fs) ≡ join_lines (column_lines fs)
unfolding written
trim_written [] = trim_nothing
trim_written (f ∷ fs) = elim (Bool-cases (text_eq f.sql_type [])) [
  | inl e ↦ rw e (trim_written fs)
  | inr e ↦ elim (column_lines-head fs) [
    | inl none_left ↦
        rw
          (
            e,
            none_left,
            trim_right-cut newline (column_line f) (b'\n' ∷ written fs)
                (trim_newline-nil (written fs) (rw none_left at (trim_written fs))),
          )
          (trim_line f)
    | inr (l, ls, some_left) ↦
        let (u, joined) = join_lines-head l ls in
        rw
          (
            e,
            some_left,
            joined,
            trim_right-append newline (column_line f) (b'\n' ∷ written fs) b'\n' (b' ' ∷ u) (
                trim_newline-cons (written fs) b' ' u
                  (rw (some_left, joined) at (trim_written fs))),
          )
          refl
  ]
]

-- The columns are joined lines: for an entity with fields, what is rendered is the line of each
-- field that has an SQL type, in order, separated by newlines, with none at the end.
pub render_migration_columns-join :
    (fs : List EntityField) → fs ≢ [] → render_migration_columns fs ≡ join_lines (column_lines fs)
unfolding render_migration_columns
render_migration_columns-join [] h = absurd (h refl)
render_migration_columns-join (f ∷ fs) h = trim_written (f ∷ fs)
