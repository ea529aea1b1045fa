-- ===== src/Cli/Columns.antt =====
-- cli/generator/entity_parser.go: the columns of a migration from the fields of an entity. The
-- file's declarations, as go/parser gives them, are the input.
pub mod Laws
pub mod Render
use wapgo.Base.{
  ℕ, zero, suc, ◌-◌, Bool, true, false, not, ◌&&◌, ◌||◌, Option, none, some, List, [], ◌∷◌, ◌++◌,
  any, length, ltb, ◌==◌, if◌then◌else◌,
}
use wapgo.Base.Text.{Text, codes, text_eq}
use wapgo.Base.Ascii.{is_upper}
use wapgo.Base.Strings.{trim_right}
use wapgo.Base.Dict.{Dict, lookup}
use wapgo.Cli.Names.{to_snake}

-- The types of fields that the code tells apart; a selector is of a package or of something else.
pub data Expr : Type 0 where
  ident : Text → Expr
  selector : Text → Text → Expr
  selector_of_other array other : Expr
  star : Expr → Expr

-- `A, B string`, or an embedded type, which has no names.
pub record FieldDecl : Type 0 where
  pub names : List Text
  pub type : Expr

pub record EntityField : Type 0 where
  pub name : Text
  pub sql_name : Text
  pub sql_type : Text

-- `ast.IsExported`
abbrev pub is_exported : Text → Bool
is_exported [] = false
is_exported (c ∷ s) = is_upper c

abbrev pub skip_fields : List Text
skip_fields = codes "ID" ∷ codes "CreatedAt" ∷ codes "UpdatedAt" ∷ codes "DeletedAt" ∷ []

abbrev pub or_text : Option Text → Text
or_text none = codes "TEXT"
or_text (some t) = t

abbrev pub ident_types : Dict Text
ident_types =
    (codes "string", codes "VARCHAR(255) NOT NULL")
    ∷ (codes "int", codes "INT NOT NULL DEFAULT 0")
    ∷ (codes "int32", codes "INT NOT NULL DEFAULT 0")
    ∷ (codes "int64", codes "BIGINT NOT NULL DEFAULT 0")
    ∷ (codes "uint", codes "INT UNSIGNED NOT NULL DEFAULT 0")
    ∷ (codes "uint32", codes "INT UNSIGNED NOT NULL DEFAULT 0")
    ∷ (codes "uint64", codes "BIGINT UNSIGNED NOT NULL DEFAULT 0")
    ∷ (codes "float32", codes "DECIMAL(18,4) NOT NULL DEFAULT 0")
    ∷ (codes "float64", codes "DECIMAL(18,4) NOT NULL DEFAULT 0")
    ∷ (codes "bool", codes "TINYINT(1) NOT NULL DEFAULT 0")
    ∷ []

unfoldable pub ident_to_sql : Text → Text
unfolding lookup
ident_to_sql name = or_text (lookup name ident_types)

abbrev pub selector_types : Dict Text
selector_types =
    (codes "uuid.UUID", codes "VARCHAR(36) NOT NULL")
    ∷ (codes "time.Time", codes "TIMESTAMP(3) NOT NULL")
    ∷ (codes "decimal.Decimal", codes "DECIMAL(18,4) NOT NULL DEFAULT 0")
    ∷ (codes "decimal.NullDecimal", codes "DECIMAL(18,4) NOT NULL DEFAULT 0")
    ∷ (codes "null.String", codes "VARCHAR(255) NULL")
    ∷ (codes "sql.NullString", codes "VARCHAR(255) NULL")
    ∷ (codes "null.Time", codes "TIMESTAMP(3) NULL")
    ∷ (codes "sql.NullTime", codes "TIMESTAMP(3) NULL")
    ∷ (codes "null.Int64", codes "BIGINT NULL")
    ∷ (codes "sql.NullInt64", codes "BIGINT NULL")
    ∷ (codes "null.Bool", codes "TINYINT(1) NULL")
    ∷ (codes "sql.NullBool", codes "TINYINT(1) NULL")
    ∷ (codes "gorm.DeletedAt", [])
    ∷ []

unfoldable pub selector_to_sql : Text → Text → Text
unfolding lookup
selector_to_sql pkg typ = or_text (lookup (pkg ++ codes "." ++ typ) selector_types)

unfoldable pub go_type_to_sql : Expr → Text
go_type_to_sql (ident name) = ident_to_sql name
go_type_to_sql (selector pkg typ) = selector_to_sql pkg typ
go_type_to_sql selector_of_other = codes "TEXT"
go_type_to_sql array = codes "JSON"
go_type_to_sql other = codes "TEXT"
go_type_to_sql (star t) = go_type_to_sql t

-- `none` where the loop goes on without a field.
unfoldable pub extract_field : FieldDecl → Option EntityField
extract_field f = elim f.names [
  | [] ↦ none
  | name ∷ others ↦
      if not (is_exported name) || any (λ s. text_eq s name) skip_fields
      then none
      else some (record { name = name; sql_name = to_snake name; sql_type = go_type_to_sql f.type })
]

unfoldable pub extract_fields : List FieldDecl → List EntityField
extract_fields [] = []
extract_fields (f ∷ fs) =
    let rest = extract_fields fs in elim (extract_field f) [ none ↦ rest | some e ↦ e ∷ rest ]

-- A type declaration: its name, and its fields if it is a struct.
pub record TypeSpec : Type 0 where
  pub name : Text
  pub struct : Option (List FieldDecl)

-- Of a file that can be read and parsed, the specs of its type declarations, in order: the fields
-- of the first exported struct.
unfoldable pub first_struct : List TypeSpec → List EntityField
unfolding extract_fields
first_struct [] = []
first_struct (s ∷ specs) =
    let rest = first_struct specs in
    elim s.struct [
      | none ↦ rest
      | some fields ↦ if is_exported s.name then extract_fields fields else rest
    ]

unfoldable pub parse_entity_fields : Option (List TypeSpec) → List EntityField
unfolding first_struct
parse_entity_fields none = []
parse_entity_fields (some specs) = first_struct specs

-- `strings.Repeat(" ", n)`
abbrev pub spaces : ℕ → Text
spaces zero = []
spaces (suc n) = b' ' ∷ spaces n

-- What is between a column's name and its type.
abbrev pub padding : Text → Text
padding name = if ltb (length name) 12 then spaces (12 - length name) else codes " "

-- A column's line up to its comma.
abbrev pub column_line : EntityField → Text
column_line f = codes "    " ++ f.sql_name ++ padding f.sql_name ++ f.sql_type ++ codes ","

-- What the loop of `RenderMigrationColumns` writes.
unfoldable pub written : List EntityField → Text
written [] = []
written (f ∷ fs) = if text_eq f.sql_type [] then written fs else column_line f ++ b'\n' ∷ written fs

unfoldable pub render_migration_columns : List EntityField → Text
unfolding written trim_right
render_migration_columns [] = codes "    -- TODO: add domain columns here"
render_migration_columns (f ∷ fs) = trim_right (λ c. c == b'\n') (written (f ∷ fs))
