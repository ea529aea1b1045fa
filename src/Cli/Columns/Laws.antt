-- ===== src/Cli/Columns/Laws.antt =====
-- The columns that a migration gets (`ParseEntityFields` of cli/generator/entity_parser.go).
use wapgo.Base.{
  ℕ, ◌≡◌, refl, true, false, none, some, List, [], ◌∷◌, all, any, arith, Bool-cases, Option-cases,
  ◌⊎◌, inl, inr, ◌≤◌,
}
use wapgo.Base.Text.{Text, codes, text_eq, text_eq_iff}
use mathlib.Core.Path.{subst}
use wapgo.Cli.Names.{to_snake}
use wapgo.Cli.Names.Laws.{is_snake_byte, to_snake-bytes}
use wapgo.Cli.Columns.{
  FieldDecl, EntityField, is_exported, skip_fields, extract_field, extract_fields, TypeSpec,
  first_struct, parse_entity_fields, go_type_to_sql,
}

-- A name that begins with a capital letter.
abbrev pub IsCapital : Text → Type 0
IsCapital name = (c : ℕ) × (s : Text) × (name ≡ c ∷ s) × (b'A' ≤ c) × (c ≤ b'Z')

-- The columns that every migration has without the entity's fields.
abbrev pub IsOwn : Text → Type 0
IsOwn name =
    (name ≡ codes "ID")
    ⊎ ((name ≡ codes "CreatedAt") ⊎ ((name ≡ codes "UpdatedAt") ⊎ (name ≡ codes "DeletedAt")))

-- A field that gets no column.
abbrev pub IsSkipped : FieldDecl → Type 0
IsSkipped f =
    (f.names ≡ [])
    ⊎ ((name : Text) × (others : List Text) × (f.names ≡ name ∷ others)
        × ((¬ IsCapital name) ⊎ IsOwn name))

-- The column of a field.
pub record IsColumn (f : FieldDecl) (e : EntityField) : Type 0 where
  pub others : List Text
  pub of_field : f.names ≡ e.name ∷ others
  pub exported : IsCapital e.name
  pub not_own : ¬ IsOwn e.name
  pub plain : all is_snake_byte e.sql_name ≡ true
  pub named : e.sql_name ≡ to_snake e.name
  pub typed : e.sql_type ≡ go_type_to_sql f.type

-- One column, in order, for each field that is not skipped, and no other.
abbrev pub AreColumns : List FieldDecl → List EntityField → Type 0
AreColumns [] es = es ≡ []
AreColumns (f ∷ fs) es =
    (IsSkipped f × AreColumns fs es)
    ⊎ ((e : EntityField) × (rest : List EntityField) × (es ≡ e ∷ rest)
        × IsColumn f e
        × AreColumns fs rest)

-- A declaration that is taken for the entity's.
abbrev pub IsEntity : TypeSpec → List FieldDecl → Type 0
IsEntity s fields = (s.struct ≡ some fields) × IsCapital s.name

abbrev pub IsOther : TypeSpec → Type 0
IsOther s = (s.struct ≡ none) ⊎ (¬ IsCapital s.name)

-- The columns are those of the first entity; without one there are none.
abbrev pub AreOfFile : List TypeSpec → List EntityField → Type 0
AreOfFile [] es = es ≡ []
AreOfFile (s ∷ specs) es =
    (IsOther s × AreOfFile specs es)
    ⊎ ((fields : List FieldDecl) × IsEntity s fields × AreColumns fields es)

capital : (name : Text) → is_exported name ≡ true → IsCapital name
capital [] h = cc
capital (c ∷ s) h = (c, s, refl, ground arith, ground arith)

not_capital : (name : Text) → is_exported name ≡ false → ¬ IsCapital name
not_capital [] h (c, s, same, low, high) = cc
not_capital (d ∷ n) h (c, s, same, low, high) = ground arith

own : (name : Text) → any (λ s. text_eq s name) skip_fields ≡ true → IsOwn name
own name h = ground (
  arith,
  text_eq_iff (codes "ID") name,
  text_eq_iff (codes "CreatedAt") name,
  text_eq_iff (codes "UpdatedAt") name,
  text_eq_iff (codes "DeletedAt") name,
)

not-IsOwn : (name : Text) → any (λ s. text_eq s name) skip_fields ≡ false → ¬ IsOwn name
unfolding text_eq
not-IsOwn name h mine = elim mine [
  | inl e ↦ let bad = free (codes "ID") e in cc
  | inr (inl e) ↦ let bad = free (codes "CreatedAt") e in cc
  | inr (inr (inl e)) ↦ let bad = free (codes "UpdatedAt") e in cc
  | inr (inr (inr e)) ↦ let bad = free (codes "DeletedAt") e in cc
]
  where
    free : (k : Text) → name ≡ k → any (λ s. text_eq s k) skip_fields ≡ false
    free k e = subst (λ n. any (λ s. text_eq s n) skip_fields ≡ false) e h

field-IsColumn :
    (f : FieldDecl)
    → ((extract_field f ≡ none) × IsSkipped f)
      ⊎ ((e : EntityField) × (extract_field f ≡ some e) × IsColumn f e)
unfolding extract_field
field-IsColumn f = from_names f.names refl
  where
    from_names :
        (names : List Text)
        → f.names ≡ names
        → ((extract_field f ≡ none) × IsSkipped f)
          ⊎ ((e : EntityField) × (extract_field f ≡ some e) × IsColumn f e)
    from_names [] given = inl (rw given, inl given)
    from_names (name ∷ others) given = elim (Bool-cases (is_exported name)) [
      | inr hidden ↦
          inl (rw (given, hidden), inr (name, others, given, inl (not_capital name hidden)))
      | inl shown ↦ elim (Bool-cases (any (λ s. text_eq s name) skip_fields)) [
        | inl mine ↦ inl (rw (given, shown, mine), inr (name, others, given, inr (own name mine)))
        | inr free ↦ inr (
          record { name = name; sql_name = to_snake name; sql_type = go_type_to_sql f.type },
          rw (given, shown, free),
          record {
            others = others;
            of_field = given;
            exported = capital name shown;
            not_own = not-IsOwn name free;
            plain = to_snake-bytes name;
            named = refl;
            typed = refl;
          },
        )
      ]
    ]

extract_fields-AreColumns : (fs : List FieldDecl) → AreColumns fs (extract_fields fs)
unfolding extract_fields
extract_fields-AreColumns [] = refl
extract_fields-AreColumns (f ∷ fs) = elim (field-IsColumn f) [
  | inl (skipped, why) ↦ rw (skipped, extract_fields) (inl (why, extract_fields-AreColumns fs))
  | inr (e, kept, good) ↦
      rw (kept, extract_fields)
        (inr (e, extract_fields fs, refl, good, extract_fields-AreColumns fs))
]

first_struct-AreOfFile : (specs : List TypeSpec) → AreOfFile specs (first_struct specs)
unfolding first_struct
first_struct-AreOfFile [] = refl
first_struct-AreOfFile (s ∷ specs) = elim (Option-cases s.struct) [
  | inl alias ↦ inl (inl alias, rw alias (first_struct-AreOfFile specs))
  | inr (fields, struct) ↦ elim (Bool-cases (is_exported s.name)) [
    | inl shown ↦ inr (
      fields,
      (struct, capital s.name shown),
      subst (AreColumns fields) (rw (struct, shown)) (extract_fields-AreColumns fields),
    )
    | inr hidden ↦ inl (
      inr (not_capital s.name hidden),
      subst (AreOfFile specs) (rw (struct, hidden)) (first_struct-AreOfFile specs),
    )
  ]
]

-- The columns of a file are those of its first exported struct type, or none if it has no such type:
-- in the order of the fields, one for each that has a name, is exported by its first name and is
-- not one of the skeleton's four, and no other. A column's name is the field's in snake_case, with
-- no capital and no dash in it, and its type is that of the field's type.
pub parse_entity_fields-AreColumns :
    (specs : List TypeSpec) → AreOfFile specs (parse_entity_fields (some specs))
unfolding parse_entity_fields
parse_entity_fields-AreColumns specs = first_struct-AreOfFile specs
