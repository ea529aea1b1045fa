-- ===== src/Migrate.antt =====
-- cmd/migrate/main.go. The migrator of golang-migrate is a parameter: its calls on the database's
-- state `S`, each with the error that it returns. What is printed is a list of lines; a version is
-- a number.
pub mod Laws
pub mod Connect
use wapgo.Base.{
  ℕ, zero, suc, ◌+◌, ◌-◌, Bool, true, false, Option, none, some, List, [], ◌∷◌, ltb, ◌==◌,
  if◌then◌else◌, Result, ok, err,
}
use wapgo.Base.Int.{ℤ, pos, negsuc, pos_part, ltb_ℤ}
use wapgo.Base.Text.{Text, codes, text_eq}

pub data Error : Type 0 where
  no_change nil_version version_required : Error
  other unknown_dir : Text → Error
  -- `fmt.Errorf("%w\n... dirty at version %d ...")`
  dirty_at : ℕ → Error → Error

-- `errors.Is(err, migrate.ErrNoChange)` and `errors.Is(err, migrate.ErrNilVersion)`
unfoldable pub is_no_change : Error → Bool
is_no_change no_change = true
is_no_change (dirty_at v e) = is_no_change e
is_no_change _ = false

unfoldable pub is_nil_version : Error → Bool
is_nil_version nil_version = true
is_nil_version (dirty_at v e) = is_nil_version e
is_nil_version _ = false

-- An error that is `none` is Go's nil.
pub record Migrator (S : Type 0) : Type 0 where
  pub steps : ℤ → S → Option Error × S
  pub up : S → Option Error × S
  pub force : ℕ → S → Option Error × S
  pub version : S → Result Error (ℕ × Bool)

pub data Line : Type 0 where
  done unchanged : Text → Line
  no_version : Line
  at_version : ℕ → Bool → Line

pub record Outcome (S : Type 0) : Type 0 where
  pub error : Option Error
  pub printed : List Line
  pub state : S

abbrev pub minus : ℕ → ℤ
minus zero = pos 0
minus (suc n) = negsuc n

-- `n := steps; if n <= 0 { n = 1 }`
abbrev pub down_steps : ℤ → ℕ
down_steps steps = if ltb_ℤ (pos 0) steps then pos_part steps else 1

module _ {S : Type 0} where
  unfoldable pub report : Text → Option Error × S → Outcome S
  unfolding is_no_change
  report action (none, s) = record { error = none; printed = done action ∷ []; state = s }
  report action (some e, s) =
      if is_no_change e
      then record { error = none; printed = unchanged action ∷ []; state = s }
      else record { error = some e; printed = []; state = s }

  unfoldable pub show_version : Result Error (ℕ × Bool) → S → Outcome S
  unfolding is_nil_version
  show_version (ok (v, dirty)) s = record {
    error = none;
    printed = at_version v dirty ∷ [];
    state = s;
  }
  show_version (err e) s =
      if is_nil_version e
      then record { error = none; printed = no_version ∷ []; state = s }
      else record { error = some e; printed = []; state = s }

  unfoldable pub exec : Migrator S → Text → ℤ → ℤ → S → Outcome S
  unfolding report show_version text_eq
  exec m dir steps target s =
      if text_eq dir (codes "up")
      then report (codes "up") (if ltb_ℤ (pos 0) steps then m.steps steps s else m.up s)
      else (if text_eq dir (codes "down")
          then report (codes "down") (m.steps (minus (down_steps steps)) s)
          else (if text_eq dir (codes "version")
              then show_version (m.version s) s
              else (if text_eq dir (codes "force")
                  then (if ltb_ℤ target (pos 0)
                      then record { error = some version_required; printed = []; state = s }
                      else report (codes "force") (m.force (pos_part target) s))
                  else record { error = some (unknown_dir dir); printed = []; state = s })))

  unfoldable pub with_dirty_hint : Migrator S → S → Error → Error
  with_dirty_hint m s e = elim (m.version s) [
    | err _ ↦ e
    | ok (v, dirty) ↦ if dirty then dirty_at v e else e
  ]

  unfoldable pub run : Migrator S → Text → ℤ → ℤ → S → Outcome S
  unfolding exec with_dirty_hint
  run m dir steps target s =
      let o = exec m dir steps target s in
      elim o.error [ none ↦ o | some e ↦ record o { error = some (with_dirty_hint m o.state e) } ]
