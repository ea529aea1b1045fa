-- ===== src/Tests/Tools.antt =====
-- The command line tools: a migration that fails, an upgrade, and the names and columns of an
-- entity.
use wapgo.Base.Strings.{trim_prefix}
use wapgo.Cli.Upgrade.{semver_greater, validate_release_tag}
use wapgo.Base.Text.{text_eq}
use wapgo.Cli.Columns.{extract_field, go_type_to_sql, ident_to_sql, selector_to_sql}
use wapgo.Cli.GoMod.{module_of}
use wapgo.Base.{ℕ, ◌≡◌, refl, Bool, true, false, none, some, [], ◌∷◌, ◌++◌, Result, ok}
use wapgo.Base.Int.{pos}
use wapgo.Base.Text.{Text, codes}
use wapgo.Migrate.{Error, other, dirty_at, Migrator, run}
use wapgo.Migrate.Laws.{CanForce, run_recovers}
use wapgo.Cli.Upgrade.{upgrade_install_pkg, run_upgrade}
use wapgo.Cli.Upgrade.Laws.{IsInstalled, run_upgrade-IsInstalled}
use wapgo.Cli.Names.{to_snake, to_pascal, to_table, new_names}
use wapgo.Cli.Names.Laws.{to_snake-to_pascal}
use wapgo.Cli.Columns.{
  ident, selector, star, TypeSpec, parse_entity_fields, render_migration_columns,
}
use wapgo.Cli.Columns.Laws.{AreOfFile, parse_entity_fields-AreColumns}
use wapgo.Cli.GoMod.{parse_module_line}

-- A database whose next migration, the fourth, has a mistake in it.
abbrev broken : Migrator (ℕ × Bool)
broken = record {
  steps = λ n s. (some (other (codes "syntax error")), (4, true));
  up = λ s. (some (other (codes "syntax error")), (4, true));
  force = λ v s. (none, (v, false));
  version = λ s. ok s;
}

broken-CanForce : CanForce broken
broken-CanForce = record { force_ok = λ v s. refl; force_version = λ v s. refl }

abbrev failed : Error
failed = dirty_at 4 (other (codes "syntax error"))

run_recovers_example :
    let again =
      run broken
        (codes "force")
        (pos 0)
        (pos 4)
        (run broken (codes "up") (pos 0) (pos 0) (3, false)).state in
    ((cause : Error) × (failed ≡ dirty_at 4 cause))
    × (again.error ≡ none)
    × (broken.version again.state ≡ ok (4, false))
unfolding run
run_recovers_example =
    run_recovers broken broken-CanForce (codes "up") (pos 0) (pos 0) (pos 0) (3, false) failed 4
      refl refl

abbrev tag : Text
tag = codes "v1.10.0-rc.1"

abbrev latest : Result Text Text
latest = ok tag

run_upgrade-IsInstalled_example :
    (false ≡ false)
    × ((t : Text) × (latest ≡ ok t)
        × IsInstalled (codes "v1.9.2") t (upgrade_install_pkg ++ codes "@" ++ tag))
unfolding run_upgrade text_eq semver_greater trim_prefix validate_release_tag
run_upgrade-IsInstalled_example =
    run_upgrade-IsInstalled (codes "v1.9.2") false (λ ref. true) latest
      (upgrade_install_pkg ++ codes "@" ++ tag) refl

to_snake-to_pascal_example : to_snake (to_pascal (codes "order_item2")) ≡ codes "order_item2"
to_snake-to_pascal_example = to_snake-to_pascal (codes "order") (codes "item2" ∷ []) refl

category : to_table (codes "category") ≡ codes "categories"
unfolding to_table
category = refl

kebab : (new_names (codes "order-Item")).pascal ≡ codes "OrderItem"
unfolding new_names
kebab = refl

abbrev order : TypeSpec
order = record {
  name = codes "Order";
  struct = some (
      record { names = codes "ID" ∷ []; type = selector (codes "uuid") (codes "UUID") }
      ∷ record { names = codes "TotalPrice" ∷ []; type = ident (codes "int64") }
      ∷ record { names = codes "PaidAt" ∷ []; type = star (selector (codes "time") (codes "Time")) }
      ∷ record { names = []; type = ident (codes "Base") }
      ∷ []);
}

parse_entity_fields-AreColumns_example :
    AreOfFile (order ∷ []) (parse_entity_fields (some (order ∷ [])))
parse_entity_fields-AreColumns_example = parse_entity_fields-AreColumns (order ∷ [])

rendered :
    render_migration_columns (parse_entity_fields (some (order ∷ [])))
    ≡ codes "    total_price BIGINT NOT NULL DEFAULT 0,\n    paid_at     TIMESTAMP(3) NOT NULL,"
unfolding render_migration_columns parse_entity_fields extract_field text_eq go_type_to_sql
    ident_to_sql to_snake selector_to_sql
rendered = refl

module_path :
    parse_module_line (codes "// a service\nmodule example.org/shop\n")
    ≡ ok (codes "example.org/shop")
unfolding parse_module_line module_of
module_path = refl
