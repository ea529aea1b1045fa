-- ===== src/Api/Health.antt =====
-- internal/delivery/http/handler/health_handler.go. A probe is what it answers; the map of the
-- extra probes is a list in the order of the iteration, which Go leaves open.
pub mod Laws
use wapgo.Base.{ℕ, Bool, List, [], ◌∷◌, if◌then◌else◌}
use wapgo.Base.Int.{ℤ, pos, ltb_ℤ}
use wapgo.Base.Text.{Text, codes, text_eq}
use wapgo.Base.Dict.{Dict, insert}

-- `NewHealthHandler`: two seconds where no timeout is given.
unfoldable pub probe_timeout : ℤ → ℤ
probe_timeout given = if ltb_ℤ (pos 0) given then given else pos 2_000_000_000

unfoldable pub add_checker : {C : Type 0} → Text → C → Dict C → Dict C
unfolding insert
add_checker name check extras = insert name check extras

pub record Report : Type 0 where
  pub http_code : ℕ
  pub status : Text
  pub services : Dict Text

-- The answer once the database was asked.
abbrev pub of_database : Bool → Report
of_database up =
    if up
    then record {
      http_code = 200;
      status = codes "ok";
      services = (codes "database", codes "ok") ∷ [];
    }
    else record {
      http_code = 503;
      status = codes "degraded";
      services = (codes "database", codes "down") ∷ [];
    }

unfoldable pub add_probe : Text → Text → Report → Report
unfolding insert text_eq
add_probe name answer r =
    let services = insert name answer r.services in
    if text_eq answer (codes "down")
    then record { http_code = 503; status = codes "degraded"; services = services }
    else record r { services = services }

unfoldable pub add_probes : List (Text × Text) → Report → Report
unfolding add_probe
add_probes [] r = r
add_probes ((name, answer) ∷ extras) r = add_probes extras (add_probe name answer r)

-- `Check`
unfoldable pub check : Bool → List (Text × Text) → Report
unfolding add_probes
check database_up extras = add_probes extras (of_database database_up)
