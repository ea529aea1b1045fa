-- ===== src/Migrate/Connect.antt =====
-- `buildDSN` and `newMigrator` of cmd/migrate/main.go. A DSN is kept in its parts: `url.URL.String`
-- and the MySQL driver's `FormatDSN` print them. The libraries' answers are arguments.
use wapgo.Base.{
  ◌≡◌, arith, Bool, true, ◌||◌, Option, none, some, [], ◌++◌, if◌then◌else◌, Result, ok, err, any,
  ◌==◌,
}
use wapgo.Base.Text.{Text, codes, text_eq}

pub record DbConfig : Type 0 where
  pub driver : Text
  pub host : Text
  pub port : Text
  pub name : Text
  pub user : Text
  pub password : Text
  pub sslmode : Text

pub data Dsn : Type 0 where
  postgres_url : (user password host path sslmode : Text) → Dsn
  mysql_config : (user password addr db_name : Text) → (parse_time multi_statements : Bool) → Dsn

-- `if x == "" { x = d }`
abbrev pub or_default : Text → Text → Text
or_default d x = if text_eq x [] then d else x

-- `net.JoinHostPort`
unfoldable pub join_host_port : Text → Text → Text
join_host_port host port =
    if any (λ c. c == b':' || c == b'%') host
    then codes "[" ++ host ++ codes "]:" ++ port
    else host ++ codes ":" ++ port

unfoldable pub build_dsn : DbConfig → Result Text (Text × Dsn)
unfolding join_host_port text_eq
build_dsn cfg =
    if text_eq cfg.driver (codes "postgres") || text_eq cfg.driver []
    then ok (
      codes "postgres",
      postgres_url cfg.user cfg.password
          (join_host_port cfg.host (or_default (codes "5432") cfg.port)) (codes "/" ++ cfg.name)
          (or_default (codes "disable") cfg.sslmode),
    )
    else (if text_eq cfg.driver (codes "mysql")
        then ok (
          codes "mysql",
          mysql_config cfg.user cfg.password
              (join_host_port cfg.host (or_default (codes "3306") cfg.port)) cfg.name true true,
        )
        else err cfg.driver)

-- What the libraries answer while a migrator is made.
pub record Answers (M : Type 0) : Type 0 where
  pub source : Option Text
  pub open_db : Option Text
  pub ping : Option Text
  pub postgres_instance : Option Text
  pub mysql_instance : Option Text
  pub instance_of : Result Text M

-- The handle of the database: whether it was opened, and how often it was closed.
pub data Handle : Type 0 where
  not_opened opened closed : Handle

abbrev pub instance_error : {M : Type 0} → Answers M → Text → Option Text
instance_error a driver =
    if text_eq driver (codes "postgres")
    then a.postgres_instance
    else (if text_eq driver (codes "mysql")
        then a.mysql_instance
        else some (codes "unsupported driver"))

unfoldable pub new_migrator : {M : Type 0} → Answers M → Text → Result Text M × Handle
unfolding text_eq
new_migrator a driver = elim a.source [
  | some e ↦ (err (codes "load embedded migrations: " ++ e), not_opened)
  | none ↦ elim a.open_db [
    | some e ↦ (err (codes "open database: " ++ e), not_opened)
    | none ↦ elim a.ping [
      | some e ↦ (err (codes "database unreachable: " ++ e), closed)
      | none ↦ elim (instance_error a driver) [
        | some e ↦ (err (codes "init migrate driver: " ++ e), closed)
        | none ↦ elim a.instance_of [
          | err e ↦ (err (codes "init migrator: " ++ e), closed)
          | ok m ↦ (ok m, opened)
        ]
      ]
    ]
  ]
]

-- No connection is left behind: a migrator that could be made comes with its open database, for the
-- caller to close, and whenever it could not be made, a database that was opened is closed again.
pub new_migrator-handle :
    {M : Type 0} (a : Answers M) (driver : Text)
    → (new_migrator a driver).1 ≡ elim (new_migrator a driver).0 [
      | ok m ↦ opened
      | err e ↦ elim a.source [
        | some _ ↦ not_opened
        | none ↦ elim a.open_db [ some _ ↦ not_opened | none ↦ closed ]
      ]
    ]
unfolding new_migrator
new_migrator-handle a driver = ground arith
