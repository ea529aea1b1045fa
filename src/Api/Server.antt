-- ===== src/Api/Server.antt =====
-- What cmd/api/main.go decides from the configuration before it listens: durations as
-- `time.ParseDuration` gives them (`none` for a text that is none), in nanoseconds. Of opening the
-- connections only the success is known; instrumentation and the shutdown are left out.
pub mod Laws
use wapgo.Base.{
  ℕ, ◌*◌, Bool, true, false, not, ◌&&◌, Option, none, some, List, [], ◌∷◌, ◌++◌, if◌then◌else◌,
  Result, ok, err,
}
use wapgo.Base.Int.{ℤ, pos, ltb_ℤ}
use wapgo.Base.Text.{Text, codes, text_eq}
use wapgo.Base.Strings.{pieces, split, trim, is_space}
use wapgo.RateLimit.Http.{positive_or}

pub record Config : Type 0 where
  pub env : Text
  pub query_timeout : Option ℤ
  pub auto_migrate : Bool
  pub redis_url : Text
  pub jwt_expiry : Option ℤ
  pub refresh_expiry : Option ℤ
  pub bcrypt_cost : ℤ
  pub probe_timeout : Option ℤ
  pub limit_backend : Text
  pub limit_max : ℤ
  pub limit_window : Option ℤ
  pub limit_prefix : Text
  pub trusted_proxies : Text

abbrev pub seconds : ℕ → ℤ
seconds n = pos (n * 1_000_000_000)

-- `RedisConfig.Enabled`
unfoldable pub redis_enabled : Config → Bool
unfolding trim text_eq
redis_enabled cfg = not (text_eq (trim is_space cfg.redis_url) [])

abbrev pub or_expiry : ℤ → Option ℤ → ℤ
or_expiry d none = d
or_expiry d (some e) = e

pub data Limiter : Type 0 where
  redis_limiter : Text → ℤ → ℤ → Limiter
  memory_limiter : ℤ → ℤ → Limiter

unfoldable pub global_limiter : Config → Limiter
unfolding redis_enabled
global_limiter cfg =
    let window = positive_or (seconds 60) cfg.limit_window in
    if text_eq cfg.limit_backend (codes "redis") && redis_enabled cfg
    then redis_limiter cfg.limit_prefix cfg.limit_max window
    else memory_limiter cfg.limit_max window

-- `parseTrustedProxies`
abbrev pub kept : List Text → List Text
kept [] = []
kept (p ∷ ps) =
    let rest = kept ps in if text_eq (trim is_space p) [] then rest else trim is_space p ∷ rest

unfoldable pub parse_trusted_proxies : Text → List Text
unfolding split trim text_eq
parse_trusted_proxies raw = if text_eq raw [] then [] else kept (pieces b',' raw)

-- The probe of Redis: its context ends after the configured timeout, at once if that is not
-- positive.
unfoldable pub redis_probe : Option ℤ → Bool → Text
redis_probe timeout answers =
    if ltb_ℤ (pos 0) (or_expiry (pos 0) timeout) && answers then codes "ok" else codes "down"

-- `checks_proxies` is Fiber's `EnableTrustedProxyCheck`: if it is false, Fiber takes every peer for a
-- trusted proxy. No `ProxyHeader` is set.
pub record Service : Type 0 where
  pub query_timeout : ℤ
  pub auto_migrates : Bool
  pub shared_stores : Bool
  pub access_expiry : ℤ
  pub refresh_expiry : ℤ
  pub bcrypt_cost : ℤ
  pub limiter : Limiter
  pub proxies : List Text
  pub checks_proxies : Bool

abbrev pub is_nonempty : List Text → Bool
is_nonempty [] = false
is_nonempty (p ∷ ps) = true

unfoldable pub configured : Config → Service
unfolding redis_enabled global_limiter parse_trusted_proxies
configured cfg =
    let proxies = parse_trusted_proxies cfg.trusted_proxies in
    record {
      query_timeout = positive_or (seconds 5) cfg.query_timeout;
      auto_migrates = cfg.auto_migrate;
      shared_stores = redis_enabled cfg;
      access_expiry = or_expiry (seconds 900) cfg.jwt_expiry;
      refresh_expiry = or_expiry (seconds 604_800) cfg.refresh_expiry;
      bcrypt_cost = if ltb_ℤ cfg.bcrypt_cost (pos 10) then pos 12 else cfg.bcrypt_cost;
      limiter = global_limiter cfg;
      proxies = proxies;
      checks_proxies = is_nonempty proxies;
    }

-- What the steps of a start answer that can end the process: whether the configuration loads, the
-- provider of observability and the connection to the database are made, the pool behind it is
-- there, and `AutoMigrate` succeeds.
pub record Outside : Type 0 where
  pub config_loads : Bool
  pub provider_ok : Bool
  pub database_ok : Bool
  pub pool_ok : Bool
  pub migrates : Bool

-- The `Fatal` exits before the service listens, in their order.
pub data Exit : Type 0 where
  no_config no_provider no_database no_pool migration_forbidden migration_failed : Exit

unfoldable pub migrate_at_start : Config → Outside → Option Exit
unfolding text_eq
migrate_at_start cfg o =
    if cfg.auto_migrate
    then (if text_eq cfg.env (codes "production")
        then some migration_forbidden
        else (if o.migrates then none else some migration_failed))
    else none

unfoldable pub start : Config → Outside → Result Exit Service
unfolding configured migrate_at_start
start cfg o =
    if not o.config_loads
    then err no_config
    else (if not o.provider_ok
        then err no_provider
        else (if not o.database_ok
            then err no_database
            else (if not o.pool_ok then err no_pool else (elim (migrate_at_start cfg o) [
              | some e ↦ err e
              | none ↦ ok (configured cfg)
            ]))))

-- The `ErrorHandler`: the code of a Fiber error, or 500.
abbrev pub error_code : Option ℕ → ℕ
error_code none = 500
error_code (some code) = code

-- `newRedisClient`: what the URL gives (`none` if it is none), with the settings on top.
pub record RedisSettings : Type 0 where
  pub password : Text
  pub db : ℤ
  pub pool_size : ℤ
  pub min_idle_conns : ℤ
  pub max_retries : ℤ
  pub dial_timeout : Option ℤ
  pub read_timeout : Option ℤ
  pub write_timeout : Option ℤ

pub record RedisOptions : Type 0 where
  pub addr : Text
  pub password : Text
  pub db : ℤ
  pub pool_size : ℤ
  pub min_idle_conns : ℤ
  pub max_retries : ℤ
  pub dial_timeout : ℤ
  pub read_timeout : ℤ
  pub write_timeout : ℤ

abbrev pub local_redis : RedisOptions
local_redis = record {
  addr = codes "localhost:6379";
  password = [];
  db = pos 0;
  pool_size = pos 0;
  min_idle_conns = pos 0;
  max_retries = pos 0;
  dial_timeout = pos 0;
  read_timeout = pos 0;
  write_timeout = pos 0;
}

abbrev pub or_parsed : Option RedisOptions → RedisOptions
or_parsed none = local_redis
or_parsed (some o) = o

-- `if x > 0 { opts.X = x }`
abbrev pub over : ℤ → ℤ → ℤ
over given x = if ltb_ℤ (pos 0) x then x else given

unfoldable pub redis_options : Option RedisOptions → RedisSettings → RedisOptions
unfolding text_eq
redis_options parsed cfg =
    let o = or_parsed parsed in
    record {
      addr = o.addr;
      password = if text_eq cfg.password [] then o.password else cfg.password;
      db = over o.db cfg.db;
      pool_size = over o.pool_size cfg.pool_size;
      min_idle_conns = over o.min_idle_conns cfg.min_idle_conns;
      max_retries = over o.max_retries cfg.max_retries;
      dial_timeout = or_expiry o.dial_timeout cfg.dial_timeout;
      read_timeout = or_expiry o.read_timeout cfg.read_timeout;
      write_timeout = or_expiry o.write_timeout cfg.write_timeout;
    }
