-- ===== src/Api/Server/Laws.antt =====
-- What holds of the service however it is configured.
use wapgo.Base.{
  ◌≡◌, ◌≢◌, refl, sym, Result, ok, err, Bool, true, false, not, ◌&&◌, ◌||◌, Option, none, some,
  List, [], ◌∷◌, all, if◌then◌else◌, arith, Bool-cases, inl, inr,
}
use mathlib.Core.Path.{subst}
use wapgo.Base.Int.{ℤ, pos, ltb_ℤ}
use wapgo.Base.Text.{Text, codes, text_eq, text_eq_iff}
use wapgo.Base.Strings.{pieces}
use wapgo.RateLimit.Http.{positive_or}
use wapgo.Api.Health.{probe_timeout}
use wapgo.Api.Server.{
  Config, seconds, redis_enabled, Limiter, redis_limiter, memory_limiter, global_limiter, kept,
  parse_trusted_proxies, redis_probe, Service, configured, start, or_expiry, Outside, Exit,
  no_config, no_provider, no_database, no_pool, migration_forbidden, migration_failed,
  migrate_at_start,
}

-- The window of a limiter, and whether it stands on Redis.
abbrev pub window_of : Limiter → ℤ
window_of (redis_limiter prefix max window) = window
window_of (memory_limiter max window) = window

abbrev pub on_redis : Limiter → Bool
on_redis (redis_limiter prefix max window) = true
on_redis (memory_limiter max window) = false

pub record IsSafe (env : Text) (s : Service) : Type 0 where
  pub bounded_queries : ltb_ℤ (pos 0) s.query_timeout ≡ true
  pub slow_hashes : ltb_ℤ s.bcrypt_cost (pos 10) ≡ false
  pub real_window : ltb_ℤ (pos 0) (window_of s.limiter) ≡ true
  pub redis_there : (not (on_redis s.limiter) || s.shared_stores) ≡ true
  pub no_auto_migration : (s.auto_migrates && text_eq env (codes "production")) ≡ false
  pub proxies_named : all (λ p. not (text_eq p [])) s.proxies ≡ true

positive :
    (d : ℤ) (given : Option ℤ) → ltb_ℤ (pos 0) d ≡ true → ltb_ℤ (pos 0) (positive_or d given) ≡ true
positive d none h = h
positive d (some n) h = ground arith

hashes : (cost : ℤ) → ltb_ℤ (if ltb_ℤ cost (pos 10) then pos 12 else cost) (pos 10) ≡ false
hashes cost = elim (Bool-cases (ltb_ℤ cost (pos 10))) [ inl low ↦ rw low | inr high ↦ rw high high ]

kept_named : (ps : List Text) → all (λ p. not (text_eq p [])) (kept ps) ≡ true
kept_named [] = refl
kept_named (p ∷ ps) = ground (arith, kept_named ps)

proxies_named : (raw : Text) → all (λ p. not (text_eq p [])) (parse_trusted_proxies raw) ≡ true
unfolding parse_trusted_proxies
proxies_named raw = ground (arith, kept_named (pieces b',' raw))

limiter-window :
    (cfg : Config) → window_of (global_limiter cfg) ≡ positive_or (seconds 60) cfg.limit_window
unfolding global_limiter
limiter-window cfg = ground arith

limiter-redis : (cfg : Config) → (not (on_redis (global_limiter cfg)) || redis_enabled cfg) ≡ true
unfolding global_limiter
limiter-redis cfg = ground arith

configured-IsSafe :
    (cfg : Config)
    → (cfg.auto_migrate && text_eq cfg.env (codes "production")) ≡ false
    → IsSafe cfg.env (configured cfg)
unfolding configured
configured-IsSafe cfg h = record {
  bounded_queries = positive (seconds 5) cfg.query_timeout refl;
  slow_hashes = hashes cfg.bcrypt_cost;
  real_window = rw (limiter-window cfg) (positive (seconds 60) cfg.limit_window refl);
  redis_there = limiter-redis cfg;
  no_auto_migration = h;
  proxies_named = proxies_named cfg.trusted_proxies;
}

-- All that has to be there before a migration.
abbrev pub is_up : Outside → Bool
is_up o = o.config_loads && (o.provider_ok && (o.database_ok && o.pool_ok))

-- A start that ends has a reason, and a service that starts is safe.
abbrev pub IsStarted : Config → Outside → Result Exit Service → Type 0
IsStarted cfg o (err no_config) = o.config_loads ≡ false
IsStarted cfg o (err no_provider) = o.provider_ok ≡ false
IsStarted cfg o (err no_database) = o.database_ok ≡ false
IsStarted cfg o (err no_pool) = o.pool_ok ≡ false
IsStarted cfg o (err migration_forbidden) =
    (cfg.env ≡ codes "production") × (cfg.auto_migrate ≡ true) × (is_up o ≡ true)
IsStarted cfg o (err migration_failed) =
    (cfg.env ≢ codes "production") × (cfg.auto_migrate ≡ true) × (o.migrates ≡ false)
IsStarted cfg o (ok s) =
    IsSafe cfg.env s × (is_up o ≡ true) × ((not cfg.auto_migrate || o.migrates) ≡ true)

in_production : (env : Text) → text_eq env (codes "production") ≡ false → env ≢ codes "production"
in_production env other same = ground (arith, text_eq_iff env (codes "production"))

module _ (cfg : Config) (o : Outside) where
  by_result : (r r' : Result Exit Service) → r ≡ r' → IsStarted cfg o r' → IsStarted cfg o r
  by_result r r' e h = subst (IsStarted cfg o) (sym e) h

  start_forbidden :
      is_up o ≡ true
      → cfg.auto_migrate ≡ true
      → text_eq cfg.env (codes "production") ≡ true
      → IsStarted cfg o (start cfg o)
  unfolding start migrate_at_start
  start_forbidden up on live =
      by_result _ (err migration_forbidden) (ground arith)
        ((text_eq_iff cfg.env (codes "production")).0 live, on, up)

  start_failed :
      is_up o ≡ true
      → cfg.auto_migrate ≡ true
      → text_eq cfg.env (codes "production") ≡ false
      → o.migrates ≡ false
      → IsStarted cfg o (start cfg o)
  unfolding start migrate_at_start
  start_failed up on other failed =
      by_result _ (err migration_failed) (ground arith) (in_production cfg.env other, on, failed)

  start_up :
      is_up o ≡ true
      → (cfg.auto_migrate && text_eq cfg.env (codes "production")) ≡ false
      → (not cfg.auto_migrate || o.migrates) ≡ true
      → IsStarted cfg o (start cfg o)
  unfolding start migrate_at_start
  start_up up allowed made =
      by_result _ (ok (configured cfg)) (ground arith) (configured-IsSafe cfg allowed, up, made)

  start_at_migration : is_up o ≡ true → IsStarted cfg o (start cfg o)
  start_at_migration up = elim (Bool-cases cfg.auto_migrate) [
    | inr off ↦ start_up up (rw off) (rw off)
    | inl on ↦ elim (Bool-cases (text_eq cfg.env (codes "production"))) [
      | inl live ↦ start_forbidden up on live
      | inr other ↦ elim (Bool-cases o.migrates) [
        | inl made ↦ start_up up (rw (on, other)) (rw (on, made))
        | inr failed ↦ start_failed up on other failed
      ]
    ]
  ]

-- A service that starts is safe, whatever it is configured with: queries are bounded in time,
-- passwords are hashed at a cost of ten or more, the limiter has a positive window and stands on
-- Redis only where Redis is configured, production is not migrated at the start, and no trusted
-- proxy is an empty name. It starts only if the configuration, the observability provider, the
-- database and its pool are there, and a migration that was asked for was made; a start that ends
-- before the service listens names the one of these that failed, or was told to migrate in
-- production.
pub start-IsStarted : (cfg : Config) (o : Outside) → IsStarted cfg o (start cfg o)
unfolding start
start-IsStarted cfg o = elim (Bool-cases o.config_loads) [
  | inr missing ↦ by_result cfg o _ (err no_config) (rw missing) missing
  | inl a ↦ elim (Bool-cases o.provider_ok) [
    | inr missing ↦ by_result cfg o _ (err no_provider) (rw (a, missing)) missing
    | inl b ↦ elim (Bool-cases o.database_ok) [
      | inr missing ↦ by_result cfg o _ (err no_database) (rw (a, b, missing)) missing
      | inl c ↦ elim (Bool-cases o.pool_ok) [
        | inr missing ↦ by_result cfg o _ (err no_pool) (rw (a, b, c, missing)) missing
        | inl d ↦ start_at_migration cfg o (ground arith)
      ]
    ]
  ]
]

-- A timeout of the health probes that cannot be read makes Redis "down" for good: the database is
-- then asked with two seconds, but the context of the Redis probe ends at once, whatever Redis
-- would answer.
pub redis_probe_unread :
    (answers : Bool)
    → (redis_probe none answers ≡ codes "down")
      × (probe_timeout (or_expiry (pos 0) none) ≡ pos 2_000_000_000)
unfolding redis_probe probe_timeout
redis_probe_unread answers = (refl, refl)
