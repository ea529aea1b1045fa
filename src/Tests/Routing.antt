-- ===== src/Tests/Routing.antt =====
-- A deletion by an administrator, a health check while the brokers are down, and a start.
use wapgo.Auth.Jwt.{verify}
use wapgo.Auth.MemoryBlacklist.{is_revoked}
use wapgo.Auth.Middleware.{check_blacklist, middleware, require_role}
use wapgo.Base.Dict.{erase, insert, lookup, retain}
use wapgo.RateLimit.Http.{limited, rate_limiter_with, retry_after_header}
use wapgo.RateLimit.Memory.{allow, current, sweep_locked, verdict}
use wapgo.Tests.Token.{
  fits, get_claims, get_list, get_option, get_text, has_key, is_running, is_started, parse,
  put_claims, put_list, put_option, put_text, put_times, read_list, signed,
}
use wapgo.Base.{
  ℕ, ◌*◌, ◌^◌, ◌≡◌, All, map, ◌≢◌, refl, Bool, true, false, ◌&&◌, Option, none, some, [], ◌∷◌, ◌++◌,
  any, Result, ok, err, arith,
}
use wapgo.Base.Int.{pos}
use wapgo.Base.Text.{Text, codes, text_eq, text_eq_iff, strip_prefix, strip_prefix-append}
use wapgo.Base.Strings.{has_prefix, trim, is_space}
use wapgo.Auth.MemoryBlacklist.{MemoryBlacklist, new_memory_blacklist}
use wapgo.Auth.Blacklist.{memory_blacklist}
use wapgo.Auth.Jwt.{JwtError, Claims, sign, new_claims, access}
use wapgo.Auth.Middleware.{bearer}
use wapgo.Auth.Middleware.Laws.{IsAdmitted}
use wapgo.Api.Routes as Routes
use wapgo.Api.Routes.{
  Method, get, post, put, delete, Endpoint, delete_user, setup, State, new_state, Outcome, reached,
  pass, run_guards, serve,
}
use wapgo.Api.Routes.Laws.{guards_of, IsFiber, serve-guards_of}
use wapgo.Api.Routes.Access.{serve-delete_user}
use wapgo.Messaging.RabbitMq.Connection.{Amqp}
use wapgo.Messaging.RabbitMq.Connection as RabbitMq
use wapgo.Messaging.Kafka.Health as Kafka
use wapgo.Api.Health.{check}
use wapgo.Api.Health.Laws.{check_misses_brokers}
use wapgo.Api.Server.{Config, Outside, start}
use wapgo.Api.Server.Laws.{IsStarted, start-IsStarted}
use wapgo.Journal.Record.{Journal}
use wapgo.Api.AccessLog as AccessLog
use wapgo.Api.AccessLog.{AccessLogOptions, Response, access_log}
use wapgo.Journal.Redact.Laws.{IsMasked, name}
use wapgo.Api.AccessLog.Laws.{access_log_alike}
use wapgo.Tests.Token.{token_lib}
use wapgo.Tests.Service.{config}
use wapgo.Tests.Records.{headers, same_headers}

-- A DELETE of this path, which is its own pattern.
abbrev path : Text
path = codes "/api/v1/users/:id"

abbrev is_delete : Method → Bool
is_delete get = false
is_delete post = false
is_delete put = false
is_delete delete = true

abbrev path_fits : Option Method → Text → Bool
path_fits none prefix = has_prefix path prefix
path_fits (some m) pattern = is_delete m && text_eq path pattern

below_prefix :
    (p prefix rest : Text) → text_eq p (prefix ++ rest) ≡ true → has_prefix p prefix ≡ true
unfolding has_prefix
below_prefix p prefix rest h =
    rw ((text_eq_iff p (prefix ++ rest)).0 h, strip_prefix-append prefix rest)

path_fits-IsFiber : IsFiber path_fits
path_fits-IsFiber = record {
  below = λ m prefix rest h. below_prefix path prefix (b'/' ∷ rest) (ground arith);
}

abbrev signed_or : Result JwtError (Text × Text) → Text
signed_or (ok (t, id)) = t
signed_or (err e) = []

abbrev token : Text
token =
    signed_or (sign token_lib (10 ^ 9) (codes "j") (codes "1") (codes "admin" ∷ []) access config)

abbrev claims : Claims
claims = new_claims token_lib (10 ^ 9) (codes "j") (codes "1") (codes "admin" ∷ []) access config

abbrev request : Routes.Request
request = record { now = 5 * 10 ^ 9; ip = codes "10.1.1.1"; authorization = bearer ++ token }

abbrev state : State MemoryBlacklist
state = new_state new_memory_blacklist

deleted :
    (serve token_lib config
      (some memory_blacklist)
      path_fits
      request
      (setup (codes "production"))
      none
      state).0
    ≡ reached delete_user (some claims)
unfolding serve setup has_prefix parse has_key get_text sign signed put_text fits get_claims
    put_claims read_list put_list get_option put_option is_revoked Routes.auth_routes
    Routes.check_guard run_guards Routes.user_routes verify check_blacklist middleware require_role
    erase insert lookup retain strip_prefix text_eq limited rate_limiter_with retry_after_header
    allow current sweep_locked verdict get_list is_running is_started put_times new_state
    new_memory_blacklist
deleted = refl

serve-guards_of_example :
    (run_guards token_lib config
      (some memory_blacklist)
      path_fits
      request
      (guards_of (codes "production") delete_user)
      none
      state).0
    ≡ pass (some claims)
serve-guards_of_example =
    serve-guards_of token_lib config (some memory_blacklist) path_fits request path_fits-IsFiber
      (codes "production") state delete_user (some claims) deleted

serve-delete_user_example :
    (c : Claims) × (some claims ≡ some c)
    × IsAdmitted token_lib config
        (some memory_blacklist)
        request.now
        request.authorization
        state.revoked
        c
    × (any (λ x. text_eq (codes "admin") x) c.roles ≡ true)
serve-delete_user_example =
    serve-delete_user token_lib config (some memory_blacklist) path_fits request path_fits-IsFiber
      (codes "production") state (some claims) deleted

-- A broker that cannot be dialled.
abbrev unreachable : Amqp (Unit {0}) ℕ ℕ
unreachable = record {
  dial = λ dsn w. (err (codes "refused"), w);
  is_closed = λ w c. true;
  open_channel = λ c w. (err (codes "closed"), w);
  close = λ c w. (none, w);
}

abbrev dial : Text → Option Text
dial addr = some (codes "timeout")

configured_dsn : codes "amqp://mq" ≢ []
configured_dsn h = cc

configured_brokers : trim is_space (codes "kafka:9092") ≢ []
unfolding trim
configured_brokers h = cc

check_misses_brokers_example :
    (check true (
      (codes "rabbitmq", (RabbitMq.health_check unreachable (codes "amqp://mq") tt).0)
      ∷ (codes "kafka", Kafka.health_check dial (codes "kafka:9092"))
      ∷ [])).http_code
    ≡ 200
check_misses_brokers_example =
    check_misses_brokers unreachable (codes "amqp://mq") (codes "refused") tt dial
      (codes "kafka:9092") (codes "timeout") configured_dsn refl configured_brokers refl

abbrev settings : Config
settings = record {
  env = codes "production";
  query_timeout = none;
  auto_migrate = false;
  redis_url = codes " ";
  jwt_expiry = none;
  refresh_expiry = none;
  bcrypt_cost = pos 4;
  probe_timeout = none;
  limit_backend = codes "redis";
  limit_max = pos 100;
  limit_window = some (pos 0);
  limit_prefix = codes "rl";
  trusted_proxies = codes "10.0.0.1, ,10.0.0.2";
}

abbrev outside : Outside
outside = record {
  config_loads = true;
  provider_ok = true;
  database_ok = true;
  pool_ok = true;
  migrates = true;
}

start-IsStarted_example : IsStarted settings outside (start settings outside)
start-IsStarted_example = start-IsStarted settings outside

abbrev options : AccessLogOptions
options = record { body_max_bytes = pos 64; capture_bodies = true }

abbrev incoming : AccessLog.Request
incoming = record {
  method = codes "GET";
  url = codes "/users";
  headers = headers (codes "Bearer a");
  content_type = [];
  body = [];
}

-- The handlers answer with the request's body and set a cookie.
abbrev answers : AccessLog.Request → Option (Journal ℕ) → Unit {0} × Response × Option (Journal ℕ)
answers req j = (
  tt,
  record {
    status = 200;
    headers = (codes "Set-Cookie", codes "sid=1") ∷ [];
    content_type = [];
    body = req.body;
    is_body_stream = false;
  },
  j,
)

access_log_alike_example :
    let (result, resp, l) = access_log options (codes "r-1") [] (codes "t-1") incoming answers in
    let (result', resp', l') =
      access_log options
        (codes "r-1")
        []
        (codes "t-1")
        (record incoming { headers = headers (codes "Bearer b") })
        answers in
    (l.request_headers ≡ l'.request_headers)
    × All IsMasked l.request_headers
    × All IsMasked l.response_headers
    × (map name l.request_headers ≡ map name incoming.headers)
    × (map name l.response_headers ≡ map name resp.headers)
access_log_alike_example =
    access_log_alike options (codes "r-1") [] (codes "t-1") answers incoming
      (headers (codes "Bearer b")) same_headers
