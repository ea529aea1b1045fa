-- ===== src/Lib.antt =====
-- Verification library of wapgo, a Go service template with users, sessions and their stores.
--
-- The program has an HTTP layer (internal/delivery/http), use cases (internal/usecase) over
-- interfaces (internal/domain/repository), their implementations (internal/repository, pkg/auth,
-- pkg/ratelimit), and small packages that the handlers share (pkg/pagination, pkg/response). A
-- handler parses and validates, calls one use case and maps its error to an answer; a use case
-- calls the repository, the cache and the blacklist; the middleware checks bearer tokens against
-- the same blacklist before any protected handler runs.
--
-- Base and its children hold what the others share: texts as lists of code points, association
-- lists for Go maps, Go errors with wrapping (`errors.Is` looks through `%w`), results, signed
-- integers.
--
-- * Cache.Memory is internal/repository/memory/cache.go (`Set`, `Get`, `Del`, `Exists`,
--   `sweepLocked`), with the refinement in Refinement and an interleaving in Race; Cache.Interface
--   is the interface Cacher with the contract of an implementation that does not fail.
-- * RateLimit.Memory is pkg/ratelimit/memory.go (`NewMemory`, `Allow`, `sweepLocked`),
--   RateLimit.Redis is redis.go.
-- * Auth is pkg/auth: Jwt is jwt.go and claims.go, MemoryBlacklist and Blacklist are
--   memory_blacklist.go and the interface of blacklist.go, Middleware is middleware.go,
--   RedisBlacklist the rest of blacklist.go.
-- * AuthUseCase is internal/usecase/auth_usecase.go; Operations holds its five methods, the other
--   children the proofs.
-- * Users is the user feature: Entity (internal/domain/entity/user.go), Repository
--   (internal/repository/db/user_repository.go and its interface), UseCase
--   (internal/usecase/user_usecase.go), Handler (internal/delivery/http/handler/user_handler.go).
-- * AuthHandler is internal/delivery/http/handler/auth_handler.go, RateLimit.Http is
--   internal/delivery/http/middleware/ratelimit.go.
-- * HttpClient is pkg/httpclient: Retry is the retrying transport and Ssrf the guard of
--   middleware.go and ssrf_dial.go, whose loop is bounded by the configured retries; Client is
--   base_client.go and user_client.go.
-- * Messaging is pkg/messaging: Kafka is `Start` of kafka/consumer.go and its probe in Health,
--   Backoff the wait of both consumers; RabbitMq is rabbitmq/consumer.go, with `drain` and `handle`
--   in the module itself, `declareExchanges` and `declareQueues` in Topology, `Subscribe` in
--   Subscribe, connection.go in Connection and publisher.go in Publisher.
-- * Cache.Redis is internal/repository/redis/cache.go; AuthUseCase.RedisDown runs the session use
--   cases over it.
-- * Journal is pkg/journal: Redact is redact.go, Record is journal.go, with `AddThirdParty` in two
--   steps in Record.Interleaved.
-- * Crypto is pkg/crypto/crypto.go. Notification is pkg/notification: Email is email/email.go,
--   Firebase is firebase/firebase.go.
-- * Migrate is cmd/migrate/main.go: `run` and what it calls, and `buildDSN` and `newMigrator` in
--   Connect.
-- * Cli is the command line tool: Upgrade is cli/commands/upgrade.go with its pattern as a Regex,
--   Names is cli/generator/names.go, Columns is entity_parser.go, GoMod the reading of go.mod in
--   generator.go.
-- * Pagination is pkg/pagination/pagination.go, Response is pkg/response/response.go.
-- * Api is the API process: Routes is internal/delivery/http/route, with what stands in front of
--   each handler in Routes.Laws and Routes.Access, Health is
--   internal/delivery/http/handler/health_handler.go, AccessLog is access_log.go with the request
--   id and the body limit of internal/delivery/http/middleware, Server is what cmd/api/main.go
--   decides.
-- * Database.Timeout is pkg/database/timeout.go.
-- * Tests runs the definitions on a small concrete service.
--
-- State is passed explicitly: every operation takes the state that it may change and returns its
-- result with the new state. Times and durations are natural numbers of nanoseconds, and an
-- operation takes the reading of the clock at which it runs. The mutexes of the in-process stores
-- make each call one atomic step, so a concurrent history is a list of calls in some order; the
-- exceptions are `Get` and `Exists` of the cacher, whose two locked steps Cache.Memory.Race takes
-- apart. A call of a use case is one step too: calls that overlap, such as two refreshes with one
-- token that both read the session before either deletes it, are not modelled. Random identifiers
-- are arguments. Go maps are association lists without duplicate keys.
--
-- Parameters stand for the code of other packages, with the behaviour that the program relies on as
-- named laws: golang-jwt (IsJwtLib), GORM over a reachable database (IsGorm), a cache and a
-- blacklist that do not fail (IsCache, IsBlacklist; both are filled by the in-process
-- implementations), the Redis client (IsClient, IsCommands), bcrypt and the uuid package as
-- functions, the resolver and the dialer, the matching of Fiber (IsFiber), the commands of Redis
-- and of amqp with their failures, an AEAD with base64 (IsAead), golang-migrate (CanForce,
-- IsMigrator), and the answers of servers: of the HTTP transport, the SMTP dialogue, the token
-- endpoint and FCM. Tests instantiates those that the results below rest on. No definition runs on
-- fuel: a loop that waits for the outside, such as `Subscribe`, takes the list of what happens in
-- its rounds.
--
-- Not modelled: the JSON and HTTP framework, logging, tracing and metrics, the Kafka producer, the
-- circuit breaker, the commands of the tool that fill templates and write files, the reading of the
-- configuration, and the opening and closing of connections in the entry points.
pub mod Api
pub mod Auth
pub mod AuthHandler
pub mod AuthUseCase
pub mod Base
pub mod Cache
pub mod Cli
pub mod Crypto
pub mod Database
pub mod HttpClient
pub mod Journal
pub mod Messaging
pub mod Migrate
pub mod Notification
pub mod Pagination
pub mod RateLimit
pub mod Redis
pub mod Response
pub mod Tests
pub mod Users
