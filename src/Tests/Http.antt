-- ===== src/Tests/Http.antt =====
-- The session handlers and the rate limit seen by a client.
use wapgo.Base.Text.{text_eq}
use wapgo.Users.Repository.{new_user_repository}
use wapgo.Users.Repository.Contract.{find_live}
use wapgo.Base.{
  ◌+◌, ◌*◌, ◌<◌, ◌≤◌, ◌%◌, ◌==◌, ◌||◌, ◌≡◌, leb, refl, none, some, ok, err, arith, ◌⊎◌,
}
use wapgo.Base.Int.{pos}
use wapgo.Base.Text.{codes}
use wapgo.Base.Errors.{GoError, sentinel, record_not_found}
use wapgo.Base.Dict.{IsUnique}
use wapgo.AuthUseCase.{text_doc, reset_ttl}
use wapgo.AuthUseCase.Keys.{reset_key}
use wapgo.AuthHandler.{Validators, ForgotPasswordRequest, production, forgot_password}
use wapgo.AuthHandler.Laws.{forgot_password_alike}
use wapgo.Response.{status}
use wapgo.RateLimit.Memory.{MemoryLimiter, new_memory, allow}
use wapgo.RateLimit.Http.{too_many_requests, limited, second}
use wapgo.RateLimit.Http.Laws.{passes, limited_after_header}
use wapgo.Tests.Service.{service, world, ann}

abbrev lenient : Validators
lenient = record {
  login = λ r. none;
  refresh = λ r. none;
  forgot_password = λ r. none;
  reset_password = λ r. none;
}

abbrev known : ForgotPasswordRequest
known = record { email = codes "ann@x.io" }

abbrev unknown : ForgotPasswordRequest
unknown = record { email = codes "bob@x.io" }

forgot_password_alike_example :
    let stored =
      (service.cacher.set 0
        (reset_key (codes "t"))
        (text_doc ann.email)
        (pos reset_ttl)
        world.cache).0 in
    let first = (forgot_password service lenient production 0 (codes "t") (some known) world).0 in
    let other = (forgot_password service lenient production 0 (codes "u") (some unknown) world).0 in
    (status other ≡ 200)
    × (((stored ≡ ok tt) × (first ≡ other))
        ⊎ ((x : GoError) × (stored ≡ err x) × (status first ≡ 500)))
unfolding new_user_repository find_live
forgot_password_alike_example =
    forgot_password_alike service lenient 0 (codes "t") (codes "u") known unknown world ann
      (sentinel record_not_found) refl refl refl refl refl

-- One request per 2.5 seconds, and one was just made.
abbrev spent : MemoryLimiter
spent = (allow 0 (codes "x") (new_memory (pos 1) (pos 2500000000))).1

spent-IsUnique : IsUnique spent.m
unfolding allow new_memory
spent-IsUnique = (refl, tt)

spent_max : 0 < spent.max
unfolding allow new_memory
spent_max = omega arith

spent_window : 0 < spent.window
unfolding allow new_memory
spent_window = omega arith

rejected : (limited 0 (codes "x") spent).0 ≡ too_many_requests 0 2
unfolding limited new_memory text_eq
rejected = refl

short : (allow 0 (codes "x") spent).0.retry_after < 7_776_000 * second
unfolding allow new_memory text_eq
short = omega arith

limited_after_header_example :
    let wait = (allow 0 (codes "x") spent).0.retry_after in
    (1 ≤ 2)
    × (passes (limited (0 + 2 * second) (codes "x") (limited 0 (codes "x") spent).1).0
        ≡ (leb wait second || wait % second == 0))
limited_after_header_example =
    limited_after_header spent 0 (codes "x") 0 2 spent-IsUnique spent_max spent_window rejected
      short
