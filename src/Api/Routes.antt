-- ===== src/Api/Routes.antt =====
-- internal/delivery/http/route: the table that router.go, auth_route.go and user_route.go register,
-- with the guards in front of each handler. Fiber runs what fits a request in the order of
-- registration; whether a pattern fits is the argument `fits`. A handler of the table answers and
-- passes nothing on.
pub mod Laws
pub mod Access
use wapgo.Base.{ℕ, Bool, true, false, Option, none, some, List, [], ◌∷◌, ◌++◌, if◌then◌else◌}
use wapgo.Base.Int.{pos}
use wapgo.Base.Text.{Text, codes, text_eq}
use wapgo.Auth.Jwt.{Config, Claims, JwtLib}
use wapgo.Auth.Blacklist.{Blacklist}
use wapgo.Auth.Middleware.{Verdict, unauthorized, forbidden, next, middleware, require_role}
use wapgo.RateLimit.Memory.{MemoryLimiter, minute, new_memory}
use wapgo.RateLimit.Http.{Decision, proceed, too_many_requests, limited}

pub data Method : Type 0 where
  get post put delete : Method

pub data Endpoint : Type 0 where
  welcome health metrics docs : Endpoint
  login refresh logout forgot_password reset_password : Endpoint
  list_users get_user create_user update_user delete_user : Endpoint

-- The handlers that may stop a request: `prodGuard`, the two limiters, `auth.Middleware` and
-- `auth.RequireRole`.
pub data Guard : Type 0 where
  prod_guard : Text → Guard
  login_limiter write_limiter bearer : Guard
  role : Text → Guard

-- A route, or a group with guards of its own, which Fiber runs for every path below its prefix.
pub data Layer : Type 0 where
  route : Method → Text → List Guard → Endpoint → Layer
  group : Text → List Guard → Layer

abbrev pub v1 : Text
v1 = codes "/api/v1"

abbrev pub users : Text
users = codes "/api/v1/users"

unfoldable pub auth_routes : List Layer
auth_routes =
    route post (v1 ++ codes "/auth/login") (login_limiter ∷ []) login
    ∷ route post (v1 ++ codes "/auth/refresh") (login_limiter ∷ []) refresh
    ∷ route post (v1 ++ codes "/auth/logout") (bearer ∷ []) logout
    ∷ route post (v1 ++ codes "/auth/forgot-password") (login_limiter ∷ []) forgot_password
    ∷ route post (v1 ++ codes "/auth/reset-password") (login_limiter ∷ []) reset_password
    ∷ []

unfoldable pub user_routes : List Layer
user_routes =
    route get (users ++ codes "/") [] list_users
    ∷ route get (users ++ codes "/:id") [] get_user
    ∷ route post (users ++ codes "/") (write_limiter ∷ []) create_user
    ∷ route put (users ++ codes "/:id") (write_limiter ∷ []) update_user
    ∷ route delete (users ++ codes "/:id") (write_limiter ∷ role (codes "admin") ∷ []) delete_user
    ∷ []

-- `Setup`
unfoldable pub setup : Text → List Layer
unfolding auth_routes user_routes
setup app_env =
    route get (codes "/") [] welcome
      ∷ route get (codes "/health") [] health
      ∷ route get (codes "/metrics") (prod_guard app_env ∷ []) metrics
      ∷ route get (codes "/docs/*") (prod_guard app_env ∷ []) docs
      ∷ auth_routes
    ++ group users (bearer ∷ []) ∷ user_routes

-- The limiters of the two groups, and the blacklist.
pub record State (B : Type 0) : Type 0 where
  pub logins : MemoryLimiter
  pub writes : MemoryLimiter
  pub revoked : B

unfoldable pub new_state : {B : Type 0} → B → State B
unfolding new_memory
new_state revoked = record {
  logins = new_memory (pos 10) (pos minute);
  writes = new_memory (pos 20) (pos minute);
  revoked = revoked;
}

pub data Refusal : Type 0 where
  not_found unauthenticated forbidden_role too_many : Refusal

-- How a request ends: at a handler, with the claims that the guards stored, or refused.
pub data Outcome : Type 0 where
  reached : Endpoint → Option Claims → Outcome
  refused : Refusal → Outcome

pub data Step : Type 0 where
  pass : Option Claims → Step
  stop : Refusal → Step

abbrev pub after_verdict : Verdict → Step
after_verdict unauthorized = stop unauthenticated
after_verdict forbidden = stop forbidden_role
after_verdict (next claims) = pass (some claims)

abbrev pub after_limit : Option Claims → Decision → Step
after_limit c (proceed remaining) = pass c
after_limit c (too_many_requests remaining wait) = stop too_many

pub record Request : Type 0 where
  pub now : ℕ
  pub ip : Text
  pub authorization : Text

abbrev pub arrive : {B : Type 0} → Endpoint → Step × State B → Outcome × State B
arrive e (pass c, s) = (reached e c, s)
arrive e (stop o, s) = (refused o, s)

module _ {B : Type 0} (lib : JwtLib) (cfg : Config) (bl : Option (Blacklist B))
    (fits : Option Method → Text → Bool) (req : Request) where
  unfoldable pub check_guard : Guard → Option Claims → State B → Step × State B
  unfolding limited middleware require_role text_eq
  check_guard (prod_guard app_env) c s =
      (if text_eq app_env (codes "production") then stop not_found else pass c, s)
  check_guard login_limiter c s =
      let (d, l) = limited req.now req.ip s.logins in (after_limit c d, record s { logins = l })
  check_guard write_limiter c s =
      let (d, l) = limited req.now req.ip s.writes in (after_limit c d, record s { writes = l })
  check_guard bearer c s =
      let (v, b) = middleware lib cfg bl req.now req.authorization s.revoked in
      (after_verdict v, record s { revoked = b })
  check_guard (role r) c s = (after_verdict (require_role (r ∷ []) c), s)

  unfoldable pub run_guards : List Guard → Option Claims → State B → Step × State B
  unfolding check_guard
  run_guards [] c s = (pass c, s)
  run_guards (g ∷ gs) c s =
      let (step, s') = check_guard g c s in
      elim step [ stop o ↦ (stop o, s') | pass c' ↦ run_guards gs c' s' ]

  -- The request through the layers that fit it.
  unfoldable pub serve : List Layer → Option Claims → State B → Outcome × State B
  unfolding run_guards
  serve [] c s = (refused not_found, s)
  serve (route m path gs e ∷ ls) c s =
      let others = serve ls c s in
      if fits (some m) path then arrive e (run_guards gs c s) else others
  serve (group path gs ∷ ls) c s = elim (fits none path) [
    | false ↦ serve ls c s
    | true ↦
        let (step, s') = run_guards gs c s in
        elim step [ stop o ↦ (refused o, s') | pass c' ↦ serve ls c' s' ]
  ]
