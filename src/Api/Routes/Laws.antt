-- ===== src/Api/Routes/Laws.antt =====
-- Which guards stand in front of each handler.
use wapgo.Base.{
  ◌≡◌, refl, Bool, true, Option, none, some, List, [], ◌∷◌, ◌++◌, arith, Bool-cases, inl, inr, ◌⊎◌,
}
use wapgo.Base.Text.{Text, codes}
use wapgo.Auth.Jwt.{Config, Claims, JwtLib}
use wapgo.Auth.Blacklist.{Blacklist}
use wapgo.Api.Routes.{
  Method, get, Endpoint, welcome, health, metrics, docs, login, refresh, logout, forgot_password,
  reset_password, list_users, get_user, create_user, update_user, delete_user, Guard, prod_guard,
  login_limiter, write_limiter, bearer, role, Layer, route, group, users, auth_routes, user_routes,
  setup, State, Outcome, reached, Step, pass, stop, Request, check_guard, run_guards, arrive, serve,
  refused, refused,
}

-- The guards of an endpoint, in order.
abbrev pub guards_of : Text → Endpoint → List Guard
guards_of app_env welcome = []
guards_of app_env health = []
guards_of app_env metrics = prod_guard app_env ∷ []
guards_of app_env docs = prod_guard app_env ∷ []
guards_of app_env login = login_limiter ∷ []
guards_of app_env refresh = login_limiter ∷ []
guards_of app_env logout = bearer ∷ []
guards_of app_env forgot_password = login_limiter ∷ []
guards_of app_env reset_password = login_limiter ∷ []
guards_of app_env list_users = bearer ∷ []
guards_of app_env get_user = bearer ∷ []
guards_of app_env create_user = bearer ∷ write_limiter ∷ []
guards_of app_env update_user = bearer ∷ write_limiter ∷ []
guards_of app_env delete_user = bearer ∷ write_limiter ∷ role (codes "admin") ∷ []

-- What Fiber documents of a group: its guards run for every path below its prefix.
pub record IsFiber (fits : Option Method → Text → Bool) : Type 0 where
  pub below :
      (m : Method) (prefix rest : Text)
      → fits (some m) (prefix ++ b'/' ∷ rest) ≡ true
      → fits none prefix ≡ true

-- Each layer is a route, whose guards are as `R` says.
abbrev AllRoutes : (Method → Text → List Guard → Endpoint → Type 0) → List Layer → Type 0
AllRoutes R [] = Unit
AllRoutes R (route m path gs e ∷ ls) = R m path gs e × AllRoutes R ls
AllRoutes R (group path gs ∷ ls) = ⊥

arrive-reached :
    {B : Type 0} (e e' : Endpoint) (c' : Option Claims) (out : Step × State B)
    → (arrive e out).0 ≡ reached e' c'
    → (e ≡ e') × (out.0 ≡ pass c')
arrive-reached e e' c' (pass c, s) h = ground arith
arrive-reached e e' c' (stop o, s) h = cc

module _ {B : Type 0} (lib : JwtLib) (cfg : Config) (bl : Option (Blacklist B))
    (fits : Option Method → Text → Bool) (req : Request) where
  -- A request that reaches an endpoint through routes has passed the guards of one of them.
  through :
      (R : Method → Text → List Guard → Endpoint → Type 0) (ls : List Layer) (c : Option Claims)
      (s : State B) (e : Endpoint) (c' : Option Claims)
      → AllRoutes R ls
      → (serve lib cfg bl fits req ls c s).0 ≡ reached e c'
      → (m : Method) × (path : Text) × (gs : List Guard) × (fits (some m) path ≡ true)
        × R m path gs e
        × ((run_guards lib cfg bl fits req gs c s).0 ≡ pass c')
  unfolding serve
  through R [] c s e c' h k = cc
  through R (route m path gs e ∷ ls) c s e' c' h k = elim (Bool-cases (fits (some m) path)) [
    | inl fit ↦
        let (same, passed) =
          arrive-reached e e' c' (run_guards lib cfg bl fits req gs c s) (rw fit at k) in
        (m, path, gs, fit, rw (← same) h.0, passed)
    | inr unfit ↦ through R ls c s e' c' h.1 (rw unfit at k)
  ]
  through R (group path gs ∷ ls) c s e c' h k = absurd h

  -- Routes before others.
  serve-append :
      (R : Method → Text → List Guard → Endpoint → Type 0) (ls ms : List Layer) (c : Option Claims)
      (s : State B) (e : Endpoint) (c' : Option Claims)
      → AllRoutes R ls
      → (serve lib cfg bl fits req (ls ++ ms) c s).0 ≡ reached e c'
      → ((serve lib cfg bl fits req ls c s).0 ≡ reached e c')
        ⊎ ((serve lib cfg bl fits req ms c s).0 ≡ reached e c')
  unfolding serve
  serve-append R [] ms c s e c' h k = inr k
  serve-append R (route m path gs e ∷ ls) ms c s e' c' h k =
      elim (Bool-cases (fits (some m) path)) [
        | inl fit ↦ inl (rw fit (rw fit at k))
        | inr unfit ↦ rw unfit (serve-append R ls ms c s e' c' h.1 (rw unfit at k))
      ]
  serve-append R (group path gs ∷ ls) ms c s e c' h k = absurd h

  run_guards-append :
      (gs hs : List Guard) (c c'' : Option Claims) (s s' : State B)
      → run_guards lib cfg bl fits req gs c s ≡ (pass c'', s')
      → run_guards lib cfg bl fits req (gs ++ hs) c s ≡ run_guards lib cfg bl fits req hs c'' s'
  unfolding run_guards
  run_guards-append [] hs c c'' s s' h = ground arith
  run_guards-append (g ∷ gs) hs c c'' s s' h =
      checked (check_guard lib cfg bl fits req g c s) (λ d t. run_guards-append gs hs d c'' t s') h
    where
      checked :
          (out : Step × State B)
          → ((d : Option Claims) (t : State B)
              → run_guards lib cfg bl fits req gs d t ≡ (pass c'', s')
              → run_guards lib cfg bl fits req (gs ++ hs) d t
                ≡ run_guards lib cfg bl fits req hs c'' s')
          → (elim out.0 as (λ _. Step × State B) [
            | stop o ↦ (stop o, out.1)
            | pass d ↦ run_guards lib cfg bl fits req gs d out.1
          ])
            ≡ (pass c'', s')
          → (elim out.0 as (λ _. Step × State B) [
            | stop o ↦ (stop o, out.1)
            | pass d ↦ run_guards lib cfg bl fits req (gs ++ hs) d out.1
          ])
            ≡ run_guards lib cfg bl fits req hs c'' s'
      checked (stop o, t) again k = cc
      checked (pass d, t) again k = again d t k

  serve-group :
      (path : Text) (gs : List Guard) (ls : List Layer) (c : Option Claims) (s : State B)
      (e : Endpoint) (c' : Option Claims)
      → fits none path ≡ true
      → (serve lib cfg bl fits req (group path gs ∷ ls) c s).0 ≡ reached e c'
      → (c'' : Option Claims) × (s' : State B) × (run_guards lib cfg bl fits req gs c s
          ≡ (pass c'', s'))
        × ((serve lib cfg bl fits req ls c'' s').0 ≡ reached e c')
  unfolding serve
  serve-group path gs ls c s e c' fit k =
      checked (run_guards lib cfg bl fits req gs c s) refl (rw (fit, serve) at k)
    where
      checked :
          (out : Step × State B)
          → run_guards lib cfg bl fits req gs c s ≡ out
          → (elim out.0 as (λ _. Outcome × State B) [
            | stop o ↦ (refused o, out.1)
            | pass d ↦ serve lib cfg bl fits req ls d out.1
          ]).0
            ≡ reached e c'
          → (c'' : Option Claims) × (s' : State B) × (run_guards lib cfg bl fits req gs c s
              ≡ (pass c'', s'))
            × ((serve lib cfg bl fits req ls c'' s').0 ≡ reached e c')
      checked (stop o, t) given k' = cc
      checked (pass d, t) given k' = (d, t, given, k')

  -- The routes before the group of the users, and those in it.
  abbrev Outside : Text → Method → Text → List Guard → Endpoint → Type 0
  Outside app_env m path gs e = gs ≡ guards_of app_env e

  abbrev Inside : Text → Method → Text → List Guard → Endpoint → Type 0
  Inside app_env m path gs e =
      (rest : Text) × (path ≡ users ++ b'/' ∷ rest) × (bearer ∷ gs ≡ guards_of app_env e)

  users_guarded : (app_env : Text) → AllRoutes (Inside app_env) user_routes
  unfolding user_routes
  users_guarded app_env = (
    (codes "", refl, refl),
    (
      (codes ":id", refl, refl),
      ((codes "", refl, refl), ((codes ":id", refl, refl), ((codes ":id", refl, refl), tt))),
    ),
  )

  auth_guarded : (app_env : Text) → AllRoutes (Outside app_env) auth_routes
  unfolding auth_routes
  auth_guarded app_env = (refl, (refl, (refl, (refl, (refl, tt)))))

  reached_under :
      (law : IsFiber fits) (app_env : Text) (s : State B) (e : Endpoint) (c : Option Claims)
      → (serve lib cfg bl fits req (group users (bearer ∷ []) ∷ user_routes) none s).0 ≡ reached e c
      → (run_guards lib cfg bl fits req (guards_of app_env e) none s).0 ≡ pass c
  unfolding serve
  reached_under law app_env s e c k = elim (Bool-cases (fits none users)) [
    | inl fit ↦
        let (c', s', started, k') = serve-group users (bearer ∷ []) user_routes none s e c fit k in
        let (m, path, gs, _, (rest, _, named), passed) =
          through (Inside app_env) user_routes c' s' e c (users_guarded app_env) k' in
        rw (← named) (rw (run_guards-append (bearer ∷ []) gs none c' s s' started) passed)
    | inr unfit ↦
        let (m, path, gs, fit, (rest, below, _), _) =
          through (Inside app_env) user_routes none s e c (users_guarded app_env)
            (rw (unfit, serve) at k) in
        absurd (cc (unfit, law.below m users rest (rw below at fit)))
  ]

  reached_before :
      (app_env : Text) (ls : List Layer) (s : State B) (e : Endpoint) (c : Option Claims)
      → AllRoutes (Outside app_env) ls
      → (serve lib cfg bl fits req ls none s).0 ≡ reached e c
      → (run_guards lib cfg bl fits req (guards_of app_env e) none s).0 ≡ pass c
  reached_before app_env ls s e c h k =
      let (m, path, gs, _, named, passed) = through (Outside app_env) ls none s e c h k in
      rw (← named) passed

  -- Every handler stands behind its guards: a request reaches a handler only if the handler's
  -- guards, in their order and from the same state, let it pass, with the claims that it reaches it
  -- with. Metrics and docs have the guard against production, the open session routes the limit on
  -- logins, logout the bearer middleware, the user routes the bearer middleware and, if they write,
  -- the limit on writes, and deleting a user also the role admin.
  pub serve-guards_of :
      (law : IsFiber fits) (app_env : Text) (s : State B) (e : Endpoint) (c : Option Claims)
      → (serve lib cfg bl fits req (setup app_env) none s).0 ≡ reached e c
      → (run_guards lib cfg bl fits req (guards_of app_env e) none s).0 ≡ pass c
  unfolding setup
  serve-guards_of law app_env s e c k =
      let top =
        route get (codes "/") [] welcome
        ∷ route get (codes "/health") [] health
        ∷ route get (codes "/metrics") (prod_guard app_env ∷ []) metrics
        ∷ route get (codes "/docs/*") (prod_guard app_env ∷ []) docs
        ∷ [] in
      let rest = group users (bearer ∷ []) ∷ user_routes in
      let top_guarded : AllRoutes (Outside app_env) top = (refl, (refl, (refl, (refl, tt)))) in
      elim (serve-append (Outside app_env) top (auth_routes ++ rest) none s e c top_guarded k) [
        | inl first ↦ reached_before app_env top s e c top_guarded first
        | inr later ↦
            elim (serve-append (Outside app_env) auth_routes rest none s e c (auth_guarded app_env)
              later) [
                | inl auth ↦ reached_before app_env auth_routes s e c (auth_guarded app_env) auth
                | inr user ↦ reached_under law app_env s e c user
              ]
      ]
