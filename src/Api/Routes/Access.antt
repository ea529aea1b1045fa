-- ===== src/Api/Routes/Access.antt =====
-- Who gets to the protected handlers.
use wapgo.Base.{
  ◌≡◌, ◌≢◌, refl, Bool, true, Option, none, some, List, [], ◌∷◌, any, sym, ◌∙◌, arith, inl, inr,
  ◌⊎◌,
}
use wapgo.Base.Text.{Text, codes, text_eq, text_eq_iff}
use wapgo.Auth.Jwt.{Config, Claims, JwtLib}
use wapgo.Auth.Blacklist.{Blacklist}
use wapgo.Auth.Middleware.{Verdict, unauthorized, forbidden, next, middleware, require_role}
use wapgo.Auth.Middleware.Laws.{IsAdmitted, middleware-IsAdmitted}
use wapgo.RateLimit.Http.{Decision, proceed, too_many_requests, limited}
use wapgo.Api.Routes.{
  Method, metrics, docs, delete_user, Guard, prod_guard, write_limiter, bearer, role, setup, State,
  reached, Step, pass, stop, Request, after_verdict, after_limit, check_guard, run_guards, serve,
}
use wapgo.Api.Routes.Laws.{IsFiber, serve-guards_of}

after_verdict-pass :
    (v : Verdict) (d : Option Claims)
    → after_verdict v ≡ pass d
    → (c : Claims) × (v ≡ next c) × (d ≡ some c)
after_verdict-pass unauthorized d h = cc
after_verdict-pass forbidden d h = cc
after_verdict-pass (next c) d h = (c, refl, ground arith)

after_limit-pass :
    (c : Option Claims) (v : Decision) (d : Option Claims) → after_limit c v ≡ pass d → c ≡ d
after_limit-pass c (proceed remaining) d h = ground arith
after_limit-pass c (too_many_requests remaining wait) d h = cc

any_only :
    (r : Text) (xs : List Text)
    → any (λ x. any (λ a. text_eq a x) (r ∷ [])) xs ≡ any (λ x. text_eq r x) xs
any_only r [] = refl
any_only r (x ∷ xs) = ground (arith, any_only r xs)

module _ {B : Type 0} (lib : JwtLib) (cfg : Config) (bl : Option (Blacklist B))
    (fits : Option Method → Text → Bool) (req : Request) where
  first_guard :
      (g : Guard) (gs : List Guard) (c c' : Option Claims) (s : State B)
      → (run_guards lib cfg bl fits req (g ∷ gs) c s).0 ≡ pass c'
      → (d : Option Claims) × (t : State B) × ((check_guard lib cfg bl fits req g c s).0 ≡ pass d)
        × ((run_guards lib cfg bl fits req gs d t).0 ≡ pass c')
  unfolding run_guards
  first_guard g gs c c' s h = checked (check_guard lib cfg bl fits req g c s) refl h
    where
      checked :
          (out : Step × State B)
          → check_guard lib cfg bl fits req g c s ≡ out
          → (elim out.0 as (λ _. Step × State B) [
            | stop o ↦ (stop o, out.1)
            | pass d ↦ run_guards lib cfg bl fits req gs d out.1
          ]).0
            ≡ pass c'
          → (d : Option Claims) × (t : State B) × ((check_guard lib cfg bl fits req g c s).0
              ≡ pass d)
            × ((run_guards lib cfg bl fits req gs d t).0 ≡ pass c')
      checked (stop o, t) given k = cc
      checked (pass d, t) given k = (d, t, rw given, k)

  no_guard :
      (c c' : Option Claims) (s : State B)
      → (run_guards lib cfg bl fits req [] c s).0 ≡ pass c'
      → c ≡ c'
  unfolding run_guards
  no_guard c c' s h = ground arith

  bearer-pass :
      (c d : Option Claims) (s : State B)
      → (check_guard lib cfg bl fits req bearer c s).0 ≡ pass d
      → (claims : Claims) × (d ≡ some claims)
        × IsAdmitted lib cfg bl req.now req.authorization s.revoked claims
  unfolding check_guard
  bearer-pass c d s h =
      let (claims, v, e) =
        after_verdict-pass (middleware lib cfg bl req.now req.authorization s.revoked).0 d h in
      (claims, e, middleware-IsAdmitted lib cfg bl req.now req.authorization s.revoked claims v)

  write_limiter-pass :
      (c d : Option Claims) (s : State B)
      → (check_guard lib cfg bl fits req write_limiter c s).0 ≡ pass d
      → c ≡ d
  unfolding check_guard
  write_limiter-pass c d s h = after_limit-pass c (limited req.now req.ip s.writes).0 d h

  require_role-next :
      (r : Text) (claims c : Claims)
      → require_role (r ∷ []) (some claims) ≡ next c
      → (any (λ x. text_eq r x) claims.roles ≡ true) × (claims ≡ c)
  unfolding require_role
  require_role-next r claims c h = ground (arith, any_only r claims.roles)

  role-pass :
      (r : Text) (claims : Claims) (d : Option Claims) (s : State B)
      → (check_guard lib cfg bl fits req (role r) (some claims) s).0 ≡ pass d
      → (any (λ x. text_eq r x) claims.roles ≡ true) × (d ≡ some claims)
  unfolding check_guard
  role-pass r claims d s h =
      let (c, v, e) = after_verdict-pass (require_role (r ∷ []) (some claims)) d h in
      let (has, same) = require_role-next r claims c v in (has, rw same e)

  -- Only an administrator deletes a user: if a request reaches the handler of `DELETE
  -- /api/v1/users/:id`, its bearer token verified, is no refresh token and is not reported as
  -- revoked, and its roles include `admin`; the handler gets the claims of just that token.
  pub serve-delete_user :
      (law : IsFiber fits) (app_env : Text) (s : State B) (c : Option Claims)
      → (serve lib cfg bl fits req (setup app_env) none s).0 ≡ reached delete_user c
      → (claims : Claims) × (c ≡ some claims)
        × IsAdmitted lib cfg bl req.now req.authorization s.revoked claims
        × (any (λ x. text_eq (codes "admin") x) claims.roles ≡ true)
  serve-delete_user law app_env s c k =
      let passed = serve-guards_of lib cfg bl fits req law app_env s delete_user c k in
      let (d, t, first, more) =
        first_guard bearer (write_limiter ∷ role (codes "admin") ∷ []) none c s passed in
      let (d', t', second, last) =
        first_guard write_limiter (role (codes "admin") ∷ []) d c t more in
      let (d'', t'', third, done) = first_guard (role (codes "admin")) [] d' c t' last in
      let (claims, e, admitted) = bearer-pass none d s first in
      let same : d' ≡ some claims = sym (write_limiter-pass d d' t second) ∙ e in
      let (has, e'') = role-pass (codes "admin") claims d'' t' (rw same at third) in
      (claims, sym (no_guard d'' c t'' done) ∙ e'', admitted, has)

  prod_guard-pass :
      (app_env : Text) (c d : Option Claims) (s : State B)
      → (run_guards lib cfg bl fits req (prod_guard app_env ∷ []) c s).0 ≡ pass d
      → app_env ≢ codes "production"
  unfolding run_guards check_guard
  prod_guard-pass app_env c d s h same =
      ground (arith, (text_eq_iff app_env (codes "production")).1 same)

  -- In production there are no metrics and no API documents: a request that reaches either runs in
  -- another environment.
  pub serve_hidden :
      (law : IsFiber fits) (app_env : Text) (s : State B) (c : Option Claims)
      → ((serve lib cfg bl fits req (setup app_env) none s).0 ≡ reached metrics c)
        ⊎ ((serve lib cfg bl fits req (setup app_env) none s).0 ≡ reached docs c)
      → app_env ≢ codes "production"
  serve_hidden law app_env s c (inl shown) =
      prod_guard-pass app_env none c s
        (serve-guards_of lib cfg bl fits req law app_env s metrics c shown)
  serve_hidden law app_env s c (inr shown) =
      prod_guard-pass app_env none c s
        (serve-guards_of lib cfg bl fits req law app_env s docs c shown)
