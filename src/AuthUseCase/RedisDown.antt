-- ===== src/AuthUseCase/RedisDown.antt =====
-- The session use cases over the Redis cacher (as cmd/api/main.go wires them) while its server
-- fails: `Get` of internal/repository/redis/cache.go reports a failure as a miss.
use wapgo.Base.{ℕ, ◌/◌, ◌≡◌, none, some, refl, true, [], ◌∷◌, ◌∙◌, ap, ok, err, arith}
use wapgo.Base.Int.{ℤ, pos}
use wapgo.Base.Text.{Text, codes, text_eq}
use wapgo.Base.Errors.{GoError, sentinel, cache_miss, errors_is}
use wapgo.Cache.Memory.{prefixed}
use wapgo.Cache.Interface.{CacheOps}
use wapgo.Cache.Redis.{found, failed, Commands, set, fetch, redis_cache}
use wapgo.Auth.Jwt as Jwt
use wapgo.Auth.Jwt.{Claims, sign, verify}
use wapgo.Users.Entity.{User}
use wapgo.AuthUseCase.{
  AuthUseCase, World, Draws, Doc, RefreshSession, session_doc, version_of, invalid, lookup_error,
  second, store_session, issue_token_pair,
}
use wapgo.AuthUseCase.Keys.{refresh_key, version_key}
use wapgo.AuthUseCase.Operations.{refresh, rotate, reissue, with_cache}

-- A miss is shown to the caller as an invalid token.
miss_shown : lookup_error (codes "refresh session lookup") (sentinel cache_miss) ≡ invalid
unfolding errors_is
miss_shown = refl

module _ {S D : Type 0} (commands : Commands S D) (ns : Text) (now : ℕ) (key : Text) (s : S) where
  fetch_failed :
      (e : Text)
      → (commands.get now (prefixed ns key) s).0 ≡ failed e
      → (redis_cache commands ns).fetch now key s
        ≡ (err (sentinel cache_miss), (commands.get now (prefixed ns key) s).1)
  unfolding redis_cache fetch
  fetch_failed e h = ground arith

  fetch_found :
      (d : D)
      → (commands.get now (prefixed ns key) s).0 ≡ found d
      → (redis_cache commands ns).fetch now key s ≡ (ok d, (commands.get now (prefixed ns key) s).1)
  unfolding redis_cache fetch
  fetch_found d h = ground arith

module _ {U S B : Type 0} (a : AuthUseCase U S B) (now : ℕ) (draws : Draws) (token : Text)
    (w : World U S B) (claims : Claims) where
  refresh_miss :
      (s : S)
      → verify a.jwt now token a.refresh_cfg ≡ ok claims
      → a.cacher.fetch now (refresh_key claims.id) w.cache ≡ (err (sentinel cache_miss), s)
      → refresh a now draws token w ≡ (err invalid, record w { cache = s })
  unfolding refresh
  refresh_miss s verified missed = ground (arith, miss_shown)

  refresh_found :
      (session : RefreshSession) (s : S)
      → verify a.jwt now token a.refresh_cfg ≡ ok claims
      → a.cacher.fetch now (refresh_key claims.id) w.cache ≡ (ok (session_doc session), s)
      → refresh a now draws token w ≡ with_cache w (rotate a now draws claims session w.users s)
  unfolding refresh
  refresh_found session s verified there =
      let state : (a.cacher.fetch now (refresh_key claims.id) w.cache).1 ≡ s = rw there in
      rw (verified, there, refresh)
        (ap (λ (t : S). with_cache w (rotate a now draws claims session w.users t)) state)

  rotate_unversioned :
      (session : RefreshSession) (s s' : S) (e : GoError)
      → text_eq session.subject claims.subject ≡ true
      → a.cacher.fetch now (version_key claims.subject) s ≡ (err e, s')
      → rotate a now draws claims session w.users s
        ≡ reissue a now draws claims.subject w.users
            (a.cacher.del (refresh_key claims.id ∷ []) s').1
  unfolding rotate version_of
  rotate_unversioned session s s' e own unknown = ground arith

  module _ (commands : Commands S Doc) (ns : Text) (wired : a.cacher ≡ redis_cache commands ns)
      (verified : verify a.jwt now token a.refresh_cfg ≡ ok claims) where
    fetched :
        (key : Text) (s : S) → a.cacher.fetch now key s ≡ (redis_cache commands ns).fetch now key s
    fetched key s = ap (λ (ops : CacheOps S Doc). ops.fetch now key s) wired

    -- A failing server closes sessions: if the lookup of a session fails, a refresh with its token
    -- is refused as invalid, as if the session did not exist, and the user's data are not touched.
    pub refresh_down :
        (e : Text)
        → (commands.get now (prefixed ns (refresh_key claims.id)) w.cache).0 ≡ failed e
        → refresh a now draws token w ≡ (
          err invalid,
          record w { cache = (commands.get now (prefixed ns (refresh_key claims.id)) w.cache).1 },
        )
    refresh_down e down = refresh_miss _ verified (
        fetched (refresh_key claims.id) w.cache
        ∙ fetch_failed commands ns now (refresh_key claims.id) w.cache e down)

    refresh_unversioned :
        (session : RefreshSession) (e : Text)
        → (commands.get now (prefixed ns (refresh_key claims.id)) w.cache).0
          ≡ found (session_doc session)
        → text_eq session.subject claims.subject ≡ true
        → (commands.get now
            (prefixed ns (version_key claims.subject))
            (commands.get now (prefixed ns (refresh_key claims.id)) w.cache).1).0
          ≡ failed e
        → (s : S) × (refresh a now draws token w
            ≡ with_cache w (reissue a now draws claims.subject w.users s))
    refresh_unversioned session e there own down =
        let s = (commands.get now (prefixed ns (refresh_key claims.id)) w.cache).1 in
        (
          _,
          refresh_found session s verified (
                fetched (refresh_key claims.id) w.cache
                ∙ fetch_found commands ns now (refresh_key claims.id) w.cache (session_doc session)
                    there)
              ∙ ap (with_cache w) (
                  rotate_unversioned session s _ (sentinel cache_miss) own (
                    fetched (version_key claims.subject) s
                    ∙ fetch_failed commands ns now (version_key claims.subject) s e down)),
        )

    stores :
        (key : Text) (d : Doc) (ttl : ℤ) (s : S)
        → (commands.set now (prefixed ns key) d ttl s).0 ≡ none
        → (a.cacher.set now key d ttl s).0 ≡ ok tt
    unfolding redis_cache set
    stores key d ttl s done =
        ap (λ (ops : CacheOps S Doc). (ops.set now key d ttl s).0) wired ∙ rw done

    reissued :
        (subject at rt : Text) (user : User) (s : S)
        → ((key : Text) (d : Doc) (ttl : ℤ) (s' : S) → (commands.set now key d ttl s').0 ≡ none)
        → a.parse_uuid subject ≡ some user.id
        → a.user_repo.find_by_id user.id w.users ≡ ok user
        → sign a.jwt now draws.access_jti subject [] Jwt.access a.jwt_cfg
          ≡ ok (at, draws.access_jti)
        → sign a.jwt now draws.refresh_jti subject [] Jwt.refresh a.refresh_cfg
          ≡ ok (rt, draws.refresh_jti)
        → (reissue a now draws subject w.users s).0
          ≡ ok (record {
            access_token = at;
            refresh_token = rt;
            expires_in = a.jwt_cfg.expiry / second;
          })
    unfolding reissue issue_token_pair store_session
    reissued subject at rt user s writes parsed known signed made =
        let (version, c) = version_of a now subject s in
        let doc = session_doc (record { subject = subject; version = version }) in
        let key = refresh_key draws.refresh_jti in
        ground (
          arith,
          stores key doc (pos a.refresh_cfg.expiry) c
              (writes (prefixed ns key) doc (pos a.refresh_cfg.expiry) c),
        )

    -- A failure of the server between two lookups opens sessions that a password reset has closed:
    -- if the session is found, of whatever version, and is the subject's, and then the lookup of
    -- the user's version fails, the refresh succeeds, with new tokens, where the user is still
    -- there, both tokens can be signed and the new session can be stored.
    pub refresh_skips_version :
        (session : RefreshSession) (e at rt : Text) (user : User)
        → (commands.get now (prefixed ns (refresh_key claims.id)) w.cache).0
          ≡ found (session_doc session)
        → text_eq session.subject claims.subject ≡ true
        → (commands.get now
            (prefixed ns (version_key claims.subject))
            (commands.get now (prefixed ns (refresh_key claims.id)) w.cache).1).0
          ≡ failed e
        → ((key : Text) (d : Doc) (ttl : ℤ) (s : S) → (commands.set now key d ttl s).0 ≡ none)
        → a.parse_uuid claims.subject ≡ some user.id
        → a.user_repo.find_by_id user.id w.users ≡ ok user
        → sign a.jwt now draws.access_jti claims.subject [] Jwt.access a.jwt_cfg
          ≡ ok (at, draws.access_jti)
        → sign a.jwt now draws.refresh_jti claims.subject [] Jwt.refresh a.refresh_cfg
          ≡ ok (rt, draws.refresh_jti)
        → (refresh a now draws token w).0
          ≡ ok (record {
            access_token = at;
            refresh_token = rt;
            expires_in = a.jwt_cfg.expiry / second;
          })
    refresh_skips_version session e at rt user there own down writes parsed known signed made =
        let (s, gone_on) = refresh_unversioned session e there own down in
        ap (λ y. y.0) gone_on ∙ reissued claims.subject at rt user s writes parsed known signed made
