-- ===== src/AuthUseCase/Rotation.antt =====
-- `Refresh` of internal/usecase/auth_usecase.go, and the rotation of a session.
use wapgo.Base.{
  ℕ, ◌≤◌, ◌≡◌, ◌≢◌, refl, sym, ap, ◌∙◌, false, none, some, [], ◌∷◌, ltb, ok, err, if◌then◌else◌,
  arith, Result-cases, Option-cases, inl, inr,
}
use wapgo.Base.Text.{Text, text_eq, text_eq_iff, text_eq_refl, text_ne}
use wapgo.Base.Errors.{errors_is}
use wapgo.Cache.Interface.{IsCache}
use wapgo.Auth.Jwt.{Claims, verify}
use wapgo.Auth.Jwt.Laws.{IsJwtLib, verify_same}
use wapgo.AuthUseCase.{
  AuthUseCase, World, Draws, LoginResponse, RefreshSession, Doc, session_doc, text_doc, number_doc,
  invalid, version_of,
}
use wapgo.AuthUseCase.Keys.{refresh_key, version_key, refresh_key_eq}
use wapgo.AuthUseCase.Operations.{refresh, rotate, reissue, del_key, with_cache}
use wapgo.AuthUseCase.Sessions.{version_at, version_of-eq, version_of_fit, peek-issue_token_pair}

module _ {U C B : Type 0} (a : AuthUseCase U C B) (cache : IsCache a.cacher) where
  -- The cache after the lookup of a session.
  abbrev pub looked_up : ℕ → Claims → C → C
  looked_up now claims c = (a.cacher.fetch now (refresh_key claims.id) c).1

  -- A token that does not verify, or whose session is gone, is refused.
  pub refresh_refused :
      (now : ℕ) (draws : Draws) (token : Text) (w : World U C B)
      → ((claims : Claims)
          → verify a.jwt now token a.refresh_cfg ≡ ok claims
          → cache.peek now w.cache (refresh_key claims.id) ≡ none)
      → (refresh a now draws token w).0 ≡ err invalid
  unfolding refresh errors_is
  refresh_refused now draws token w gone =
      elim (Result-cases (verify a.jwt now token a.refresh_cfg)) [
        | inr (e, bad) ↦ ground arith
        | inl (claims, good) ↦
            ground (arith, gone claims good, cache.fetched now (refresh_key claims.id) w.cache)
      ]

  pub refresh_found :
      (now : ℕ) (draws : Draws) (token : Text) (w : World U C B) (claims : Claims)
      (session : RefreshSession)
      → verify a.jwt now token a.refresh_cfg ≡ ok claims
      → cache.peek now w.cache (refresh_key claims.id) ≡ some (session_doc session)
      → refresh a now draws token w
        ≡ with_cache w (rotate a now draws claims session w.users (looked_up now claims w.cache))
  unfolding refresh
  refresh_found now draws token w claims session good there =
      ground (arith, cache.fetched now (refresh_key claims.id) w.cache)

  peek-del_key :
      (t : ℕ) (key j : Text) (c : C)
      → cache.peek t (del_key a key c) j ≡ (if text_eq key j then none else cache.peek t c j)
  peek-del_key t key j c = ground (arith, cache.peek_del t (key ∷ []) j c)

  -- Reissuing touches no session but the new one.
  peek-reissue :
      (now t : ℕ) (draws : Draws) (subject jti : Text) (users : U) (c : C)
      → cache.IsFit c
      → now ≤ t
      → draws.refresh_jti ≢ jti
      → cache.peek t (reissue a now draws subject users c).1 (refresh_key jti)
        ≡ cache.peek t c (refresh_key jti)
  unfolding reissue
  peek-reissue now t draws subject jti users c f h ne = ground (
    arith,
    peek-issue_token_pair a cache now t draws subject (refresh_key jti) c f h
        (refresh_key_eq draws.refresh_jti jti ∙ text_ne draws.refresh_jti jti ne),
  )

  -- Whether it succeeds or not, a rotation that gets as far as the version check deletes the
  -- session.
  rotate_gone :
      (now t : ℕ) (draws : Draws) (claims : Claims) (session : RefreshSession) (users : U) (c : C)
      → cache.IsFit c
      → now ≤ t
      → draws.refresh_jti ≢ claims.id
      → session.subject ≡ claims.subject
      → cache.peek t (rotate a now draws claims session users c).1 (refresh_key claims.id) ≡ none
  unfolding rotate
  rotate_gone now t draws claims session users c f h ne same =
      let c' = (version_of a now claims.subject c).1 in
      let deleted = del_key a (refresh_key claims.id) c' in
      let gone : cache.peek t deleted (refresh_key claims.id) ≡ none =
        peek-del_key t (refresh_key claims.id) (refresh_key claims.id) c'
        ∙ rw (text_eq_refl (refresh_key claims.id)) in
      let fit =
        cache.del_fit (refresh_key claims.id ∷ []) c'
          (version_of_fit a cache now claims.subject c f) in
      ground (
        arith,
        text_eq_iff session.subject claims.subject,
        gone,
        peek-reissue now t draws claims.subject claims.id users deleted fit h ne,
      )

  -- What stands behind a successful rotation.
  pub record IsRefresh (now : ℕ) (draws : Draws) (token : Text) (w w' : World U C B)
      (r : LoginResponse) : Type 0 where
    pub claims : Claims
    pub session : RefreshSession
    pub verified : verify a.jwt now token a.refresh_cfg ≡ ok claims
    pub stored : cache.peek now w.cache (refresh_key claims.id) ≡ some (session_doc session)
    pub subject : session.subject ≡ claims.subject
    pub current : ltb session.version (version_at a cache now w.cache claims.subject) ≡ false
    pub rotated :
        with_cache w (rotate a now draws claims session w.users (looked_up now claims w.cache))
        ≡ (ok r, w')

  refresh_session :
      (now : ℕ) (draws : Draws) (token : Text) (w w' : World U C B) (r : LoginResponse)
      (claims : Claims) (d : Doc)
      → verify a.jwt now token a.refresh_cfg ≡ ok claims
      → cache.peek now w.cache (refresh_key claims.id) ≡ some d
      → refresh a now draws token w ≡ (ok r, w')
      → (s : RefreshSession) × (d ≡ session_doc s)
  unfolding refresh
  refresh_session now draws token w w' r claims (session_doc s) good there e = (s, refl)
  refresh_session now draws token w w' r claims (text_doc t) good there e =
      absurd (ground (arith, cache.fetched now (refresh_key claims.id) w.cache))
  refresh_session now draws token w w' r claims (number_doc n) good there e =
      absurd (ground (arith, cache.fetched now (refresh_key claims.id) w.cache))

  rotate-ok :
      (now : ℕ) (draws : Draws) (claims : Claims) (session : RefreshSession) (users : U) (c : C)
      (r : LoginResponse)
      → (rotate a now draws claims session users c).0 ≡ ok r
      → (session.subject ≡ claims.subject)
        × (ltb session.version (version_at a cache now c claims.subject) ≡ false)
  unfolding rotate
  rotate-ok now draws claims session users c r e = ground (
    arith,
    text_eq_iff session.subject claims.subject,
    version_of-eq a cache now claims.subject c,
  )

  -- A refresh succeeds only for a token that verifies, whose session is stored, belongs to the
  -- token's subject and is of the current password version.
  pub refresh-IsRefresh :
      (now : ℕ) (draws : Draws) (token : Text) (w w' : World U C B) (r : LoginResponse)
      → refresh a now draws token w ≡ (ok r, w')
      → IsRefresh now draws token w w' r
  refresh-IsRefresh now draws token w w' r e =
      elim (Result-cases (verify a.jwt now token a.refresh_cfg)) [
        | inr (x, bad) ↦
            let refused = refresh_refused now draws token w (λ claims good. cc) in absurd (cc)
        | inl (claims, good) ↦
            elim (Option-cases (cache.peek now w.cache (refresh_key claims.id))) [
              | inl gone ↦
                  let refused =
                    refresh_refused now draws token w (λ claims' good'.
                      let same : claims' ≡ claims = ground arith in rw same gone) in
                  absurd (cc)
              | inr (d, there) ↦
                  let (session, shape) =
                    refresh_session now draws token w w' r claims d good there e in
                  let stored = there ∙ ap (λ x. some x) shape in
                  let rotated =
                    sym (refresh_found now draws token w claims session good stored) ∙ e in
                  let c = looked_up now claims w.cache in
                  let answer : (rotate a now draws claims session w.users c).0 ≡ ok r =
                    ap (λ x. x.0) rotated in
                  let (subject, current) = rotate-ok now draws claims session w.users c r answer in
                  record {
                    claims = claims;
                    session = session;
                    verified = good;
                    stored = stored;
                    subject = subject;
                    current =
                        rw
                          (← cache.peek_fetch now now (refresh_key claims.id)
                            (version_key claims.subject) w.cache (omega arith))
                          current;
                    rotated = rotated;
                  }
            ]
      ]

  -- A refresh token is good for one use: after a refresh that succeeds, every later refresh with
  -- the same token is refused as invalid, provided that the new session's id is not that of the
  -- old.
  pub refresh_once :
      (laws : IsJwtLib a.jwt) (now t : ℕ) (draws later_draws : Draws) (token : Text)
      (w w' : World U C B) (r : LoginResponse)
      → cache.IsFit w.cache
      → now ≤ t
      → ((claims : Claims)
          → verify a.jwt now token a.refresh_cfg ≡ ok claims
          → draws.refresh_jti ≢ claims.id)
      → refresh a now draws token w ≡ (ok r, w')
      → (refresh a t later_draws token w').0 ≡ err invalid
  refresh_once laws now t draws later_draws token w w' r fit h fresh e =
      let x = refresh-IsRefresh now draws token w w' r e in
      let c = looked_up now x.claims w.cache in
      let gone : cache.peek t w'.cache (refresh_key x.claims.id) ≡ none =
        rw (sym (ap (λ y. y.1.cache) x.rotated)) (
          rotate_gone now t draws x.claims x.session w.users c
            (cache.fetch_fit now (refresh_key x.claims.id) w.cache fit) h
            (fresh x.claims x.verified) x.subject) in
      refresh_refused t later_draws token w' (λ claims good.
        rw (verify_same a.jwt laws t now token a.refresh_cfg claims x.claims good x.verified) gone)
