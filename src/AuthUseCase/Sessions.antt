-- ===== src/AuthUseCase/Sessions.antt =====
-- What the steps of internal/usecase/auth_usecase.go that touch the cache leave in it.
use wapgo.Base.{
  ℕ, ◌+◌, ◌-◌, ◌/◌, ◌≤◌, ◌≡◌, ◌∙◌, ap, sym, false, none, some, [], ok, if◌then◌else◌, arith,
  Result-cases, inl, inr,
}
use wapgo.Base.Int.{pos}
use wapgo.Base.Text.{Text, text_eq}
use wapgo.Cache.Memory.{is_past, deadline}
use wapgo.Cache.Interface.{IsCache, decoded, or_miss}
use wapgo.Auth.Jwt.{Config, sign, access, refresh}
use wapgo.Auth.Jwt.Laws.{sign_parts}
use wapgo.AuthUseCase.{
  AuthUseCase, session_doc, as_number, LoginResponse, Draws, version_of, store_session,
  issue_token_pair, or_zero, second,
}
use wapgo.AuthUseCase.Keys.{refresh_key, version_key}

module _ {U C B : Type 0} (a : AuthUseCase U C B) (cache : IsCache a.cacher) where
  -- The password version that the cache holds for a user at a time.
  abbrev pub version_at : ℕ → C → Text → ℕ
  version_at t c subject =
      or_zero (decoded as_number (or_miss (cache.peek t c (version_key subject))))

  pub version_of-eq :
      (now : ℕ) (subject : Text) (c : C) → (version_of a now subject c).0 ≡ version_at now c subject
  unfolding version_of
  version_of-eq now subject c = rw (cache.fetched now (version_key subject) c)

  pub peek-version_of :
      (now t : ℕ) (subject j : Text) (c : C)
      → now ≤ t
      → cache.peek t (version_of a now subject c).1 j ≡ cache.peek t c j
  unfolding version_of
  peek-version_of now t subject j c h = cache.peek_fetch now t (version_key subject) j c h

  pub version_of_fit :
      (now : ℕ) (subject : Text) (c : C)
      → cache.IsFit c
      → cache.IsFit (version_of a now subject c).1
  unfolding version_of
  version_of_fit now subject c f = cache.fetch_fit now (version_key subject) c f

  -- Storing a session succeeds, and touches the session's key alone.
  pub peek-store_session :
      (now t : ℕ) (subject at rt jti j : Text) (c : C)
      → cache.IsFit c
      → now ≤ t
      → cache.peek t (store_session a now subject at rt jti c).1 j ≡ (
          if text_eq (refresh_key jti) j
          then (if is_past t (deadline now (pos a.refresh_cfg.expiry))
              then none
              else some
                  (session_doc (record { subject = subject; version = version_at now c subject })))
          else cache.peek t c j)
  unfolding store_session
  peek-store_session now t subject at rt jti j c f h =
      let c' = (version_of a now subject c).1 in
      let session =
        session_doc (record { subject = subject; version = (version_of a now subject c).0 }) in
      ground (
        arith,
        version_of-eq now subject c,
        cache.set_ok now (refresh_key jti) session (pos a.refresh_cfg.expiry) c',
        cache.peek_set now t (refresh_key jti) j session (pos a.refresh_cfg.expiry) c'
            (version_of_fit now subject c f) h,
        peek-version_of now t subject j c h,
      )

  pub store_session-ok :
      (now : ℕ) (subject at rt jti : Text) (c : C)
      → (store_session a now subject at rt jti c).0
        ≡ ok (record {
          access_token = at;
          refresh_token = rt;
          expires_in = a.jwt_cfg.expiry / second;
        })
  unfolding store_session
  store_session-ok now subject at rt jti c =
      let c' = (version_of a now subject c).1 in
      let session =
        session_doc (record { subject = subject; version = (version_of a now subject c).0 }) in
      ground (arith, cache.set_ok now (refresh_key jti) session (pos a.refresh_cfg.expiry) c')

  pub store_session_fit :
      (now : ℕ) (subject at rt jti : Text) (c : C)
      → cache.IsFit c
      → cache.IsFit (store_session a now subject at rt jti c).1
  unfolding store_session
  store_session_fit now subject at rt jti c f =
      let c' = (version_of a now subject c).1 in
      let session =
        session_doc (record { subject = subject; version = (version_of a now subject c).0 }) in
      ground (
        arith,
        cache.set_ok now (refresh_key jti) session (pos a.refresh_cfg.expiry) c',
        cache.set_fit now (refresh_key jti) session (pos a.refresh_cfg.expiry) c'
            (version_of_fit now subject c f),
      )

  -- Issuing a pair of tokens leaves every other key alone, also when signing fails.
  pub peek-issue_token_pair :
      (now t : ℕ) (draws : Draws) (subject j : Text) (c : C)
      → cache.IsFit c
      → now ≤ t
      → text_eq (refresh_key draws.refresh_jti) j ≡ false
      → cache.peek t (issue_token_pair a now draws subject c).1 j ≡ cache.peek t c j
  unfolding issue_token_pair
  peek-issue_token_pair now t draws subject j c f h ne =
      elim (Result-cases (sign a.jwt now draws.access_jti subject [] access a.jwt_cfg)) [
        | inr (e, failed) ↦ rw (failed, issue_token_pair)
        | inl ((at, ai), signed) ↦
            elim (Result-cases
              (sign a.jwt now draws.refresh_jti subject [] refresh a.refresh_cfg)) [
                | inr (e, failed) ↦ rw (signed, issue_token_pair, failed)
                | inl ((rt, ri), made) ↦
                    let (strong, string, same) =
                      sign_parts a.jwt now draws.refresh_jti subject [] refresh a.refresh_cfg rt ri
                        made in
                    rw (signed, issue_token_pair, made)
                      (ground (arith, peek-store_session now t subject at rt ri j c f h))
              ]
      ]

  sign_id :
      (now : ℕ) (jti subject kind token id : Text) (cfg : Config)
      → sign a.jwt now jti subject [] kind cfg ≡ ok (token, id)
      → sign a.jwt now jti subject [] kind cfg ≡ ok (token, jti)
  sign_id now jti subject kind token id cfg e =
      let (strong, string, same) = sign_parts a.jwt now jti subject [] kind cfg token id e in
      e ∙ ap (λ x. ok (token, x)) same

  -- A pair that is issued was signed twice and then stored.
  issue_parts :
      (now : ℕ) (draws : Draws) (subject : Text) (c : C) (r : LoginResponse)
      → (issue_token_pair a now draws subject c).0 ≡ ok r
      → (at : Text) × (rt : Text) × (sign a.jwt now draws.access_jti subject [] access a.jwt_cfg
          ≡ ok (at, draws.access_jti))
        × (sign a.jwt now draws.refresh_jti subject [] refresh a.refresh_cfg
            ≡ ok (rt, draws.refresh_jti))
        × (issue_token_pair a now draws subject c
            ≡ store_session a now subject at rt draws.refresh_jti c)
  unfolding issue_token_pair
  issue_parts now draws subject c r e =
      elim (Result-cases (sign a.jwt now draws.access_jti subject [] access a.jwt_cfg)) [
        | inr (x, failed) ↦ absurd (ground arith)
        | inl ((at, ai), signed) ↦
            elim (Result-cases
              (sign a.jwt now draws.refresh_jti subject [] refresh a.refresh_cfg)) [
                | inr (x, failed) ↦ absurd (ground arith)
                | inl ((rt, ri), made) ↦
                    let made' =
                      sign_id now draws.refresh_jti subject refresh rt ri a.refresh_cfg made in
                    (
                      at,
                      rt,
                      sign_id now draws.access_jti subject access at ai a.jwt_cfg signed,
                      made',
                      rw (signed, issue_token_pair, made'),
                    )
              ]
      ]

  -- A pair that is issued consists of tokens signed at that moment, and the session of its refresh
  -- token is stored with the user's version; no other key changes.
  pub record IsIssued (now : ℕ) (draws : Draws) (subject : Text) (c c' : C) (r : LoginResponse)
      : Type 0 where
    pub access_signed :
        sign a.jwt now draws.access_jti subject [] access a.jwt_cfg
        ≡ ok (r.access_token, draws.access_jti)
    pub refresh_signed :
        sign a.jwt now draws.refresh_jti subject [] refresh a.refresh_cfg
        ≡ ok (r.refresh_token, draws.refresh_jti)
    pub fit : cache.IsFit c'
    pub seen :
        (d : ℕ) (j : Text)
        → cache.peek (now + d) c' j ≡ (
            if text_eq (refresh_key draws.refresh_jti) j
            then (if is_past (now + d) (deadline now (pos a.refresh_cfg.expiry))
                then none
                else some (
                    session_doc (record { subject = subject; version = version_at now c subject })))
            else cache.peek (now + d) c j)

  -- What is in the cache at any later time.
  pub issued_seen :
      (now t : ℕ) (draws : Draws) (subject j : Text) (c c' : C) (r : LoginResponse)
      → IsIssued now draws subject c c' r
      → now ≤ t
      → cache.peek t c' j ≡ (
          if text_eq (refresh_key draws.refresh_jti) j
          then (if is_past t (deadline now (pos a.refresh_cfg.expiry))
              then none
              else some
                  (session_doc (record { subject = subject; version = version_at now c subject })))
          else cache.peek t c j)
  issued_seen now t draws subject j c c' r x h =
      let same : now + (t - now) ≡ t = omega arith in rw same at (x.seen (t - now) j)

  pub issue_token_pair-IsIssued :
      (now : ℕ) (draws : Draws) (subject : Text) (c : C) (r : LoginResponse)
      → cache.IsFit c
      → (issue_token_pair a now draws subject c).0 ≡ ok r
      → IsIssued now draws subject c (issue_token_pair a now draws subject c).1 r
  issue_token_pair-IsIssued now draws subject c r f e =
      let (at, rt, signed, made, both) = issue_parts now draws subject c r e in
      let jti = draws.refresh_jti in
      let answer = sym (store_session-ok now subject at rt jti c) ∙ (rw both at e) in
      rw both (record {
        access_signed = ground arith;
        refresh_signed = ground arith;
        fit = store_session_fit now subject at rt jti c f;
        seen = λ d j. peek-store_session now (now + d) subject at rt jti j c f (omega arith);
      })

  -- Issuing keeps the cache fit, whatever comes of it.
  pub issue_token_pair_fit :
      (now : ℕ) (draws : Draws) (subject : Text) (c : C)
      → cache.IsFit c
      → cache.IsFit (issue_token_pair a now draws subject c).1
  unfolding issue_token_pair
  issue_token_pair_fit now draws subject c f =
      elim (Result-cases (sign a.jwt now draws.access_jti subject [] access a.jwt_cfg)) [
        | inr (x, failed) ↦ rw (failed, issue_token_pair) f
        | inl ((at, ai), signed) ↦
            elim (Result-cases
              (sign a.jwt now draws.refresh_jti subject [] refresh a.refresh_cfg)) [
                | inr (x, failed) ↦ rw (signed, issue_token_pair, failed) f
                | inl ((rt, ri), made) ↦
                    rw (signed, issue_token_pair, made) (store_session_fit now subject at rt ri c f)
              ]
      ]
