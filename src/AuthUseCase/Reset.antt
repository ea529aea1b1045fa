-- ===== src/AuthUseCase/Reset.antt =====
-- `ResetPassword` of internal/usecase/auth_usecase.go and what it leaves in the cache.
use wapgo.Base.{
  ℕ, ◌+◌, ◌*◌, ◌^◌, ◌≤◌, ◌≡◌, refl, ap, not, ltb, ◌∙◌, none, some, [], ◌∷◌, ok, err, if◌then◌else◌,
  arith, Result-cases, Option-cases, inl, inr,
}
use wapgo.Base.Int.{pos}
use wapgo.Base.Text.{Text, text_eq, text_eq_refl}
use wapgo.Base.Errors.{errors_is}
use wapgo.Cache.Memory.{is_past, deadline}
use wapgo.Cache.Interface.{IsCache}
use wapgo.Users.Entity.{User}
use wapgo.AuthUseCase.{
  AuthUseCase, World, Doc, session_doc, text_doc, number_doc, invalid, version_of, version_ttl,
}
use wapgo.AuthUseCase.Keys.{reset_key, version_key, reset_key-version_key, version_key-reset_key}
use wapgo.AuthUseCase.Operations.{
  ResetPasswordRequest, reset_password, set_password, bump_version, del_key,
}
use wapgo.AuthUseCase.Sessions.{version_at, version_of-eq, peek-version_of, version_of_fit}

module _ {U C B : Type 0} (a : AuthUseCase U C B) (cache : IsCache a.cacher) where
  -- The cache after the token is consumed and the version is raised.
  pub peek-bump_version :
      (now t : ℕ) (token subject j : Text) (c : C)
      → cache.IsFit c
      → now ≤ t
      → cache.peek t (bump_version a now token subject c) j ≡ (
          if text_eq (version_key subject) j
          then (if is_past t (deadline now (pos version_ttl))
              then none
              else some (number_doc (version_at a cache now c subject + 1)))
          else (if text_eq (reset_key token) j then none else cache.peek t c j))
  unfolding bump_version
  peek-bump_version now t token subject j c f h =
      let c₁ = del_key a (reset_key token) c in
      let c₂ = (version_of a now subject c₁).1 in
      let n = (version_of a now subject c₁).0 + 1 in
      let fit = cache.del_fit (reset_key token ∷ []) c f in
      ground (
        arith,
        version_of-eq a cache now subject c₁,
        cache.peek_del now (reset_key token ∷ []) (version_key subject) c,
        reset_key-version_key token subject,
        cache.peek_set now t (version_key subject) j (number_doc n) (pos version_ttl) c₂
            (version_of_fit a cache now subject c₁ fit) h,
        peek-version_of a cache now t subject j c₁ h,
        cache.peek_del t (reset_key token ∷ []) j c,
      )

  -- A reset whose token is not in the cache is refused.
  pub reset_password_missing :
      (now : ℕ) (req : ResetPasswordRequest) (w : World U C B)
      → cache.peek now w.cache (reset_key req.token) ≡ none
      → (reset_password a now req w).0 ≡ err invalid
  unfolding reset_password errors_is
  reset_password_missing now req w gone =
      ground (arith, cache.fetched now (reset_key req.token) w.cache)

  -- The parts of a successful reset.
  pub record ResetParts (now : ℕ) (req : ResetPasswordRequest) (w w' : World U C B) : Type 0 where
    pub email : Text
    pub user : User
    pub hash : Text
    pub saved : User
    pub stored : cache.peek now w.cache (reset_key req.token) ≡ some (text_doc email)
    pub found : a.user_repo.find_by_email email w.users ≡ ok user
    pub hashed : a.generate_hash a.bcrypt_cost req.password ≡ some hash
    pub written :
        a.user_repo.update (record user { password = hash }) w.users ≡ (ok saved, w'.users)
    pub bumped :
        bump_version a now req.token
          (a.uuid_string user.id)
          (a.cacher.fetch now (reset_key req.token) w.cache).1
        ≡ w'.cache
    pub same_revoked : w'.revoked ≡ w.revoked

  set_password_parts :
      (now : ℕ) (req : ResetPasswordRequest) (email : Text) (w w' : World U C B)
      → set_password a now req email w ≡ (ok tt, w')
      → (user : User) × (hash : Text) × (saved : User) × (a.user_repo.find_by_email email w.users
          ≡ ok user)
        × (a.generate_hash a.bcrypt_cost req.password ≡ some hash)
        × (a.user_repo.update (record user { password = hash }) w.users ≡ (ok saved, w'.users))
        × (bump_version a now req.token (a.uuid_string user.id) w.cache ≡ w'.cache)
        × (w'.revoked ≡ w.revoked)
  unfolding set_password
  set_password_parts now req email w w' e =
      elim (Result-cases (a.user_repo.find_by_email email w.users)) [
        | inr (x, missing) ↦ absurd (ground arith)
        | inl (user, found) ↦ elim (Option-cases (a.generate_hash a.bcrypt_cost req.password)) [
          | inl long ↦ absurd (ground arith)
          | inr (hash, hashed) ↦
              let write = a.user_repo.update (record user { password = hash }) w.users in
              elim (Result-cases write.0) [
                | inr (x, failed) ↦ absurd (ground arith)
                | inl (saved, done) ↦
                    (user, hash, saved, found, hashed, ground arith, ground arith, ground arith)
              ]
        ]
      ]

  reset_password_found :
      (now : ℕ) (req : ResetPasswordRequest) (w w' : World U C B) (d : Doc)
      → cache.peek now w.cache (reset_key req.token) ≡ some d
      → reset_password a now req w ≡ (ok tt, w')
      → (email : Text) × (d ≡ text_doc email)
        × (set_password a now req email
              (record w { cache = (a.cacher.fetch now (reset_key req.token) w.cache).1 })
            ≡ (ok tt, w'))
  unfolding reset_password
  reset_password_found now req w w' (text_doc email) there e =
      (email, refl, ground (arith, cache.fetched now (reset_key req.token) w.cache))
  reset_password_found now req w w' (session_doc s) there e =
      absurd (ground (arith, cache.fetched now (reset_key req.token) w.cache))
  reset_password_found now req w w' (number_doc n) there e =
      absurd (ground (arith, cache.fetched now (reset_key req.token) w.cache))

  pub reset_password_parts :
      (now : ℕ) (req : ResetPasswordRequest) (w w' : World U C B)
      → reset_password a now req w ≡ (ok tt, w')
      → ResetParts now req w w'
  reset_password_parts now req w w' e =
      elim (Option-cases (cache.peek now w.cache (reset_key req.token))) [
        | inl gone ↦
            let refused = reset_password_missing now req w gone in absurd (cc (ap (λ y. y.0) e))
        | inr (d, there) ↦
            let (email, shape, rest) = reset_password_found now req w w' d there e in
            let c = (a.cacher.fetch now (reset_key req.token) w.cache).1 in
            let (user, hash, saved, found, hashed, written, bumped, same) =
              set_password_parts now req email (record w { cache = c }) w' rest in
            record {
              email = email;
              user = user;
              hash = hash;
              saved = saved;
              stored = there ∙ ap (λ x. some x) shape;
              found = found;
              hashed = hashed;
              written = written;
              bumped = bumped;
              same_revoked = same;
            }
      ]

  -- What a reader of the cache finds after a reset.
  pub peek-reset :
      (now t : ℕ) (req : ResetPasswordRequest) (w w' : World U C B) (j : Text)
      (x : ResetParts now req w w')
      → cache.IsFit w.cache
      → now ≤ t
      → cache.peek t w'.cache j ≡ (
          if text_eq (version_key (a.uuid_string x.user.id)) j
          then (if is_past t (deadline now (pos version_ttl))
              then none
              else some (number_doc (version_at a cache now w.cache (a.uuid_string x.user.id) + 1)))
          else (if text_eq (reset_key req.token) j then none else cache.peek t w.cache j))
  peek-reset now t req w w' j x f h =
      let key = reset_key req.token in
      let subject = a.uuid_string x.user.id in
      let c = (a.cacher.fetch now key w.cache).1 in
      rw (← x.bumped) (
        peek-bump_version now t req.token subject j c (cache.fetch_fit now key w.cache f) h
        ∙ rw (
          cache.peek_fetch now t key j w.cache h,
          cache.peek_fetch now now key (version_key subject) w.cache (omega arith),
        ))

  -- What stands behind a successful reset, and what a reader of the cache finds at the time `t`.
  pub record IsReset (now t : ℕ) (req : ResetPasswordRequest) (w w' : World U C B) : Type 0 where
    pub email : Text
    pub user : User
    pub hash : Text
    pub saved : User
    pub stored : cache.peek now w.cache (reset_key req.token) ≡ some (text_doc email)
    pub found : a.user_repo.find_by_email email w.users ≡ ok user
    pub hashed : a.generate_hash a.bcrypt_cost req.password ≡ some hash
    pub written :
        a.user_repo.update (record user { password = hash }) w.users ≡ (ok saved, w'.users)
    pub consumed : cache.peek t w'.cache (reset_key req.token) ≡ none
    pub raised : cache.peek t w'.cache (version_key (a.uuid_string user.id)) ≡ (
        if ltb t (now + 7_776_000 * 10 ^ 9)
        then some (number_doc (version_at a cache now w.cache (a.uuid_string user.id) + 1))
        else none)
    pub same_revoked : w'.revoked ≡ w.revoked

  version_time :
      (now t : ℕ)
      → is_past t (deadline now (pos version_ttl)) ≡ not (ltb t (now + 7_776_000 * 10 ^ 9))
  version_time now t = ground arith

  -- Over a cache that does not fail, a reset succeeds only with a token that is stored; it writes the hash of the new password, and
  -- nothing else, into the user whose email is stored with the token. At any later time the cache
  -- has nothing under the token, and for ninety days it holds, as the user's password version,
  -- the number after the one that it held before.
  pub reset_password-IsReset :
      (now t : ℕ) (req : ResetPasswordRequest) (w w' : World U C B)
      → cache.IsFit w.cache
      → now ≤ t
      → reset_password a now req w ≡ (ok tt, w')
      → IsReset now t req w w'
  reset_password-IsReset now t req w w' f h e =
      let x = reset_password_parts now req w w' e in
      let subject = a.uuid_string x.user.id in
      record {
        email = x.email;
        user = x.user;
        hash = x.hash;
        saved = x.saved;
        stored = x.stored;
        found = x.found;
        hashed = x.hashed;
        written = x.written;
        consumed =
            peek-reset now t req w w' (reset_key req.token) x f h
            ∙ rw (version_key-reset_key subject req.token, text_eq_refl (reset_key req.token));
        raised =
            peek-reset now t req w w' (version_key subject) x f h
            ∙ rw (text_eq_refl (version_key subject), version_time now t) (ground arith);
        same_revoked = x.same_revoked;
      }
