-- ===== src/Auth/Jwt/Laws.antt =====
-- What pkg/auth/jwt.go relies on of golang-jwt, and its signing and verifying on that ground.
use wapgo.Base.{
  ℕ, ◌+◌, ◌^◌, ◌≤◌, ◌<◌, ◌≡◌, refl, true, false, Option, none, some, List, ltb, length, ok, arith,
  any, sym, ◌∙◌, Option-cases, inl, inr,
}
use wapgo.Base.Text.{Text, codes, text_eq, text_eq_refl}
use wapgo.Auth.Jwt.{
  Config, Claims, SigningMethod, hmac, ParserOptions, Token, JwtLib, lifetime, new_claims, sign,
  parser_options, key_func, verify,
}

-- The time has come, and the time is still to come.
abbrev pub Started : ℕ → Option ℕ → Type 0
Started now none = Unit
Started now (some t) = t ≤ now

abbrev pub Running : ℕ → Option ℕ → Type 0
Running now none = ⊥
Running now (some t) = now < t

-- The library's documented behaviour. Times are rounded down, by less than a second. The parser
-- takes a token that was signed with the key and fits the options at that moment, if they allow the
-- method HS256 that it was signed with, and gives back its claims, marked as valid; what it takes has not expired, if an expiry is required; and the
-- claims of a token do not depend on when it is parsed.
pub record IsJwtLib (lib : JwtLib) : Type 0 where
  pub date_le : (t : ℕ) → lib.numeric_date t ≤ t
  pub date_lt : (t : ℕ) → t < lib.numeric_date t + 10 ^ 9
  pub parses :
      (o : ParserOptions) (key_of : SigningMethod → Option Text) (now : ℕ) (c : Claims)
      (key token : Text)
      → lib.signed_string c key ≡ some token
      → any (λ m. text_eq m (codes "HS256")) o.valid_methods ≡ true
      → key_of hmac ≡ some key
      → c.issuer ≡ o.issuer
      → any (λ a. text_eq a o.audience) c.audience ≡ true
      → Running now c.expires_at
      → Started now c.issued_at
      → Started now c.not_before
      → lib.parse_with_claims o key_of now token ≡ some (record { claims = c; valid = true })
  pub running :
      (o : ParserOptions) (key_of : SigningMethod → Option Text) (now : ℕ) (token : Text)
      (t : Token)
      → lib.parse_with_claims o key_of now token ≡ some t
      → o.expiration_required ≡ true
      → Running now t.claims.expires_at
  pub same_claims :
      (o : ParserOptions) (key_of : SigningMethod → Option Text) (now now' : ℕ) (token : Text)
      (t t' : Token)
      → lib.parse_with_claims o key_of now token ≡ some t
      → lib.parse_with_claims o key_of now' token ≡ some t'
      → t.claims ≡ t'.claims

module _ (lib : JwtLib) where
  pub sign_parts :
      (now : ℕ) (jti subject : Text) (roles : List Text) (token_type : Text) (cfg : Config)
      (token id : Text)
      → sign lib now jti subject roles token_type cfg ≡ ok (token, id)
      → (ltb (length cfg.secret) 32 ≡ false)
        × (lib.signed_string (new_claims lib now jti subject roles token_type cfg) cfg.secret
            ≡ some token)
        × (id ≡ jti)
  unfolding sign
  sign_parts now jti subject roles token_type cfg token id e = ground arith

  -- What `Verify` accepts was taken by the parser, under a secret of 32 bytes at least.
  pub verify_parts :
      (now : ℕ) (token : Text) (cfg : Config) (c : Claims)
      → verify lib now token cfg ≡ ok c
      → (t : Token) × (32 ≤ length cfg.secret)
        × (lib.parse_with_claims (parser_options lib cfg) (key_func lib cfg) now token ≡ some t)
        × (t.claims ≡ c)
  unfolding verify
  verify_parts now token cfg c e =
      elim (Option-cases
        (lib.parse_with_claims (parser_options lib cfg) (key_func lib cfg) now token)) [
          | inl refused ↦ absurd (ground arith)
          | inr (t, parsed) ↦ (t, ground arith, parsed, ground arith)
        ]

module _ (lib : JwtLib) (laws : IsJwtLib lib) where
  -- A token signed at one time verifies under the same configuration at any later time, up to one
  -- second before its lifetime is over, and gives back the claims that it was made of.
  pub verify-sign :
      (now t : ℕ) (jti subject : Text) (roles : List Text) (token_type : Text) (cfg : Config)
      (token id : Text)
      → sign lib now jti subject roles token_type cfg ≡ ok (token, id)
      → now ≤ t
      → t + 10 ^ 9 ≤ now + lifetime cfg
      → verify lib t token cfg ≡ ok (new_claims lib now jti subject roles token_type cfg)
  unfolding verify text_eq
  verify-sign now t jti subject roles token_type cfg token id e h k =
      let c = new_claims lib now jti subject roles token_type cfg in
      let (strong, made, same) = sign_parts lib now jti subject roles token_type cfg token id e in
      rw (
        strong,
        laws.parses (parser_options lib cfg) (key_func lib cfg) t c cfg.secret token made refl refl
            refl (rw (text_eq_refl cfg.audience)) (omega (arith, laws.date_lt (now + lifetime cfg)))
            (omega (arith, laws.date_le now)) (omega (arith, laws.date_le now)),
      )

  -- A token that `Verify` accepts carries an expiry, and it is still to come.
  pub verify-Running :
      (now : ℕ) (token : Text) (cfg : Config) (c : Claims)
      → verify lib now token cfg ≡ ok c
      → Running now c.expires_at
  verify-Running now token cfg c e =
      let (t, strong, parsed, same) = verify_parts lib now token cfg c e in
      rw same at (laws.running (parser_options lib cfg) (key_func lib cfg) now token t parsed refl)

  -- What a token says does not depend on when it is verified.
  pub verify_same :
      (now now' : ℕ) (token : Text) (cfg : Config) (c c' : Claims)
      → verify lib now token cfg ≡ ok c
      → verify lib now' token cfg ≡ ok c'
      → c ≡ c'
  verify_same now now' token cfg c c' e e' =
      let (t, strong, parsed, same) = verify_parts lib now token cfg c e in
      let (t', strong', parsed', same') = verify_parts lib now' token cfg c' e' in
      sym same
      ∙ laws.same_claims (parser_options lib cfg) (key_func lib cfg) now now' token t t' parsed
          parsed'
      ∙ same'
