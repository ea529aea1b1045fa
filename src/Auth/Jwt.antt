-- ===== src/Auth/Jwt.antt =====
-- pkg/auth/jwt.go and pkg/auth/claims.go. The JWT library (golang-jwt) is the parameter `lib`: its
-- signing, its parser with the options that `Verify` sets, and its rounding of times. A time and a
-- duration are numbers of nanoseconds. `Sign` takes the clock's reading and the random id that it
-- draws; a secret is a text, of which only the length in bytes is tested.
pub mod Laws
use wapgo.Base.{
  ℕ, suc, ◌+◌, ◌*◌, ◌^◌, ◌≤◌, ◌<◌, ◌≡◌, Bool, true, false, not, ◌||◌, Option, none, some, List, [],
  ◌∷◌, ltb, ◌==◌, length, if◌then◌else◌, Result, ok, err,
}
use wapgo.Base.Text.{Text, codes}

pub record Config : Type 0 where
  pub secret : Text
  pub issuer : Text
  pub audience : Text
  pub expiry : ℕ

-- The registered claims and the two of the program. A missing time is `none`.
pub record Claims : Type 0 where
  pub id : Text
  pub subject : Text
  pub issuer : Text
  pub audience : List Text
  pub issued_at : Option ℕ
  pub not_before : Option ℕ
  pub expires_at : Option ℕ
  pub roles : List Text
  pub token_type : Text

pub data JwtError : Type 0 where
  weak_secret signing_failed invalid_token invalid_claims : JwtError

-- What the token's header says of its signature.
pub data SigningMethod : Type 0 where
  hmac other_method : SigningMethod

pub record ParserOptions : Type 0 where
  pub valid_methods : List Text
  pub issuer : Text
  pub audience : Text
  pub expiration_required : Bool
  pub check_issued_at : Bool

pub record Token : Type 0 where
  pub claims : Claims
  pub valid : Bool

pub record JwtLib : Type 0 where
  pub numeric_date : ℕ → ℕ
  -- What `jwt.NewWithClaims` with `SigningMethodHS256` and `SignedString` give.
  pub signed_string : Claims → Text → Option Text
  pub parse_with_claims : ParserOptions → (SigningMethod → Option Text) → ℕ → Text → Option Token

abbrev pub day : ℕ
day = 24 * 60 * 60 * 10 ^ 9

abbrev pub access : Text
access = codes "access"

abbrev pub refresh : Text
refresh = codes "refresh"

-- The lifetime that `Sign` uses.
abbrev pub lifetime : Config → ℕ
lifetime cfg = if cfg.expiry == 0 then day else cfg.expiry

module _ (lib : JwtLib) where
  abbrev pub new_claims : ℕ → Text → Text → List Text → Text → Config → Claims
  new_claims now jti subject roles token_type cfg = record {
    id = jti;
    subject = subject;
    issuer = cfg.issuer;
    audience = cfg.audience ∷ [];
    issued_at = some (lib.numeric_date now);
    not_before = some (lib.numeric_date now);
    expires_at = some (lib.numeric_date (now + lifetime cfg));
    roles = roles;
    token_type = token_type;
  }

  unfoldable pub sign : ℕ → Text → Text → List Text → Text → Config → Result JwtError (Text × Text)
  sign now jti subject roles token_type cfg =
      if ltb (length cfg.secret) 32
      then err weak_secret
      else (elim (lib.signed_string (new_claims now jti subject roles token_type cfg) cfg.secret) [
        | none ↦ err signing_failed
        | some signed ↦ ok (signed, jti)
      ])

  abbrev pub parser_options : Config → ParserOptions
  parser_options cfg = record {
    valid_methods = codes "HS256" ∷ [];
    issuer = cfg.issuer;
    audience = cfg.audience;
    expiration_required = true;
    check_issued_at = true;
  }

  abbrev pub key_func : Config → SigningMethod → Option Text
  key_func cfg hmac = some cfg.secret
  key_func cfg other_method = none

  unfoldable pub verify : ℕ → Text → Config → Result JwtError Claims
  verify now token_str cfg =
      if ltb (length cfg.secret) 32
      then err weak_secret
      else (elim (lib.parse_with_claims (parser_options cfg) (key_func cfg) now token_str) [
        | none ↦ err invalid_token
        | some token ↦ if not token.valid then err invalid_claims else ok token.claims
      ])
