-- ===== src/Tests/Token.antt =====
-- A token library in place of golang-jwt: a token is the key and the claims, written out with their
-- lengths, and the parser reads them back and checks what the options ask for.
use wapgo.Base.{
  ℕ, suc, zero, ◌-◌, ◌%◌, ◌^◌, ◌<◌, ◌≡◌, refl, sym, ap, ◌∙◌, Bool, true, false, ◌&&◌, Option, none,
  some, List, [], ◌∷◌, ◌++◌, any, length, length-append, take, drop, ltb, leb, if◌then◌else◌, arith,
  inl, inr, Bool-cases,
}
use wapgo.Base.Text.{Text, codes, text_eq, text_eq_refl}
use wapgo.Auth.Jwt.{Claims, SigningMethod, hmac, ParserOptions, Token, JwtLib}
use wapgo.Auth.Jwt.Laws.{IsJwtLib, Running, Started}

unfoldable pub put_text : Text → Text → Text
put_text t rest = length t ∷ (t ++ rest)

unfoldable pub get_text : Text → Text × Text
get_text [] = ([], [])
get_text (n ∷ s) = (take n s, drop n s)

unfoldable pub put_option : Option ℕ → Text → Text
put_option none rest = 0 ∷ rest
put_option (some n) rest = 1 ∷ n ∷ rest

unfoldable pub get_option : Text → Option ℕ × Text
get_option (suc k ∷ n ∷ s) = (some n, s)
get_option (zero ∷ s) = (none, s)
get_option s = (none, s)

unfoldable pub put_list : List Text → Text → Text
unfolding put_text
put_list [] rest = 0 ∷ rest
put_list (t ∷ ts) rest = 1 ∷ put_text t (put_list ts rest)

-- The first argument bounds the number of texts.
unfoldable pub get_list : ℕ → Text → List Text × Text
unfolding get_text
get_list zero s = ([], s)
get_list (suc n) [] = ([], [])
get_list (suc n) (zero ∷ s) = ([], s)
get_list (suc n) (suc k ∷ s) =
    let (t, s₁) = get_text s in let (ts, s₂) = get_list n s₁ in (t ∷ ts, s₂)

take-length : (t rest : Text) → take (length t) (t ++ rest) ≡ t
take-length [] rest = refl
take-length (c ∷ t) rest = ap (λ u. c ∷ u) (take-length t rest)

drop-length : (t rest : Text) → drop (length t) (t ++ rest) ≡ rest
drop-length [] rest = refl
drop-length (c ∷ t) rest = drop-length t rest

get-put_text : (t rest : Text) → get_text (put_text t rest) ≡ (t, rest)
unfolding get_text put_text
get-put_text t rest = rw (take-length t rest, drop-length t rest)

get-put_option : (o : Option ℕ) (rest : Text) → get_option (put_option o rest) ≡ (o, rest)
unfolding get_option put_option
get-put_option none rest = refl
get-put_option (some n) rest = refl

get-put_list :
    (ts : List Text) (rest : Text) (n : ℕ)
    → length ts < n
    → get_list n (put_list ts rest) ≡ (ts, rest)
unfolding get_list put_list
get-put_list [] rest zero h = absurd (omega arith)
get-put_list (t ∷ ts) rest zero h = absurd (omega arith)
get-put_list [] rest (suc n) h = refl
get-put_list (t ∷ ts) rest (suc n) h = rw (
  take-length t (put_list ts rest),
  drop-length t (put_list ts rest),
  get-put_list ts rest n (omega arith),
)

length-put_list : (ts : List Text) (rest : Text) → length ts < length (put_list ts rest)
unfolding put_list
length-put_list [] rest = omega arith
length-put_list (t ∷ ts) rest =
    omega (arith, length-append t (put_list ts rest), length-put_list ts rest)

unfoldable pub read_list : Text → List Text × Text
unfolding get_list
read_list s = get_list (length s) s

read-put_list : (ts : List Text) (rest : Text) → read_list (put_list ts rest) ≡ (ts, rest)
unfolding read_list
read-put_list ts rest = get-put_list ts rest (length (put_list ts rest)) (length-put_list ts rest)

-- The claims in order, each part before the rest.
unfoldable pub put_times : Claims → Text
put_times c = put_option c.issued_at (
    put_option c.not_before (put_option c.expires_at (put_list c.roles (put_text c.token_type []))))

unfoldable pub put_claims : Claims → Text
unfolding put_times
put_claims c =
    put_text c.id (put_text c.subject (put_text c.issuer (put_list c.audience (put_times c))))

unfoldable pub get_claims : Text → Claims
get_claims s =
    let (id, s₁) = get_text s in
    let (subject, s₂) = get_text s₁ in
    let (issuer, s₃) = get_text s₂ in
    let (audience, s₄) = read_list s₃ in
    let (issued_at, s₅) = get_option s₄ in
    let (not_before, s₆) = get_option s₅ in
    let (expires_at, s₇) = get_option s₆ in
    let (roles, s₈) = read_list s₇ in
    record {
      id = id;
      subject = subject;
      issuer = issuer;
      audience = audience;
      issued_at = issued_at;
      not_before = not_before;
      expires_at = expires_at;
      roles = roles;
      token_type = (get_text s₈).0;
    }

get-put_claims : (c : Claims) → get_claims (put_claims c) ≡ c
unfolding get_claims put_claims put_times
get-put_claims c = simp (get-put_text, read-put_list, get-put_option)

-- The key comes first.
unfoldable pub signed : Claims → Text → Text
signed c key = put_text key (put_claims c)

unfoldable pub is_running : ℕ → Option ℕ → Bool
is_running now none = false
is_running now (some t) = ltb now t

unfoldable pub is_started : ℕ → Option ℕ → Bool
is_started now none = true
is_started now (some t) = leb t now

-- What the options ask of the claims.
unfoldable pub fits : ParserOptions → ℕ → Claims → Bool
unfolding is_running is_started text_eq
fits o now c =
    any (λ m. text_eq m (codes "HS256")) o.valid_methods
    && (text_eq c.issuer o.issuer
        && (any (λ a. text_eq a o.audience) c.audience
            && (is_running now c.expires_at
                && (is_started now c.issued_at && is_started now c.not_before))))

unfoldable pub has_key : Option Text → Text → Bool
unfolding text_eq
has_key none key = false
has_key (some k) key = text_eq k key

unfoldable pub parse : ParserOptions → (SigningMethod → Option Text) → ℕ → Text → Option Token
parse o key_of now token =
    let (key, rest) = get_text token in
    if has_key (key_of hmac) key && fits o now (get_claims rest)
    then some (record { claims = get_claims rest; valid = true })
    else none

abbrev pub token_lib : JwtLib
token_lib = record {
  numeric_date = λ t. t - t % 10 ^ 9;
  signed_string = λ c key. some (signed c key);
  parse_with_claims = parse;
}

parse_lem :
    (o : ParserOptions) (key_of : SigningMethod → Option Text) (now : ℕ) (c : Claims) (key : Text)
    → parse o key_of now (signed c key) ≡ (
        if has_key (key_of hmac) key && fits o now c
        then some (record { claims = c; valid = true })
        else none)
unfolding parse signed
parse_lem o key_of now c key = simp (get-put_text, get-put_claims)

is_running_lem : (now : ℕ) (o : Option ℕ) → Running now o → is_running now o ≡ true
unfolding is_running
is_running_lem now none h = absurd h
is_running_lem now (some t) h = ground arith

is_started_lem : (now : ℕ) (o : Option ℕ) → Started now o → is_started now o ≡ true
unfolding is_started
is_started_lem now none h = refl
is_started_lem now (some t) h = ground arith

Running-is_running : (now : ℕ) (o : Option ℕ) → is_running now o ≡ true → Running now o
unfolding is_running
Running-is_running now none h = cc
Running-is_running now (some t) h = ground arith

parses :
    (o : ParserOptions) (key_of : SigningMethod → Option Text) (now : ℕ) (c : Claims)
    (key token : Text)
    → ◌≡◌ {A = Option Text} (some (signed c key)) (some token)
    → any (λ m. text_eq m (codes "HS256")) o.valid_methods ≡ true
    → key_of hmac ≡ some key
    → c.issuer ≡ o.issuer
    → any (λ a. text_eq a o.audience) c.audience ≡ true
    → Running now c.expires_at
    → Started now c.issued_at
    → Started now c.not_before
    → parse o key_of now token ≡ some (record { claims = c; valid = true })
unfolding has_key fits
parses o key_of now c key token made allowed known issuer audience running issued before =
    let same : signed c key ≡ token = cc in
    rw (
      ← same,
      parse_lem o key_of now c key,
      known,
      allowed,
      text_eq_refl key,
      issuer,
      text_eq_refl o.issuer,
      audience,
      is_running_lem now c.expires_at running,
      is_started_lem now c.issued_at issued,
      is_started_lem now c.not_before before,
    )

parse_parts :
    (o : ParserOptions) (key_of : SigningMethod → Option Text) (now : ℕ) (token : Text) (t : Token)
    → parse o key_of now token ≡ some t
    → (t.claims ≡ get_claims (get_text token).1) × Running now t.claims.expires_at
unfolding parse fits
parse_parts o key_of now token t h =
    let c = get_claims (get_text token).1 in
    elim (Bool-cases (has_key (key_of hmac) (get_text token).0 && fits o now c)) [
      | inr unfit ↦ absurd (ground arith)
      | inl fit ↦
          let same : c ≡ t.claims = ground arith in
          (sym same, rw (← same) (Running-is_running now c.expires_at (ground arith)))
    ]

pub token_lib-IsJwtLib : IsJwtLib token_lib
token_lib-IsJwtLib = record {
  date_le = λ t. omega arith;
  date_lt = λ t. omega arith;
  parses = parses;
  running = λ o key_of now token t h required. (parse_parts o key_of now token t h).1;
  same_claims = λ o key_of now now' token t t' h h'.
      (parse_parts o key_of now token t h).0 ∙ sym (parse_parts o key_of now' token t' h').0;
}
