-- ===== src/Journal/Redact/Laws.antt =====
-- What the journal lets out of headers and bodies.
use wapgo.Base.{
  ℕ, ◌+◌, ◌≤◌, ◌<◌, ◌≡◌, refl, ap, not, ◌||◌, Bool, any, all, All, map, List, true, false, none,
  some, [], ◌∷◌, if◌then◌else◌, length, take, length-append, length-take, arith, Bool-cases, inl,
  inr, ◌⊎◌,
}
use wapgo.Base.Int.{ℤ, pos, pos_part}
use wapgo.Base.Text.{Text, codes, text_eq, text_eq_iff, text_eq_refl}
use wapgo.Base.Ascii.{lower}
use wapgo.Base.Dict.{Dict, lookup}
use wapgo.Journal.Redact.{
  sensitive_headers, is_sensitive_header, redact_headers, redacted_marker, is_binary, cap_body,
  truncated,
}

-- The request and response headers that carry credentials (RFC 9110, RFC 6265 and the two customary
-- names for keys), in any case.
abbrev pub credential_headers : List Text
credential_headers =
    codes "cookie"
    ∷ codes "set-cookie"
    ∷ codes "authorization"
    ∷ codes "proxy-authorization"
    ∷ codes "x-auth-token"
    ∷ codes "x-api-key"
    ∷ []

abbrev pub is_secret : Text → Bool
is_secret k = any (λ h. text_eq (lower k) h) credential_headers

-- An entry whose value may be seen by everyone.
abbrev pub IsMasked : Text × Text → Type 0
IsMasked (k, v) = (not (is_secret k) || text_eq v (codes "[redacted]")) ≡ true

abbrev pub name : Text × Text → Text
name (k, v) = k

-- Two header maps that show the same to someone who may not see the values of sensitive headers.
abbrev pub SameButSecrets : Dict Text → Dict Text → Type 0
SameButSecrets [] [] = Unit
SameButSecrets ((k, v) ∷ g) ((j, w) ∷ h) =
    (k ≡ j) × ((is_secret k ≡ true) ⊎ (v ≡ w)) × SameButSecrets g h
SameButSecrets _ _ = ⊥

any_among :
    (s : Text) (ts us : List Text)
    → all (λ t. any (λ h. text_eq h t) us) ts ≡ true
    → any (λ t. text_eq s t) ts ≡ true
    → any (λ h. text_eq h s) us ≡ true
any_among s [] us sub found = cc
any_among s (t ∷ ts) us sub found = elim (Bool-cases (text_eq s t)) [
  | inl same ↦ rw ((text_eq_iff s t).0 same) (ground arith)
  | inr other ↦ any_among s ts us (ground arith) (ground arith)
]

all_sensitive : all (λ t. any (λ h. text_eq h t) sensitive_headers) credential_headers ≡ true
unfolding text_eq
all_sensitive = refl

any_sensitive : (k : Text) → is_secret k ≡ true → is_sensitive_header k ≡ true
unfolding is_sensitive_header
any_sensitive k h = any_among (lower k) credential_headers sensitive_headers all_sensitive h

pub redact_headers-IsMasked : (h : Dict Text) → All IsMasked (redact_headers h)
unfolding redact_headers
redact_headers-IsMasked [] = tt
redact_headers-IsMasked ((k, v) ∷ h) = elim (Bool-cases (is_secret k)) [
  | inl secret ↦ (
    rw (any_sensitive k secret) (ground (arith, text_eq_refl redacted_marker)),
    redact_headers-IsMasked h,
  )
  | inr shown ↦ (rw shown, redact_headers-IsMasked h)
]

pub redact_headers-names : (h : Dict Text) → map name (redact_headers h) ≡ map name h
unfolding redact_headers
redact_headers-names [] = refl
redact_headers-names ((k, v) ∷ h) = ap (λ ks. k ∷ ks) (redact_headers-names h)

-- What is logged of headers does not depend on the value of any sensitive header: two header maps
-- with the same names, whose values differ only under sensitive names, are redacted to the same.
pub redact_headers_alike :
    (g h : Dict Text) → SameButSecrets g h → redact_headers g ≡ redact_headers h
unfolding redact_headers
redact_headers_alike [] [] s = refl
redact_headers_alike [] (x ∷ h) s = absurd s
redact_headers_alike (x ∷ g) [] s = absurd s
redact_headers_alike ((k, v) ∷ g) ((j, w) ∷ h) s = elim (Bool-cases (is_sensitive_header k)) [
  | inl secret ↦ ground (arith, redact_headers_alike g h s.2)
  | inr shown ↦ ground (arith, redact_headers_alike g h s.2, s.1, any_sensitive k)
]

-- Redaction masks sensitive headers and only those: every name is kept, with its value unless the
-- name is a sensitive one in any case, and then with the marker.
pub lookup-redact_headers :
    (k : Text) (h : Dict Text)
    → lookup k (redact_headers h) ≡ (
        if is_sensitive_header k
        then (elim (lookup k h) [ none ↦ none | some v ↦ some redacted_marker ])
        else lookup k h)
unfolding redact_headers lookup
lookup-redact_headers k [] = ground arith
lookup-redact_headers k ((j, v) ∷ h) = elim (Bool-cases (text_eq j k)) [
  | inl same ↦ ground (arith, (text_eq_iff j k).0 same)
  | inr other ↦ ground (arith, lookup-redact_headers k h)
]

-- The names stay in their order, so a redacted map has as many entries as the map it is made of.
pub length-redact_headers : (h : Dict Text) → length (redact_headers h) ≡ length h
unfolding redact_headers
length-redact_headers [] = refl
length-redact_headers ((k, v) ∷ h) = omega (arith, length-redact_headers h)

-- A logged body is short: at most the cap and the marker for a cut, or one of two fixed texts.
pub cap_body_bounds :
    (body content_type : Text) (max : ℤ)
    → length (cap_body body content_type max) ≤ pos_part max + 16
unfolding cap_body
cap_body_bounds body content_type max =
    ground
      (arith, length-append (take (pos_part max) body) truncated, length-take (pos_part max) body)

-- A body within the cap whose type is not binary is logged as it is.
pub cap_body_whole :
    (body content_type : Text) (n : ℕ)
    → 0 < n
    → length body ≤ n
    → is_binary content_type ≡ false
    → cap_body body content_type (pos n) ≡ body
unfolding cap_body
cap_body_whole body content_type n p h b = ground arith
