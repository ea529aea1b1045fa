-- ===== src/Journal/Redact.antt =====
-- pkg/journal/redact.go: what is masked and cut before headers and bodies are logged. A header map
-- is a list of entries; names are ASCII. `max` is an `int`.
pub mod Laws
use wapgo.Base.{
  ℕ, Bool, true, false, ◌||◌, List, [], ◌∷◌, ◌++◌, if◌then◌else◌, ltb, any, length, take,
}
use wapgo.Base.Int.{ℤ, pos, pos_part, ltb_ℤ}
use wapgo.Base.Text.{Text, codes, text_eq}
use wapgo.Base.Ascii.{lower}
use wapgo.Base.Strings.{contains}
use wapgo.Base.Dict.{Dict}

abbrev pub sensitive_headers : List Text
sensitive_headers =
    codes "authorization"
    ∷ codes "proxy-authorization"
    ∷ codes "cookie"
    ∷ codes "set-cookie"
    ∷ codes "x-api-key"
    ∷ codes "x-auth-token"
    ∷ []

abbrev pub redacted_marker : Text
redacted_marker = codes "[redacted]"

unfoldable pub is_sensitive_header : Text → Bool
unfolding text_eq
is_sensitive_header name = any (λ h. text_eq h (lower name)) sensitive_headers

unfoldable pub redact_headers : Dict Text → Dict Text
redact_headers [] = []
redact_headers ((k, v) ∷ h) =
    (k, if is_sensitive_header k then redacted_marker else v) ∷ redact_headers h

abbrev pub binary_content_types : List Text
binary_content_types =
    codes "application/octet-stream"
    ∷ codes "multipart/form-data"
    ∷ codes "image/"
    ∷ codes "video/"
    ∷ codes "audio/"
    ∷ codes "application/pdf"
    ∷ codes "application/zip"
    ∷ []

unfoldable pub is_binary : Text → Bool
unfolding contains
is_binary content_type = any (λ b. contains (lower content_type) b) binary_content_types

abbrev pub omitted : Text
omitted = codes "[omitted]"

abbrev pub binary_omitted : Text
binary_omitted = codes "[binary omitted]"

abbrev pub truncated : Text
truncated = codes "...[truncated]"

unfoldable pub cap_body : Text → Text → ℤ → Text
unfolding is_binary
cap_body body content_type max =
    if ltb_ℤ (pos 0) max
    then (if is_binary content_type
        then binary_omitted
        else (if ltb (pos_part max) (length body)
            then take (pos_part max) body ++ truncated
            else body))
    else omitted
