-- ===== src/Notification/Email/Headers.antt =====
-- The header of a message that is sent (`buildRaw` and `sanitizeHeader`).
use wapgo.Base.{◌≡◌, refl, Bool, true, false, not, List, [], ◌∷◌, ◌++◌, all, All, arith}
use wapgo.Base.Text.{Text, codes}
use wapgo.Notification.Email.{
  Message, Config, is_break, sanitize_header, join_comma, crlf, content_type, build_raw,
}

-- A line holds no carriage return and no line feed.
abbrev pub IsLine : Text → Type 0
IsLine s = all (λ c. not (is_break c)) s ≡ true

-- Lines, each ended by CRLF, before the rest.
abbrev pub with_crlf : List Text → Text → Text
with_crlf [] rest = rest
with_crlf (l ∷ ls) rest = l ++ crlf ++ with_crlf ls rest

sanitize_header-IsLine : (s : Text) → IsLine (sanitize_header s)
unfolding sanitize_header
sanitize_header-IsLine [] = refl
sanitize_header-IsLine (c ∷ s) = ground (arith, sanitize_header-IsLine s)

-- Sanitizing cuts nothing from a line.
pub sanitize_header_line : (s : Text) → IsLine s → sanitize_header s ≡ s
unfolding sanitize_header
sanitize_header_line [] h = refl
sanitize_header_line (c ∷ s) h = ground (arith, sanitize_header_line s)

abbrev pub header_lines : Config → Message → List Text
header_lines cfg msg =
    (codes "From: " ++ sanitize_header cfg.from)
    ∷ (codes "To: " ++ sanitize_header (join_comma msg.to))
    ∷ (codes "Cc: " ++ sanitize_header (join_comma msg.cc))
    ∷ (codes "Subject: " ++ sanitize_header msg.subject)
    ∷ codes "MIME-Version: 1.0"
    ∷ content_type msg.is_html
    ∷ []

content_type-IsLine : (html : Bool) → IsLine (content_type html)
content_type-IsLine true = refl
content_type-IsLine false = refl

-- No text that a caller gives can add a header or end the header early: for any sender, recipients,
-- subject and body, what is sent is exactly six lines without a line break in them, From, To, Cc,
-- Subject, MIME-Version and Content-Type, then the empty line and the body.
pub build_raw-header_lines :
    (cfg : Config) (msg : Message)
    → (build_raw cfg msg ≡ with_crlf (header_lines cfg msg) (crlf ++ msg.body))
      × All IsLine (header_lines cfg msg)
unfolding build_raw
build_raw-header_lines cfg msg = (
  refl,
  (
    sanitize_header-IsLine cfg.from,
    (
      sanitize_header-IsLine (join_comma msg.to),
      (
        sanitize_header-IsLine (join_comma msg.cc),
        (sanitize_header-IsLine msg.subject, (refl, (content_type-IsLine msg.is_html, tt))),
      ),
    ),
  ),
)
