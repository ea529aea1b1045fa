-- ===== src/Notification/Email.antt =====
-- pkg/notification/email/email.go. The server answers each step of the SMTP dialogue: `refuses`
-- says which steps fail. Tracing and the log are left out.
pub mod Headers
pub mod Dialogue
use wapgo.Base.{
  ℕ, Bool, true, false, not, ◌&&◌, ◌||◌, Option, none, some, List, [], ◌∷◌, ◌++◌, ◌==◌,
  if◌then◌else◌, map,
}
use wapgo.Base.Int.{ℤ, pos, ltb_ℤ}
use wapgo.Base.Text.{Text, codes, text_eq}

pub record Message : Type 0 where
  pub to : List Text
  pub cc : List Text
  pub subject : Text
  pub body : Text
  pub is_html : Bool

pub record Config : Type 0 where
  pub host : Text
  pub port : ℕ
  pub username : Text
  pub password : Text
  pub from : Text
  pub timeout : ℤ

-- `NewSMTPMailer`: ten seconds where no timeout is given.
unfoldable pub new_smtp_mailer : Config → Config
new_smtp_mailer cfg =
    if ltb_ℤ cfg.timeout (pos 0) || ltb_ℤ (pos 0) cfg.timeout
    then cfg
    else record cfg { timeout = pos 10_000_000_000 }

abbrev pub is_break : ℕ → Bool
is_break c = c == b'\r' || c == b'\n'

unfoldable pub sanitize_header : Text → Text
sanitize_header [] = []
sanitize_header (c ∷ s) = let rest = sanitize_header s in if is_break c then rest else c ∷ rest

-- `strings.Join(ss, ", ")`
unfoldable pub join_comma : List Text → Text
join_comma [] = []
join_comma (s ∷ []) = s
join_comma (s ∷ t ∷ ss) = s ++ codes ", " ++ join_comma (t ∷ ss)

abbrev pub crlf : Text
crlf = b'\r' ∷ b'\n' ∷ []

abbrev pub content_type : Bool → Text
content_type true = codes "Content-Type: text/html; charset=\"utf-8\""
content_type false = codes "Content-Type: text/plain; charset=\"utf-8\""

unfoldable pub build_raw : Config → Message → Text
unfolding sanitize_header join_comma
build_raw cfg msg =
    codes "From: "
    ++ sanitize_header cfg.from
    ++ crlf
    ++ (codes "To: "
        ++ sanitize_header (join_comma msg.to)
        ++ crlf
        ++ (codes "Cc: "
            ++ sanitize_header (join_comma msg.cc)
            ++ crlf
            ++ (codes "Subject: "
                ++ sanitize_header msg.subject
                ++ crlf
                ++ (codes "MIME-Version: 1.0"
                    ++ crlf
                    ++ (content_type msg.is_html ++ crlf ++ (crlf ++ msg.body))))))

-- The steps of `dial`. The handshake of `implicit_tls` happens in the next step; `no_starttls` is
-- the error of a server at port 587 that does not offer it.
pub data Step : Type 0 where
  connect implicit_tls new_client no_starttls start_tls : Step
  auth : Text → Text → Step
  mail_from rcpt : Text → Step
  begin_data end_data : Step
  write : Text → Step

abbrev pub when : Bool → List Step → List Step
when b steps = if b then steps else []

-- The steps before the text of the message is sent, for a server that offers STARTTLS or not.
unfoldable pub opening : Config → Bool → Message → List Step
unfolding text_eq
opening cfg offers_starttls msg =
    connect ∷ when (cfg.port == 465) (implicit_tls ∷ [])
    ++ (new_client
          ∷ when (not (cfg.port == 465) && (not offers_starttls && cfg.port == 587))
              (no_starttls ∷ [])
        ++ (when (not (cfg.port == 465) && offers_starttls) (start_tls ∷ [])
            ++ (when (not (text_eq cfg.username [])) (auth cfg.username cfg.password ∷ [])
                ++ (mail_from cfg.from ∷ map rcpt (msg.to ++ msg.cc) ++ begin_data ∷ []))))

abbrev pub fails : (Step → Bool) → Step → Bool
fails refuses implicit_tls = false
fails refuses no_starttls = true
fails refuses s = refuses s

-- The steps that are taken, up to the first that fails, and that one.
unfoldable pub run : (Step → Bool) → List Step → List Step × Option Step
run refuses [] = ([], none)
run refuses (s ∷ steps) =
    let rest = run refuses steps in
    if fails refuses s then (s ∷ [], some s) else (s ∷ rest.0, rest.1)

-- When nothing failed, the text is written, and the data are ended on the way out: what the server
-- answers to that is dropped.
abbrev pub finish : (Step → Bool) → Step → List Step × Option Step → List Step × Option Step
finish refuses text (taken, some s) = (taken, some s)
finish refuses text (taken, none) =
    (taken ++ text ∷ end_data ∷ [], if refuses text then some text else none)

unfoldable pub dial : Config → Bool → (Step → Bool) → Message → List Step × Option Step
unfolding opening run
dial cfg offers_starttls refuses msg =
    finish refuses (write (build_raw cfg msg)) (run refuses (opening cfg offers_starttls msg))

pub data SendError : Type 0 where
  no_recipient : SendError
  step_failed : Step → SendError

-- The steps, the error, and the status that the journal gets, if it gets an entry.
abbrev pub Sent : Type 0
Sent = List Step × Option SendError × Option ℕ

abbrev pub reported : List Step × Option Step → Sent
reported (taken, none) = (taken, none, some 250)
reported (taken, some s) = (taken, some (step_failed s), some 0)

-- `if len(msg.To) == 0 { return ... }`
abbrev pub or_nobody : List Text → Sent → Sent
or_nobody [] sent = ([], some no_recipient, none)
or_nobody (r ∷ rs) sent = sent

-- `Send`
unfoldable pub send : Config → Bool → (Step → Bool) → Message → Sent
send cfg offers_starttls refuses msg =
    or_nobody msg.to (reported (dial cfg offers_starttls refuses msg))
