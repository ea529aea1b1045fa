-- ===== src/Tests/Notices.antt =====
-- A mail and a push notification on small inputs.
use wapgo.Base.Text.{text_eq}
use wapgo.Base.{
  ◌≡◌, refl, Bool, true, false, some, [], ◌∷◌, ◌++◌, All, Result, ok, if◌then◌else◌, arith,
}
use wapgo.Base.Int.{pos, ltb_ℤ}
use wapgo.Base.Text.{Text, codes}
use wapgo.Notification.Email.{
  Message, Config, Step, connect, implicit_tls, new_client, no_starttls, start_tls, auth, mail_from,
  rcpt, begin_data, end_data, write, crlf, build_raw, dial, send,
}
use wapgo.Notification.Email.Headers.{IsLine, with_crlf, header_lines, build_raw-header_lines}
use wapgo.Notification.Email.Dialogue.{guarded, is_end, dial-guarded, send_ignores_end}
use wapgo.Notification.Firebase as Firebase
use wapgo.Notification.Firebase.{FcmClient, ServiceAccount, TokenAnswer, renew, cached_access_token}
use wapgo.Notification.Firebase.Laws.{last_use, lasting, cached_access_token_window}

-- A subject that tries to add a recipient.
abbrev mail : Message
mail = record {
  to = codes "ann@x.io" ∷ [];
  cc = [];
  subject = codes "Hi\r\nBcc: eve@x.io";
  body = codes "Hello";
  is_html = false;
}

abbrev smtp : Config
smtp = record {
  host = codes "mail.x.io";
  port = 587;
  username = codes "api";
  password = codes "pw";
  from = codes "api@x.io";
  timeout = pos 10_000_000_000;
}

build_raw-header_lines_example :
    (build_raw smtp mail ≡ with_crlf (header_lines smtp mail) (crlf ++ mail.body))
    × All IsLine (header_lines smtp mail)
build_raw-header_lines_example = build_raw-header_lines smtp mail

abbrev accepts : Step → Bool
accepts s = false

-- A server that rejects the message once it has it.
abbrev rejects_spam : Step → Bool
rejects_spam end_data = true
rejects_spam s = false

alike : (s : Step) → is_end s ≡ false → rejects_spam s ≡ accepts s
alike connect h = refl
alike implicit_tls h = refl
alike new_client h = refl
alike no_starttls h = refl
alike start_tls h = refl
alike (auth user password) h = refl
alike (mail_from f) h = refl
alike (rcpt r) h = refl
alike begin_data h = refl
alike end_data h = cc
alike (write t) h = refl

dial-guarded_example : guarded false (dial smtp true accepts mail).0 ≡ true
dial-guarded_example = dial-guarded smtp true accepts mail refl

send_ignores_end_example : send smtp true rejects_spam mail ≡ send smtp true accepts mail
send_ignores_end_example = send_ignores_end smtp true rejects_spam accepts mail alike

sent : (send smtp true rejects_spam mail).2 ≡ some 250
unfolding send dial
sent = refl

unguarded : (dial smtp false accepts mail).1 ≡ some no_starttls
unfolding dial
unguarded = refl

abbrev client : FcmClient
client = record {
  sa = record {
    project_id = codes "shop";
    private_key = codes "key";
    client_email = codes "push@shop";
    token_uri = codes "https://oauth2.example.org/token";
  };
  access_token = [];
  token_expiry = pos 0;
}

abbrev answer : Result Text TokenAnswer
answer = ok (lasting (codes "t1") 3600)

cached_access_token_window_example :
    let c' = (cached_access_token (pos 5) (pos 6) answer client).1 in
    cached_access_token (pos 7) (pos 8) answer c' ≡ (
      if ltb_ℤ (pos 7) (last_use (pos 6) 3600)
      then (ok (codes "t1"), c', false)
      else renew (pos 8) answer c')
unfolding text_eq cached_access_token renew Firebase.fetch_access_token
cached_access_token_window_example =
    cached_access_token_window (pos 5) (pos 6) (pos 7) (pos 8) (codes "t1") 3600 answer client
      (omega arith) refl refl

masked : Firebase.mask_token (codes "abcdefghijkl") ≡ codes "abcd***ijkl"
unfolding Firebase.mask_token
masked = refl
