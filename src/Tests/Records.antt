-- ===== src/Tests/Records.antt =====
-- Journals, the outgoing client's answers, and encryption, on small inputs.
use wapgo.Journal.Redact.{is_sensitive_header}
use wapgo.Base.{
  ◌++◌, inl, inr, ℕ, ◌≡◌, refl, true, false, none, some, List, [], ◌∷◌, map, ok, err, arith,
}
use wapgo.Base.Int.{pos}
use wapgo.Crypto.{Ciphers, decrypt}
use wapgo.Crypto.Laws.{IsAead}
use wapgo.Base.Text.{strip_prefix, strip_prefix-append, strip_prefix-eq-some, Text, codes, text_eq}
use wapgo.Base.Dict.{Dict}
use wapgo.Journal.Redact.{is_sensitive_header, redact_headers, cap_body}
use wapgo.Journal.Redact.Laws.{is_secret, SameButSecrets}
use wapgo.Journal.Record.{api, ThirdParty, Journal, start, summary, third_parties, traces_of}
use wapgo.Journal.Record.Laws.{
  Call, identify, call_out, note, calls, called, notes, noted, contents, no_lines, calls-start,
}
use wapgo.HttpClient.Client.{
  Options, Request, no_get_body, Response, Context, get_url, read_body, seconds,
}
use wapgo.HttpClient.Client.Laws.{get_url_hides_fault}

abbrev pub headers : Text → Dict Text
headers secret = (codes "Authorization", secret) ∷ (codes "Accept", codes "*/*") ∷ []

sensitive : is_secret (codes "Authorization") ≡ true
unfolding text_eq
sensitive = refl

pub same_headers : SameButSecrets (headers (codes "Bearer a")) (headers (codes "Bearer b"))
same_headers = (refl, inl sensitive, (refl, inr refl, tt))

redacted : redact_headers (headers (codes "Bearer a")) ≡ headers (codes "[redacted]")
unfolding redact_headers is_sensitive_header
redacted = refl

image : cap_body (codes "....") (codes "Image/png") (pos 10) ≡ codes "[binary omitted]"
unfolding cap_body
image = refl

cut : cap_body (codes "abcd") (codes "text/plain") (pos 2) ≡ codes "ab...[truncated]"
unfolding cap_body
cut = refl

abbrev paid : ThirdParty
paid = record {
  name = [];
  method = codes "POST";
  url = codes "https://pay.example.org/charge";
  host = codes "pay.example.org";
  status = 200;
  latency_ms = 12;
  request_body = [];
  response_body = [];
  error = [];
  started_at = 5;
}

abbrev history : List (Call ℕ)
history = identify (codes "r-1") ∷ call_out paid ∷ note (codes "stock") 3 7 ∷ []

calls-start_example :
    let (j, f) = calls history (some (start api)) no_lines in
    (third_parties j ≡ called history)
    × (contents f.thirdparty ≡ map summary (called history))
    × (map noted (traces_of j) ≡ notes history)
    × (contents f.trace ≡ notes history)
calls-start_example = calls-start history api

abbrev options : Options
options = record {
  timeout = seconds 5;
  allowed_hosts = [];
  allow_private = false;
  max_response_bytes = pos 1024;
  max_retries = pos 3;
  cb_consecutive_failures = 5;
  cb_timeout = seconds 30;
  log_body_max_bytes = pos 512;
}

abbrev request : Request
request = record {
  method = codes "GET";
  url = codes "https://users.example.org/users/1";
  host = codes "users.example.org";
  headers = [];
  body = no_get_body;
}

-- An answer that is broken off.
abbrev broken : Response
broken = record {
  status_code = 200;
  content_type = codes "application/json";
  body = record { bytes = codes "{\"data\":"; fault = some (codes "connection reset") };
}

abbrev context : Context
context = record { request_id = codes "r-1"; authorization = [] }

abbrev journal : Journal ℕ
journal = record {
  kind = api;
  request_id = codes "r-1";
  trace_id = [];
  third_party = [];
  traces = [];
}

get_url_hides_fault_example :
    ((get_url (λ h. h) (λ req. ok broken) options context 5 12 (some request) (some journal)).0
      ≡ ok (
        record broken { body = record { bytes = codes "{\"data\":"; fault = none } },
        codes "{\"data\":",
      ))
    × ((get_url {D = ℕ} (λ h. h) (λ req. ok broken) options context 5 12 (some request) none).0
        ≡ err (read_body broken (codes "connection reset")))
get_url_hides_fault_example =
    get_url_hides_fault (λ h. h) (λ req. ok broken) options context 5 12 request journal broken
      (codes "connection reset") refl refl (omega arith)

-- A cipher that puts its key before a text.
abbrev toy : Ciphers Text
toy = record {
  new_gcm = λ key. some key;
  nonce_size = λ key. 12;
  seal = λ key nonce plaintext. key ++ plaintext;
  open_sealed = λ key nonce sealed. strip_prefix key sealed;
  encode = λ s. s;
  decode = λ s. some s;
}

toy-IsAead : IsAead toy
unfolding strip_prefix
toy-IsAead = record {
  open_seal = λ key nonce plaintext. strip_prefix-append key plaintext;
  open_only = λ key nonce sealed plaintext opened. strip_prefix-eq-some key sealed plaintext opened;
  decode_encode = λ s. refl;
}

decrypted : decrypt toy (codes "key") (codes "0123456789abkeytext") ≡ ok (codes "text")
unfolding decrypt strip_prefix
decrypted = refl
