-- ===== src/HttpClient/Client.antt =====
-- pkg/httpclient/base_client.go and user_client.go. What `http.Client.Do` answers (the transport
-- chain) is the argument `send`, and so is what OpenTelemetry adds to the headers. A response's
-- body is the bytes that it has and what ends it: the end of the stream, or a fault of the
-- connection that a further read meets. Times are numbers; `started` and `latency` are the readings
-- that `Do` makes.
pub mod Laws
use wapgo.Base.{
  ℕ, ◌*◌, Bool, true, false, Option, none, some, List, [], ◌∷◌, ◌++◌, length, take, ltb, ◌==◌,
  if◌then◌else◌, Result, ok, err,
}
use wapgo.Base.Int.{ℤ, pos, negsuc, pos_part}
use wapgo.Base.Text.{Text, codes, text_eq}
use wapgo.Base.Dict.{Dict, lookup, insert}
use wapgo.Journal.Redact.{cap_body}
use wapgo.Journal.Record.{ThirdParty, Journal, CallSummary, Line, add_third_party}

-- Durations are in nanoseconds.
pub record Options : Type 0 where
  pub timeout : ℤ
  pub allowed_hosts : List Text
  pub allow_private : Bool
  pub max_response_bytes : ℤ
  pub max_retries : ℤ
  pub cb_consecutive_failures : ℕ
  pub cb_timeout : ℤ
  pub log_body_max_bytes : ℤ

abbrev pub seconds : ℕ → ℤ
seconds n = pos (n * 1_000_000_000)

-- `if x == 0 { x = d }`
abbrev pub default_to : ℤ → ℤ → ℤ
default_to d (pos n) = if n == 0 then d else pos n
default_to d (negsuc n) = negsuc n

unfoldable pub apply_defaults : Options → Options
apply_defaults o = record o {
  timeout = default_to (seconds 5) o.timeout;
  max_response_bytes = default_to (pos 10_485_760) o.max_response_bytes;
  max_retries = default_to (pos 3) o.max_retries;
  cb_consecutive_failures = if o.cb_consecutive_failures == 0 then 5 else o.cb_consecutive_failures;
  cb_timeout = default_to (seconds 30) o.cb_timeout;
  log_body_max_bytes = default_to (pos 16384) o.log_body_max_bytes;
}

-- `req.GetBody`: nil, failing, or giving a copy of the body.
pub data BodyCopy : Type 0 where
  no_get_body get_body_fails : BodyCopy
  get_body : Text → BodyCopy

pub record Request : Type 0 where
  pub method : Text
  pub url : Text
  pub host : Text
  pub headers : Dict Text
  pub body : BodyCopy

-- A body, and the fault that ends it, if one does.
pub record Body : Type 0 where
  pub bytes : Text
  pub fault : Option Text

pub record Response : Type 0 where
  pub status_code : ℕ
  pub content_type : Text
  pub body : Body

-- What `Do` reads from the context besides the journal.
pub record Context : Type 0 where
  pub request_id : Text
  pub authorization : Text

-- `io.LimitReader(body, n)`: the stream ends at the limit, and a fault behind it is not met.
unfoldable pub limit_reader : ℤ → Body → Body
limit_reader n b = record {
  bytes = take (pos_part n) b.bytes;
  fault = if ltb (length b.bytes) (pos_part n) then b.fault else none;
}

-- The value of a header, `""` where there is none.
abbrev pub header : Text → Dict Text → Text
header k h = elim (lookup k h) [ none ↦ [] | some v ↦ v ]

unfoldable pub captured_request_body : Options → Request → Text
unfolding cap_body lookup
captured_request_body opts req = elim req.body [
  | no_get_body ↦ []
  | get_body_fails ↦ []
  | get_body b ↦
      cap_body (take (pos_part opts.max_response_bytes) b)
        (header (codes "Content-Type") req.headers) opts.log_body_max_bytes
]

unfoldable pub set_header : Text → Text → Request → Request
set_header k v req = if text_eq v [] then req else record req { headers = insert k v req.headers }

-- The request as it is sent.
unfoldable pub prepared : (Dict Text → Dict Text) → Context → Request → Request
unfolding set_header
prepared inject ctx req =
    let sent =
      set_header (codes "Authorization") ctx.authorization
        (set_header (codes "X-Request-Id") ctx.request_id req) in
    record sent { headers = inject sent.headers }

pub data GetError : Type 0 where
  build_request : GetError
  no_response : Text → GetError
  read_body : Response → Text → GetError

pub data UserError : Type 0 where
  user_not_found : UserError
  get_failed : GetError → UserError
  unexpected_status : ℕ → UserError
  decode_failed : UserError

-- What the journal keeps of a call.
abbrev pub entry : Options → Request → ℕ → ℕ → Result Text Response → ThirdParty
entry opts req started latency answer = record {
  name = [];
  method = req.method;
  url = req.url;
  host = req.host;
  status = elim answer [ ok resp ↦ resp.status_code | err e ↦ 0 ];
  latency_ms = latency;
  request_body = captured_request_body opts req;
  response_body = elim answer [
    | ok resp ↦
        cap_body (limit_reader opts.max_response_bytes resp.body).bytes resp.content_type
          opts.log_body_max_bytes
    | err e ↦ []
  ];
  error = elim answer [ ok resp ↦ [] | err e ↦ e ];
  started_at = started;
}

module _ {D : Type 0} (inject : Dict Text → Dict Text) (send : Request → Result Text Response) where
  -- The body that the caller gets: with a journal it was read up to the limit, and what ended it is
  -- forgotten.
  abbrev pub handed_on : Options → Option (Journal D) → Response → Response
  handed_on opts none resp = record resp { body = limit_reader opts.max_response_bytes resp.body }
  handed_on opts (some j) resp = record resp {
    body = record { bytes = (limit_reader opts.max_response_bytes resp.body).bytes; fault = none };
  }

  -- `Client.Do`: the answer, the journal after it, and the lines of thirdparty.log.
  unfoldable pub do_request :
      Options
      → Context
      → ℕ
      → ℕ
      → Request
      → Option (Journal D)
      → Result Text Response × Option (Journal D) × List (Line CallSummary)
  unfolding prepared
  do_request opts ctx started latency req j =
      let sent = prepared inject ctx req in
      let answer = send sent in
      let (j', lines) = add_third_party (entry opts sent started latency answer) j in
      (elim answer [ ok resp ↦ ok (handed_on opts j resp) | err e ↦ err e ], j', lines)

  -- `Client.Get`, of a URL that `NewRequest` makes a request of or refuses.
  unfoldable pub get_url :
      Options
      → Context
      → ℕ
      → ℕ
      → Option Request
      → Option (Journal D)
      → Result GetError (Response × Text) × Option (Journal D) × List (Line CallSummary)
  unfolding do_request
  get_url opts ctx started latency none j = (err build_request, j, [])
  get_url opts ctx started latency (some req) j =
      let (answer, j', lines) = do_request opts ctx started latency req j in
      (
        elim answer [
          | err e ↦ err (no_response e)
          | ok resp ↦ elim resp.body.fault [
            | none ↦ ok (resp, resp.body.bytes)
            | some e ↦ err (read_body resp e)
          ]
        ],
        j',
        lines,
      )

  -- `UserClient.GetUser`, over the decoding of the envelope.
  unfoldable pub get_user :
      {U : Type 0}
      → (Text → Option U)
      → (Text → Option Request)
      → Options
      → Context
      → ℕ
      → ℕ
      → Text
      → Text
      → Option (Journal D)
      → Result UserError U × Option (Journal D) × List (Line CallSummary)
  unfolding get_url
  get_user decode new_request opts ctx started latency base_url id j =
      let (answer, j', lines) =
        get_url opts ctx started latency (new_request (base_url ++ codes "/users/" ++ id)) j in
      (
        elim answer [
          | err e ↦ err (get_failed e)
          | ok got ↦
              if got.0.status_code == 200
              then (elim (decode got.1) [ none ↦ err decode_failed | some u ↦ ok u ])
              else (if got.0.status_code == 404
                  then err user_not_found
                  else err (unexpected_status got.0.status_code))
        ],
        j',
        lines,
      )
