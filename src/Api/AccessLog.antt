-- ===== src/Api/AccessLog.antt =====
-- internal/delivery/http/middleware: the access log of access_log.go around a request, `RequestID`
-- of logger.go and `WithBodyLimit` of security.go. What the handlers behind the middleware do is
-- the argument `next`: it gets the request and the journal and leaves its error, the response and the journal. The
-- line's times and addresses are left out.
pub mod Laws
use wapgo.Base.{ℕ, Bool, true, false, Option, none, some, List, [], ltb, length, if◌then◌else◌}
use wapgo.Base.Int.{ℤ, pos, ltb_ℤ}
use wapgo.Base.Text.{Text, codes, text_eq}
use wapgo.Base.Dict.{Dict}
use wapgo.Journal.Redact.{redact_headers, cap_body}
use wapgo.Journal.Record.{
  api, ThirdParty, Trace, Journal, start, set_request_id, set_trace_id, third_parties, traces_of,
}

pub record AccessLogOptions : Type 0 where
  pub body_max_bytes : ℤ
  pub capture_bodies : Bool

pub record Request : Type 0 where
  pub method : Text
  pub url : Text
  pub headers : Dict Text
  pub content_type : Text
  pub body : Text

pub record Response : Type 0 where
  pub status : ℕ
  pub headers : Dict Text
  pub content_type : Text
  pub body : Text
  pub is_body_stream : Bool

-- A line of api.log.
pub record ApiLine (D : Type 0) : Type 0 where
  pub request_id : Text
  pub trace_id : Text
  pub method : Text
  pub url : Text
  pub request_headers : Dict Text
  pub request_body : Text
  pub status : ℕ
  pub response_headers : Dict Text
  pub response_body : Text
  pub thirdparty : List ThirdParty
  pub trace : List (Trace D)

unfoldable pub request_body : AccessLogOptions → Request → Text
unfolding cap_body
request_body opts req =
    if opts.capture_bodies
    then cap_body req.body req.content_type opts.body_max_bytes
    else codes "[omitted]"

unfoldable pub response_body : AccessLogOptions → Response → Text
unfolding cap_body
response_body opts resp =
    if resp.is_body_stream
    then codes "[stream]"
    else (if opts.capture_bodies
        then cap_body resp.body resp.content_type opts.body_max_bytes
        else codes "[omitted]")

abbrev pub line :
    {D : Type 0}
    → AccessLogOptions
    → Text
    → Text
    → Request
    → Response
    → Option (Journal D)
    → ApiLine D
line opts rid trace_id req resp j = record {
  request_id = rid;
  trace_id = trace_id;
  method = req.method;
  url = req.url;
  request_headers = redact_headers req.headers;
  request_body = request_body opts req;
  status = resp.status;
  response_headers = redact_headers resp.headers;
  response_body = response_body opts resp;
  thirdparty = third_parties j;
  trace = traces_of j;
}

module _ {D E : Type 0} where
  -- The trace id before the handlers, or after them if there was none.
  unfoldable pub access_log :
      AccessLogOptions
      → Text
      → Text
      → Text
      → Request
      → (Request → Option (Journal D) → E × Response × Option (Journal D))
      → E × Response × ApiLine D
  unfolding start set_request_id set_trace_id text_eq
  access_log opts rid trace_before trace_after req next =
      let (result, resp, j) =
        next req (set_trace_id trace_before (set_request_id rid (some (start api)))) in
      let trace_id = if text_eq trace_before [] then trace_after else trace_before in
      let j' = if text_eq trace_before [] then set_trace_id trace_after j else j in
      (result, resp, line opts rid trace_id req resp j')

-- The id of a request: the caller's, or a new one.
unfoldable pub request_id : Text → Text → Text
unfolding text_eq
request_id header fresh = if text_eq header [] then fresh else header

-- `none` where the request is passed on.
unfoldable pub with_body_limit : ℤ → Text → Option ℕ
with_body_limit max body = if ltb_ℤ max (pos (length body)) then some 413 else none
