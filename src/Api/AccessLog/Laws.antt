-- ===== src/Api/AccessLog/Laws.antt =====
-- What a line of api.log shows.
use wapgo.Base.{◌≡◌, refl, false, Option, some, All, map, if◌then◌else◌}
use wapgo.Base.Text.{Text, codes}
use wapgo.Base.Dict.{Dict}
use wapgo.Journal.Redact.Laws.{
  IsMasked, name, SameButSecrets, redact_headers_alike, redact_headers-IsMasked,
  redact_headers-names,
}
use wapgo.Journal.Record.{api, Journal, start, set_request_id, set_trace_id}
use wapgo.Api.AccessLog.{
  AccessLogOptions, Request, Response, access_log, request_body, response_body,
}

module _ {D E : Type 0} (opts : AccessLogOptions) (rid before after : Text)
    (next : Request → Option (Journal D) → E × Response × Option (Journal D)) where
  -- The headers in a line of the access log tell no secret, whatever the handlers behind it do with
  -- the request: the logged request headers of two requests that differ only in the values of
  -- credential headers are the same, in the request and the response the value of every credential
  -- header is masked, and all names are logged, in their order.
  pub access_log_alike :
      (req : Request) (headers : Dict Text)
      → SameButSecrets req.headers headers
      → let (result, resp, l) = access_log opts rid before after req next in
        let (result', resp', l') =
          access_log opts rid before after (record req { headers = headers }) next in
        (l.request_headers ≡ l'.request_headers)
        × All IsMasked l.request_headers
        × All IsMasked l.response_headers
        × (map name l.request_headers ≡ map name req.headers)
        × (map name l.response_headers ≡ map name resp.headers)
  unfolding access_log
  access_log_alike req headers same =
      let (result, resp, j) =
        next req (set_trace_id before (set_request_id rid (some (start api)))) in
      (
        redact_headers_alike req.headers headers same,
        redact_headers-IsMasked req.headers,
        redact_headers-IsMasked resp.headers,
        redact_headers-names req.headers,
        redact_headers-names resp.headers,
      )

  -- Without the capture of bodies no body is logged, the response's status and the handlers' error
  -- are passed on all the same.
  pub access_log_uncaptured :
      (req : Request)
      → opts.capture_bodies ≡ false
      → let (result, resp, l) = access_log opts rid before after req next in
        (l.request_body ≡ codes "[omitted]")
        × (l.response_body ≡ (if resp.is_body_stream then codes "[stream]" else codes "[omitted]"))
        × (l.status ≡ resp.status)
  unfolding access_log request_body response_body
  access_log_uncaptured req off = (rw off, rw off, refl)
