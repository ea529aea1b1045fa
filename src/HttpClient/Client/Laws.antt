-- ===== src/HttpClient/Client/Laws.antt =====
-- What the outgoing client hands to its caller, and what it records.
use wapgo.Base.{
  take_all, ℕ, ◌≤◌, ◌<◌, ◌≡◌, Option, none, some, length, length-take, Result, ok, err, arith,
  Result-cases, inl, inr,
}
use wapgo.Base.Int.{pos_part}
use wapgo.Base.Text.{Text}
use wapgo.Base.Dict.{Dict}
use wapgo.Journal.Record.{Journal, add_third_party}
use wapgo.HttpClient.Client.{
  Options, Request, Response, Context, limit_reader, prepared, do_request, get_url, read_body,
}

module _ {D : Type 0} (inject : Dict Text → Dict Text) (send : Request → Result Text Response) where
  -- The journal does not change what a caller of `Get` gets, unless the body is broken off: if the
  -- server's answer has a body without a fault, the result is the same with a journal and without.
  pub get_url_alike :
      (opts : Options) (ctx : Context) (started latency : ℕ) (req : Request) (j : Journal D)
      (resp : Response)
      → send (prepared inject ctx req) ≡ ok resp
      → resp.body.fault ≡ none
      → (get_url inject send opts ctx started latency (some req) (some j)).0
        ≡ (get_url {D = D} inject send opts ctx started latency (some req) none).0
  unfolding get_url do_request limit_reader add_third_party
  get_url_alike opts ctx started latency req j resp answered whole =
      rw (answered, do_request) (ground arith)

  -- With a journal a broken body goes unnoticed: if the connection fails within the cap, `Get`
  -- returns the part that arrived as if it were whole, where without a journal it returns the
  -- fault.
  pub get_url_hides_fault :
      (opts : Options) (ctx : Context) (started latency : ℕ) (req : Request) (j : Journal D)
      (resp : Response) (e : Text)
      → send (prepared inject ctx req) ≡ ok resp
      → resp.body.fault ≡ some e
      → length resp.body.bytes < pos_part opts.max_response_bytes
      → ((get_url inject send opts ctx started latency (some req) (some j)).0
          ≡ ok (
            record resp { body = record { bytes = resp.body.bytes; fault = none } },
            resp.body.bytes,
          ))
        × ((get_url {D = D} inject send opts ctx started latency (some req) none).0
            ≡ err (read_body resp e))
  unfolding get_url do_request limit_reader add_third_party
  get_url_hides_fault opts ctx started latency req j resp e answered broken within =
      let whole = take_all resp.body.bytes (pos_part opts.max_response_bytes) (omega arith) in
      (
        rw (answered, do_request) (ground (arith, whole)),
        rw (answered, do_request) (ground (arith, whole)),
      )

  -- Whatever the server sends, no more than the configured number of bytes reaches the caller, with
  -- or without a journal.
  pub get_url_bounds :
      (opts : Options) (ctx : Context) (started latency : ℕ) (req : Option Request)
      (j : Option (Journal D)) (r : Response) (bytes : Text)
      → (get_url inject send opts ctx started latency req j).0 ≡ ok (r, bytes)
      → length bytes ≤ pos_part opts.max_response_bytes
  unfolding get_url do_request limit_reader add_third_party
  get_url_bounds opts ctx started latency none j r bytes e = cc
  get_url_bounds opts ctx started latency (some req) none r bytes e =
      elim (Result-cases (send (prepared inject ctx req))) [
        | inl (resp, answered) ↦
            ground (arith, length-take (pos_part opts.max_response_bytes) resp.body.bytes)
        | inr (f, refused) ↦ cc
      ]
  get_url_bounds opts ctx started latency (some req) (some j) r bytes e =
      elim (Result-cases (send (prepared inject ctx req))) [
        | inl (resp, answered) ↦
            ground (arith, length-take (pos_part opts.max_response_bytes) resp.body.bytes)
        | inr (f, refused) ↦ cc
      ]
