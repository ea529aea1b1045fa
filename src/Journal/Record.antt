-- ===== src/Journal/Record.antt =====
-- pkg/journal/journal.go: the record of one request or message, and the lines of thirdparty.log and
-- trace.log. A `*Journal` that may be nil is an `Option`. Custom data are a type `D`, times are
-- numbers, and a call takes the reading of the clock that it makes. The mutex makes the change of
-- the record atomic, but a line is written after it is released: `add_third_party` and `add_trace`
-- are calls that nothing interrupts, and Interleaved takes third-party calls apart. zerolog's other
-- fields are left out.
pub mod Laws
pub mod Interleaved
use wapgo.Base.{ℕ, Option, none, some, List, [], ◌∷◌, ◌++◌}
use wapgo.Base.Text.{Text, codes}

pub data Kind : Type 0 where
  api consumer : Kind

abbrev pub kind_text : Kind → Text
kind_text api = codes "api"
kind_text consumer = codes "consumer"

pub record ThirdParty : Type 0 where
  pub name : Text
  pub method : Text
  pub url : Text
  pub host : Text
  pub status : ℕ
  pub latency_ms : ℕ
  pub request_body : Text
  pub response_body : Text
  pub error : Text
  pub started_at : ℕ

pub record Trace (D : Type 0) : Type 0 where
  pub name : Text
  pub payload : D
  pub at : ℕ

pub record Journal (D : Type 0) : Type 0 where
  pub kind : Kind
  pub request_id : Text
  pub trace_id : Text
  pub third_party : List ThirdParty
  pub traces : List (Trace D)

-- What a line of thirdparty.log says of the call.
pub record CallSummary : Type 0 where
  pub name : Text
  pub method : Text
  pub url : Text
  pub host : Text
  pub status : ℕ
  pub latency_ms : ℕ
  pub error : Text

-- A line, with the ids that correlate it.
pub record Line (A : Type 0) : Type 0 where
  pub request_id : Text
  pub trace_id : Text
  pub what : A

abbrev pub summary : ThirdParty → CallSummary
summary tp = record {
  name = tp.name;
  method = tp.method;
  url = tp.url;
  host = tp.host;
  status = tp.status;
  latency_ms = tp.latency_ms;
  error = tp.error;
}

module _ {D : Type 0} where
  unfoldable pub start : Kind → Journal D
  start kind = record { kind = kind; request_id = []; trace_id = []; third_party = []; traces = [] }

  unfoldable pub journal_kind : Option (Journal D) → Text
  journal_kind none = []
  journal_kind (some j) = kind_text j.kind

  unfoldable pub journal_request_id : Option (Journal D) → Text
  journal_request_id none = []
  journal_request_id (some j) = j.request_id

  unfoldable pub journal_trace_id : Option (Journal D) → Text
  journal_trace_id none = []
  journal_trace_id (some j) = j.trace_id

  unfoldable pub set_request_id : Text → Option (Journal D) → Option (Journal D)
  set_request_id id none = none
  set_request_id id (some j) = some (record j { request_id = id })

  unfoldable pub set_trace_id : Text → Option (Journal D) → Option (Journal D)
  set_trace_id id none = none
  set_trace_id id (some j) = some (record j { trace_id = id })

  -- The new record, and the lines that are written.
  unfoldable pub add_third_party :
      ThirdParty → Option (Journal D) → Option (Journal D) × List (Line CallSummary)
  add_third_party tp none = (none, [])
  add_third_party tp (some j) = (
    some (record j { third_party = j.third_party ++ tp ∷ [] }),
    record { request_id = j.request_id; trace_id = j.trace_id; what = summary tp } ∷ [],
  )

  unfoldable pub add_trace :
      Text → D → ℕ → Option (Journal D) → Option (Journal D) × List (Line (Text × D))
  add_trace name payload now none = (none, [])
  add_trace name payload now (some j) = (
    some (record j {
      traces = j.traces ++ record { name = name; payload = payload; at = now } ∷ [];
    }),
    record { request_id = j.request_id; trace_id = j.trace_id; what = (name, payload) } ∷ [],
  )

  unfoldable pub third_parties : Option (Journal D) → List ThirdParty
  third_parties none = []
  third_parties (some j) = j.third_party

  unfoldable pub traces_of : Option (Journal D) → List (Trace D)
  traces_of none = []
  traces_of (some j) = j.traces
