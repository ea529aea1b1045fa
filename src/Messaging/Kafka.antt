-- ===== src/Messaging/Kafka.antt =====
-- The loop of `Start` in pkg/messaging/kafka/consumer.go, over the events of one partition: what
-- `FetchMessage` returns and how the handler and the commit end. Logging, tracing and the journal
-- are left out. The group's committed offset is the broker's: kafka-go commits the offset after the
-- message's, whatever was committed before.
pub mod Health
pub mod Laws
use wapgo.Base.{ℕ, suc, zero, ◌+◌, Bool, true, false, List, [], ◌∷◌, ◌++◌, if◌then◌else◌}
use wapgo.Messaging.Backoff.{second, doubled}

-- A fetch that fails, with whether the context is over, at once or during the wait; or a message
-- with its offset, whether the handler succeeds, and whether the commit does.
pub data Event : Type 0 where
  fetch_failed : Bool → Bool → Event
  fetched : ℕ → Bool → Bool → Event

pub record Consumer : Type 0 where
  pub bo : ℕ
  pub handled : List ℕ
  pub failed : List ℕ
  pub committed : ℕ
  pub stopped : Bool

-- The loop's body after a message is fetched.
unfoldable pub process : ℕ → Bool → Bool → Consumer → Consumer
process offset handler_ok commit_ok c =
    let c' = record c { bo = second; handled = c.handled ++ offset ∷ [] } in
    if handler_ok
    then (if commit_ok then record c' { committed = offset + 1 } else c')
    else record c' { failed = c.failed ++ offset ∷ [] }

unfoldable pub step : Event → Consumer → Consumer
unfolding process doubled
step (fetch_failed over cancelled) c =
    if over
    then record c { stopped = true }
    else (if cancelled then record c { stopped = true } else record c { bo = doubled c.bo })
step (fetched offset handler_ok commit_ok) c = process offset handler_ok commit_ok c

-- What `Start` begins with, in a new process.
abbrev pub begin : ℕ → Consumer
begin committed = record {
  bo = second;
  handled = [];
  failed = [];
  committed = committed;
  stopped = false;
}

-- `Start`, until the events or the context end.
unfoldable pub start : List Event → Consumer → Consumer
unfolding step
start [] c = c
start (e ∷ es) c = let rest = start es (step e c) in if c.stopped then c else rest
