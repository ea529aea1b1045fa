-- ===== src/Messaging/RabbitMq.antt =====
-- `handle` and `drain` of pkg/messaging/rabbitmq/consumer.go: once `Consume` has succeeded,
-- deliveries in order, each with the handler's outcome, until the context ends or the channel
-- closes. A message that is rejected without requeue goes to the dead-letter queue (`declareQueues`
-- names its exchange). Logging, tracing and the journal are left out.
pub mod Connection
pub mod Laws
pub mod Publisher
pub mod Subscribe
pub mod Topology
use wapgo.Base.{ℕ, Bool, true, false, Option, none, some, List, [], ◌∷◌, ◌++◌, if◌then◌else◌}

-- What `drain` selects next.
pub data Arrival : Type 0 where
  context_done channel_closed deliveries_closed : Arrival
  delivery : ℕ → Bool → Arrival

pub data Stop : Type 0 where
  finished broken : Stop

pub record Settled : Type 0 where
  pub acked : List ℕ
  pub dead_lettered : List ℕ

unfoldable pub handle : ℕ → Bool → Settled → Settled
handle tag handler_ok s =
    if handler_ok
    then record s { acked = s.acked ++ tag ∷ [] }
    else record s { dead_lettered = s.dead_lettered ++ tag ∷ [] }

-- `none` while the channel stays quiet.
unfoldable pub drain : List Arrival → Settled → Option Stop × Settled
unfolding handle
drain [] s = (none, s)
drain (context_done ∷ next) s = (some finished, s)
drain (channel_closed ∷ next) s = (some broken, s)
drain (deliveries_closed ∷ next) s = (some broken, s)
drain (delivery tag handler_ok ∷ next) s = drain next (handle tag handler_ok s)
