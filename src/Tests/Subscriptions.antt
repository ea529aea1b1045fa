-- ===== src/Tests/Subscriptions.antt =====
-- A subscription that goes through four rounds, and the shared connection of a small broker.
use wapgo.Messaging.Backoff.{sleep_backoff}
use wapgo.Messaging.RabbitMq.{drain}
use wapgo.Messaging.RabbitMq.Subscribe.{after_drain, consume, pause, round}
use wapgo.Messaging.RabbitMq.Topology.{declare_exchanges, declare_queues, set_up}
use wapgo.Base.{◌≡◌, ◌≢◌, refl, Bool, true, false, List, [], ◌∷◌, ◌++◌, arith}
use wapgo.Base.Text.{Text, codes}
use wapgo.Messaging.Backoff.{second}
use wapgo.Messaging.RabbitMq.{context_done, channel_closed, delivery}
use wapgo.Messaging.RabbitMq.Topology.{
  Declaration, exchange, plain_queue, dead_letter_queue, binding, Consumer,
}
use wapgo.Messaging.RabbitMq.Subscribe.{Round, returned, again, rounds, nothing_done}
use wapgo.Messaging.RabbitMq.Subscribe.Laws.{IsSound, AfterRound, rounds-IsSound}
use wapgo.Messaging.RabbitMq.Subscribe.Persist.{rounds_persist, rounds_stop}

abbrev orders : Consumer
orders = record { exchange_name = codes "orders"; dlx = codes "orders.dlx" }

abbrev queue : Text
queue = codes "paid"

abbrev key : Text
key = codes "order.paid"

abbrev takes_all : Declaration → Bool
takes_all d = true

-- A broker that refuses the queue itself.
abbrev takes_most : Declaration → Bool
takes_most (exchange name) = true
takes_most (plain_queue name) = true
takes_most (dead_letter_queue name dlx k) = false
takes_most (binding name k x) = true

-- No channel can be opened.
abbrev unreachable : Round
unreachable = record {
  ended_before = false;
  channel_opens = false;
  takes = takes_all;
  consume_ok = true;
  arrivals = [];
  ended_after = false;
  cut_short = false;
}

abbrev refused : Round
refused = record unreachable { channel_opens = true; takes = takes_most }

-- One message is handled, one is rejected, and the channel breaks.
abbrev broken_off : Round
broken_off = record unreachable {
  channel_opens = true;
  arrivals = delivery 1 true ∷ delivery 2 false ∷ channel_closed ∷ [];
}

abbrev ended : Round
ended = record unreachable { ended_before = true }

abbrev failures : List Round
failures = unreachable ∷ refused ∷ broken_off ∷ []

fresh-IsSound : IsSound (again second) (nothing_done [])
fresh-IsSound = record { balanced = refl; waits_ok = tt; next_ok = omega arith; topology = tt }

failures_settled :
    (rounds orders queue key failures second (nothing_done [])).1.settled.acked ≡ 1 ∷ []
unfolding rounds round pause sleep_backoff set_up declare_exchanges declare_queues consume drain
    after_drain
failures_settled = refl

failures_waits :
    (rounds orders queue key failures second (nothing_done [])).1.waits
    ≡ second ∷ 2_000_000_000 ∷ second ∷ []
unfolding rounds round pause sleep_backoff set_up declare_exchanges declare_queues consume drain
    after_drain
failures_waits = refl

rounds-IsSound_example : AfterRound (rounds orders queue key failures second (nothing_done []))
rounds-IsSound_example =
    rounds-IsSound orders queue key failures second (nothing_done []) fresh-IsSound

rounds_persist_example : (rounds orders queue key failures second (nothing_done [])).0 ≢ returned
rounds_persist_example = rounds_persist orders queue key failures second (nothing_done []) refl

-- The context ends while the last `drain` selects.
abbrev worked : List Round
worked = broken_off ∷ record broken_off { arrivals = delivery 3 true ∷ context_done ∷ [] } ∷ []

rounds_stop_example :
    ((rounds orders queue key (worked ++ ended ∷ failures) second (nothing_done [])).0 ≡ returned)
    × ((rounds orders queue key (worked ++ ended ∷ failures) second (nothing_done [])).1
        ≡ (rounds orders queue key worked second (nothing_done [])).1)
rounds_stop_example =
    rounds_stop orders queue key worked failures ended second (nothing_done []) refl refl
