-- ===== src/Messaging/RabbitMq/Subscribe.antt =====
-- `Subscribe` of pkg/messaging/rabbitmq/consumer.go: what happens to it, as a list of the rounds of
-- its loop. Logging is left out. A deferred or ignored error of `ch.Close` changes nothing.
pub mod Laws
pub mod Persist
use wapgo.Base.{
  ℕ, ◌+◌, Bool, true, false, ◌||◌, Option, none, some, List, [], ◌∷◌, ◌++◌, if◌then◌else◌,
}
use wapgo.Base.Text.{Text}
use wapgo.Messaging.Backoff.{second, sleep_backoff}
use wapgo.Messaging.RabbitMq.{Arrival, Stop, finished, broken, Settled, drain}
use wapgo.Messaging.RabbitMq.Topology.{Declaration, Consumer, set_up}

-- What one round meets: whether the context has ended when it is asked, at the start and after
-- `drain`; whether a channel can be opened, what the broker lets it declare, whether `Consume`
-- succeeds, what `drain` selects; and whether the context ends while the round's last wait is on.
pub record Round : Type 0 where
  pub ended_before : Bool
  pub channel_opens : Bool
  pub takes : Declaration → Bool
  pub consume_ok : Bool
  pub arrivals : List Arrival
  pub ended_after : Bool
  pub cut_short : Bool

-- What was done: the waits that were begun (the last first), channels opened and closed, what the
-- broker has been told to have, and what was settled.
pub record Done : Type 0 where
  pub waits : List ℕ
  pub opened : ℕ
  pub closed : ℕ
  pub declared : List Declaration
  pub settled : Settled

-- After a round the loop has returned, stands in `drain`, or goes on with a wait to come.
pub data Next : Type 0 where
  returned draining : Next
  again : ℕ → Next

-- `if !sleepBackoff(ctx, &bo) { return nil }`
unfoldable pub pause : Bool → ℕ → Done → Next × Done
pause cut_short bo d =
    let (slept, bo') = sleep_backoff cut_short bo in
    (if slept then again bo' else returned, record d { waits = bo ∷ d.waits })

abbrev pub close_channel : Done → Done
close_channel d = record d { closed = d.closed + 1 }

-- A `drain` that returned because the context has ended.
abbrev pub is_finished : Stop → Bool
is_finished finished = true
is_finished broken = false

-- What follows `drain`: the channel is closed, and the wait starts from a second again.
unfoldable pub after_drain : Round → Bool → Done → Next × Done
after_drain r ended d =
    if ended || r.ended_after
    then (returned, close_channel d)
    else pause r.cut_short second (close_channel d)

unfoldable pub consume : Round → Done → Next × Done
consume r d =
    let (stop, settled) = drain r.arrivals d.settled in
    let e = record d { settled = settled } in
    if r.consume_ok
    then (elim stop [ none ↦ (draining, e) | some s ↦ after_drain r (is_finished s) e ])
    else after_drain r false d

unfoldable pub round : Consumer → Text → Text → Round → ℕ → Done → Next × Done
round c queue key r bo d =
    if r.ended_before
    then (returned, d)
    else (if r.channel_opens
        then (let (ready, declared) = set_up c queue key r.takes d.declared in
            let e = record d { opened = d.opened + 1; declared = declared } in
            if ready then consume r e else pause r.cut_short bo (close_channel e))
        else pause r.cut_short bo d)

-- What a round leaves to the next ones.
abbrev pub after_round : Next × Done → (ℕ → Done → Next × Done) → Next × Done
after_round (returned, d) loop = (returned, d)
after_round (draining, d) loop = (draining, d)
after_round (again bo, d) loop = loop bo d

-- The loop over the rounds that happen.
unfoldable pub rounds : Consumer → Text → Text → List Round → ℕ → Done → Next × Done
rounds c queue key [] bo d = (again bo, d)
rounds c queue key (r ∷ rs) bo d = after_round (round c queue key r bo d) (rounds c queue key rs)

abbrev pub nothing_done : List Declaration → Done
nothing_done declared = record {
  waits = [];
  opened = 0;
  closed = 0;
  declared = declared;
  settled = record { acked = []; dead_lettered = [] };
}

unfoldable pub subscribe : Consumer → Text → Text → List Declaration → List Round → Next × Done
subscribe c queue key declared rs = rounds c queue key rs second (nothing_done declared)
