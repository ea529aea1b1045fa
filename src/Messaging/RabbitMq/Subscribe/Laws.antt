-- ===== src/Messaging/RabbitMq/Subscribe/Laws.antt =====
-- What a subscription keeps, over any number of rounds.
use wapgo.Base.{
  ℕ, ◌+◌, ◌≤◌, ◌≡◌, Bool, true, false, ◌||◌, Option, none, some, List, [], ◌∷◌, All, if_both, arith,
}
use wapgo.Base.Text.{Text}
use wapgo.Messaging.Backoff.{second, max_wait, doubled, sleep_backoff}
use wapgo.Messaging.RabbitMq.{Stop, drain, Settled}
use wapgo.Messaging.RabbitMq.Topology.{Consumer, set_up, IsSafe, set_up-IsSafe}
use wapgo.Messaging.RabbitMq.Subscribe.{
  Round, Done, Next, returned, draining, again, pause, close_channel, is_finished, after_drain,
  after_round, consume, round, rounds,
}

abbrev pub IsWait : ℕ → Type 0
IsWait bo = (second ≤ bo) × (bo ≤ max_wait)

-- The channels that are open: one while the loop stands in `drain`.
abbrev pub in_use : Next → ℕ
in_use returned = 0
in_use draining = 1
in_use (again bo) = 0

abbrev next_wait : Next → ℕ
next_wait returned = second
next_wait draining = second
next_wait (again bo) = bo

pub record IsSound (next : Next) (d : Done) : Type 0 where
  pub balanced : d.opened ≡ d.closed + in_use next
  pub waits_ok : All IsWait d.waits
  pub next_ok : IsWait (next_wait next)
  pub topology : IsSafe d.declared

doubled-IsWait : (bo : ℕ) → IsWait bo → IsWait (doubled bo)
unfolding doubled
doubled-IsWait bo h = ground arith

pause-IsSound :
    (cut_short : Bool) (bo : ℕ) (d : Done)
    → IsSound (again bo) d
    → IsSound (pause cut_short bo d).0 (pause cut_short bo d).1
unfolding pause sleep_backoff
pause-IsSound true bo d h = ground arith
pause-IsSound false bo d h = ground (arith, doubled-IsWait bo h.next_ok)

abbrev pub AfterRound : Next × Done → Type 0
AfterRound out = IsSound out.0 out.1

-- A state with one open channel.
abbrev IsReady : Done → Type 0
IsReady d = (d.opened ≡ d.closed + 1) × All IsWait d.waits × IsSafe d.declared

after_drain-IsSound :
    (r : Round) (ended : Bool) (d : Done) → IsReady d → AfterRound (after_drain r ended d)
unfolding after_drain
after_drain-IsSound r ended d h =
    if_both AfterRound (ended || r.ended_after) _ _
      (record { balanced = omega arith; waits_ok = h.1; next_ok = omega arith; topology = h.2 })
      (pause-IsSound r.cut_short second (close_channel d)
        (record { balanced = omega arith; waits_ok = h.1; next_ok = omega arith; topology = h.2 }))

consume-IsSound : (r : Round) (d : Done) → IsReady d → AfterRound (consume r d)
unfolding consume
consume-IsSound r d h =
    if_both AfterRound r.consume_ok _ _ (drained (drain r.arrivals d.settled))
      (after_drain-IsSound r false d h)
  where
    drained :
        (out : Option Stop × Settled)
        → AfterRound (elim out.0 [
          | none ↦ (draining, record d { settled = out.1 })
          | some s ↦ after_drain r (is_finished s) (record d { settled = out.1 })
        ])
    drained (none, settled) = record {
      balanced = omega arith;
      waits_ok = h.1;
      next_ok = omega arith;
      topology = h.2;
    }
    drained (some stop, settled) =
        after_drain-IsSound r (is_finished stop) (record d { settled = settled }) h

after_round-IsSound :
    (out : Next × Done) (loop : ℕ → Done → Next × Done)
    → AfterRound out
    → ((bo : ℕ) (d : Done) → IsSound (again bo) d → AfterRound (loop bo d))
    → AfterRound (after_round out loop)
after_round-IsSound (returned, d) loop h k = h
after_round-IsSound (draining, d) loop h k = h
after_round-IsSound (again bo, d) loop h k = k bo d h

module _ (c : Consumer) (queue key : Text) where
  round-IsSound :
      (r : Round) (bo : ℕ) (d : Done) → IsSound (again bo) d → AfterRound (round c queue key r bo d)
  unfolding round
  round-IsSound r bo d h =
      let set_safe = set_up-IsSafe c queue key r.takes d.declared h.topology in
      let e = record d {
        opened = d.opened + 1;
        declared = (set_up c queue key r.takes d.declared).1;
      } in
      if_both AfterRound r.ended_before _ _
        (record {
          balanced = h.balanced;
          waits_ok = h.waits_ok;
          next_ok = omega arith;
          topology = h.topology;
        })
        (if_both AfterRound r.channel_opens _ _
          (if_both AfterRound (set_up c queue key r.takes d.declared).0 _ _
            (consume-IsSound r e (omega arith, h.waits_ok, set_safe))
            (pause-IsSound r.cut_short bo (close_channel e) (record {
              balanced = omega arith;
              waits_ok = h.waits_ok;
              next_ok = h.next_ok;
              topology = set_safe;
            })))
          (pause-IsSound r.cut_short bo d h))

  -- A subscription never leaks and never storms: however many rounds it goes through, and whatever
  -- fails in them, every channel that it opened is closed again, except the one that it consumes
  -- from while it does; every wait is between one second and thirty; and every queue that it
  -- declared or bound, if it is no dead-letter queue itself, sends its rejected messages to a
  -- dead-letter exchange that was declared before it with a queue that is bound to it.
  pub rounds-IsSound :
      (rs : List Round) (bo : ℕ) (d : Done)
      → IsSound (again bo) d
      → AfterRound (rounds c queue key rs bo d)
  unfolding rounds
  rounds-IsSound [] bo d h = h
  rounds-IsSound (r ∷ rs) bo d h =
      after_round-IsSound (round c queue key r bo d) (rounds c queue key rs)
        (round-IsSound r bo d h) (rounds-IsSound rs)
