-- ===== src/Messaging/RabbitMq/Subscribe/Persist.antt =====
-- A subscription ends with its context only.
use wapgo.Base.{
  ℕ, ◌+◌, ◌≡◌, ◌≢◌, refl, Bool, true, false, ◌||◌, some, List, [], ◌∷◌, any, arith, Option-cases,
  inl, inr, ◌++◌, all, ap,
}
use wapgo.Base.Text.{Text}
use wapgo.Messaging.Backoff.{second, sleep_backoff}
use wapgo.Messaging.RabbitMq.{
  Arrival, context_done, channel_closed, deliveries_closed, delivery, Stop, finished, broken,
  handle, drain, Settled,
}
use wapgo.Messaging.RabbitMq.Topology.{Consumer, set_up}
use wapgo.Messaging.RabbitMq.Subscribe.{
  Round, Done, Next, returned, draining, again, pause, close_channel, is_finished, after_drain,
  after_round, consume, round, rounds,
}

-- Whether the context ends while `drain` selects.
abbrev pub finishes : List Arrival → Bool
finishes [] = false
finishes (context_done ∷ next) = true
finishes (channel_closed ∷ next) = false
finishes (deliveries_closed ∷ next) = false
finishes (delivery tag handler_ok ∷ next) = finishes next

-- Whether the context ends in a round.
abbrev pub ends : Round → Bool
ends r = r.ended_before || (r.ended_after || (r.cut_short || finishes r.arrivals))

drain-finishes :
    (next : List Arrival) (s : Settled) (stop : Stop)
    → (drain next s).0 ≡ some stop
    → is_finished stop ≡ finishes next
unfolding drain
drain-finishes [] s stop e = cc
drain-finishes (context_done ∷ next) s stop e = ground arith
drain-finishes (channel_closed ∷ next) s stop e = ground arith
drain-finishes (deliveries_closed ∷ next) s stop e = ground arith
drain-finishes (delivery tag handler_ok ∷ next) s stop e =
    drain-finishes next (handle tag handler_ok s) stop e

pause_goes_on : (bo : ℕ) (d : Done) → (pause false bo d).0 ≢ returned
unfolding pause sleep_backoff
pause_goes_on bo d = cc

after_drain_goes_on :
    (r : Round) (d : Done)
    → r.ended_after ≡ false
    → r.cut_short ≡ false
    → (after_drain r false d).0 ≢ returned
unfolding after_drain
after_drain_goes_on r d h k = ground (arith, pause_goes_on second (close_channel d))

consume_goes_on : (r : Round) (d : Done) → ends r ≡ false → (consume r d).0 ≢ returned
unfolding consume
consume_goes_on r d h = elim (Option-cases (drain r.arrivals d.settled).0) [
  | inl quiet ↦ ground (arith, after_drain_goes_on r d)
  | inr (stop, stopped) ↦ ground (
    arith,
    drain-finishes r.arrivals d.settled stop stopped,
    after_drain_goes_on r d,
    after_drain_goes_on r (record d { settled = (drain r.arrivals d.settled).1 }),
  )
]

-- Whether the loop has rounds to come.
abbrev pub goes_on : Next → Bool
goes_on returned = false
goes_on draining = false
goes_on (again bo) = true

after_round_persists :
    (out : Next × Done) (loop : ℕ → Done → Next × Done)
    → out.0 ≢ returned
    → ((bo : ℕ) (d : Done) → (loop bo d).0 ≢ returned)
    → (after_round out loop).0 ≢ returned
after_round_persists (returned, d) loop h k = h
after_round_persists (draining, d) loop h k = h
after_round_persists (again bo, d) loop h k = k bo d

-- Whether what `drain` meets ends it: the context, the channel or the stream of deliveries is over.
abbrev pub selects : Round → Bool
selects r = any (λ a. elim a [ delivery tag handler_ok ↦ false | _ ↦ true ]) r.arrivals

drain_selects :
    (next : List Arrival) (s : Settled)
    → any (λ a. elim a [ delivery tag handler_ok ↦ false | _ ↦ true ]) next ≡ true
    → (stop : Stop) × ((drain next s).0 ≡ some stop)
unfolding drain
drain_selects [] s h = cc
drain_selects (context_done ∷ next) s h = (finished, refl)
drain_selects (channel_closed ∷ next) s h = (broken, refl)
drain_selects (deliveries_closed ∷ next) s h = (broken, refl)
drain_selects (delivery tag handler_ok ∷ next) s h = drain_selects next (handle tag handler_ok s) h

pause_left : (cut_short : Bool) (bo : ℕ) (d : Done) → (pause cut_short bo d).0 ≢ draining
unfolding pause sleep_backoff
pause_left true bo d = cc
pause_left false bo d = cc

after_drain_left : (r : Round) (ended : Bool) (d : Done) → (after_drain r ended d).0 ≢ draining
unfolding after_drain
after_drain_left r ended d = ground (arith, pause_left r.cut_short second (close_channel d))

consume_left : (r : Round) (d : Done) → selects r ≡ true → (consume r d).0 ≢ draining
unfolding consume
consume_left r d h =
    let (stop, stopped) = drain_selects r.arrivals d.settled h in
    ground (
      arith,
      stopped,
      after_drain_left r false d,
      after_drain_left r (is_finished stop) (record d { settled = (drain r.arrivals d.settled).1 }),
    )

after_round-returned :
    (out : Next × Done) (loop : ℕ → Done → Next × Done)
    → out.0 ≢ draining
    → ((bo : ℕ) (d : Done) → (loop bo d).0 ≡ returned)
    → (after_round out loop).0 ≡ returned
after_round-returned (returned, d) loop h k = refl
after_round-returned (draining, d) loop h k = absurd (h refl)
after_round-returned (again bo, d) loop h k = k bo d

after_round_same :
    (out : Next × Done) (loop other : ℕ → Done → Next × Done)
    → ((bo : ℕ) (d : Done) → (loop bo d).1 ≡ (other bo d).1)
    → (after_round out loop).1 ≡ (after_round out other).1
after_round_same (returned, d) loop other k = refl
after_round_same (draining, d) loop other k = refl
after_round_same (again bo, d) loop other k = k bo d

module _ (c : Consumer) (queue key : Text) where
  rounds_ended :
      (r : Round) (rs : List Round) (bo : ℕ) (d : Done)
      → r.ended_before ≡ true
      → rounds c queue key (r ∷ rs) bo d ≡ (returned, d)
  unfolding rounds round
  rounds_ended r rs bo d h = rw h

  round_left :
      (r : Round) (bo : ℕ) (d : Done) → selects r ≡ true → (round c queue key r bo d).0 ≢ draining
  unfolding round
  round_left r bo d h =
      let declared = (set_up c queue key r.takes d.declared).1 in
      let e = record d { opened = d.opened + 1; declared = declared } in
      ground (
        arith,
        consume_left r e h,
        pause_left r.cut_short bo (close_channel e),
        pause_left r.cut_short bo d,
      )

  round_goes_on :
      (r : Round) (bo : ℕ) (d : Done) → ends r ≡ false → (round c queue key r bo d).0 ≢ returned
  unfolding round
  round_goes_on r bo d h =
      let declared = (set_up c queue key r.takes d.declared).1 in
      let e = record d { opened = d.opened + 1; declared = declared } in
      ground (arith, consume_goes_on r e, pause_goes_on bo (close_channel e), pause_goes_on bo d)

  -- A subscription does not give up: as long as the context does not end, no failure of the broker,
  -- of the setup or of the channel makes `Subscribe` return, however many rounds fail.
  pub rounds_persist :
      (rs : List Round) (bo : ℕ) (d : Done)
      → any ends rs ≡ false
      → (rounds c queue key rs bo d).0 ≢ returned
  unfolding rounds
  rounds_persist [] bo d h = cc
  rounds_persist (r ∷ rs) bo d h =
      after_round_persists (round c queue key r bo d) (rounds c queue key rs)
        (round_goes_on r bo d (ground arith)) (λ bo' e. rounds_persist rs bo' e (ground arith))

  rounds_return :
      (es fs : List Round) (r : Round) (bo : ℕ) (d : Done)
      → all selects es ≡ true
      → r.ended_before ≡ true
      → (rounds c queue key (es ++ r ∷ fs) bo d).0 ≡ returned
  unfolding rounds
  rounds_return [] fs r bo d h over = ap (λ y. y.0) (rounds_ended r fs bo d over)
  rounds_return (e ∷ es) fs r bo d h over =
      after_round-returned (round c queue key e bo d) (rounds c queue key (es ++ r ∷ fs))
        (round_left e bo d (ground arith))
        (λ bo' d'. rounds_return es fs r bo' d' (ground arith) over)

  rounds_add_nothing :
      (es fs : List Round) (r : Round) (bo : ℕ) (d : Done)
      → r.ended_before ≡ true
      → (rounds c queue key (es ++ r ∷ fs) bo d).1 ≡ (rounds c queue key es bo d).1
  unfolding rounds
  rounds_add_nothing [] fs r bo d over = ap (λ y. y.1) (rounds_ended r fs bo d over)
  rounds_add_nothing (e ∷ es) fs r bo d over =
      after_round_same (round c queue key e bo d) (rounds c queue key (es ++ r ∷ fs))
        (rounds c queue key es) (λ bo' d'. rounds_add_nothing es fs r bo' d' over)

  -- A subscription ends with its context: if the context has ended when a round begins, after any
  -- number of rounds of whatever outcome in which `drain` does not go on for good (it meets the end
  -- of the context, of the channel or of the deliveries), then `Subscribe` has returned, and nothing
  -- is done in this round or in any later one.
  pub rounds_stop :
      (es fs : List Round) (r : Round) (bo : ℕ) (d : Done)
      → all selects es ≡ true
      → r.ended_before ≡ true
      → ((rounds c queue key (es ++ r ∷ fs) bo d).0 ≡ returned)
        × ((rounds c queue key (es ++ r ∷ fs) bo d).1 ≡ (rounds c queue key es bo d).1)
  rounds_stop es fs r bo d h over =
      (rounds_return es fs r bo d h over, rounds_add_nothing es fs r bo d over)
