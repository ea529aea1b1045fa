-- ===== src/Messaging/RabbitMq/Laws.antt =====
-- How the RabbitMQ consumer settles its deliveries (pkg/messaging/rabbitmq/consumer.go).
use wapgo.Base.{ℕ, ◌+◌, ◌≡◌, Bool, true, false, List, [], ◌∷◌, ◌++◌, if◌then◌else◌, arith, ◌==◌}
use wapgo.Messaging.RabbitMq.{
  Arrival, context_done, channel_closed, deliveries_closed, delivery, Settled, handle, drain,
}

-- How often a tag stands in a list.
abbrev pub times : ℕ → List ℕ → ℕ
times n [] = 0
times n (m ∷ ms) = (if n == m then 1 else 0) + times n ms

-- How often a tag is delivered before the consumer stops.
abbrev pub delivered : ℕ → List Arrival → ℕ
delivered n [] = 0
delivered n (context_done ∷ next) = 0
delivered n (channel_closed ∷ next) = 0
delivered n (deliveries_closed ∷ next) = 0
delivered n (delivery tag handler_ok ∷ next) = (if n == tag then 1 else 0) + delivered n next

times-append : (n : ℕ) (xs ys : List ℕ) → times n (xs ++ ys) ≡ times n xs + times n ys
times-append n [] ys = omega arith
times-append n (x ∷ xs) ys = omega (arith, times-append n xs ys)

times-handle :
    (n tag : ℕ) (handler_ok : Bool) (s : Settled)
    → times n (handle tag handler_ok s).acked + times n (handle tag handler_ok s).dead_lettered
      ≡ (if n == tag then 1 else 0) + (times n s.acked + times n s.dead_lettered)
unfolding handle
times-handle n tag true s = omega (arith, times-append n s.acked (tag ∷ []))
times-handle n tag false s = omega (arith, times-append n s.dead_lettered (tag ∷ []))

-- Each delivery before the consumer stops is settled exactly once: acknowledged or sent to the
-- dead-letter queue, and nothing else is.
pub drain_settles :
    (n : ℕ) (next : List Arrival) (s : Settled)
    → times n (drain next s).1.acked + times n (drain next s).1.dead_lettered
      ≡ delivered n next + (times n s.acked + times n s.dead_lettered)
unfolding drain
drain_settles n [] s = omega arith
drain_settles n (context_done ∷ next) s = omega arith
drain_settles n (channel_closed ∷ next) s = omega arith
drain_settles n (deliveries_closed ∷ next) s = omega arith
drain_settles n (delivery tag handler_ok ∷ next) s =
    omega (arith, drain_settles n next (handle tag handler_ok s), times-handle n tag handler_ok s)
