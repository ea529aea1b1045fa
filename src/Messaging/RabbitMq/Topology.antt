-- ===== src/Messaging/RabbitMq/Topology.antt =====
-- `declareExchanges` and `declareQueues` of pkg/messaging/rabbitmq/consumer.go: the declarations in
-- their order, up to the first that the broker refuses.
use wapgo.Base.{
  ◌≡◌, refl, ◌⊎◌, Bool, true, false, ◌&&◌, List, [], ◌∷◌, ◌++◌, if◌then◌else◌, any, arith,
  Bool-cases, inl, inr,
}
use wapgo.Base.Text.{Text, codes, text_eq, text_eq_refl}

-- All are durable, and an exchange is a topic exchange. A queue may name the exchange and the key
-- that its rejected messages are sent to.
pub data Declaration : Type 0 where
  exchange plain_queue : Text → Declaration
  dead_letter_queue : Text → Text → Text → Declaration
  binding : Text → Text → Text → Declaration

pub record Consumer : Type 0 where
  pub exchange_name : Text
  pub dlx : Text

unfoldable pub new_consumer : Text → Consumer
new_consumer name = record { exchange_name = name; dlx = name ++ codes ".dlx" }

-- Declarations, as long as the broker takes them: what it has then (the last first), and whether it
-- took them all.
unfoldable pub declare :
    (Declaration → Bool) → List Declaration → List Declaration → Bool × List Declaration
declare takes [] had = (true, had)
declare takes (d ∷ ds) had =
    let rest = declare takes ds (d ∷ had) in if takes d then rest else (false, had)

unfoldable pub declare_exchanges :
    Consumer → (Declaration → Bool) → List Declaration → Bool × List Declaration
unfolding declare
declare_exchanges c takes had = declare takes (exchange c.exchange_name ∷ exchange c.dlx ∷ []) had

abbrev pub dlq_name : Text → Text
dlq_name queue = queue ++ codes ".dlq"

unfoldable pub declare_queues :
    Consumer → Text → Text → (Declaration → Bool) → List Declaration → Bool × List Declaration
unfolding declare
declare_queues c queue key takes had =
    declare takes
      (plain_queue (dlq_name queue)
        ∷ binding (dlq_name queue) key c.dlx
        ∷ dead_letter_queue queue c.dlx key
        ∷ binding queue key c.exchange_name
        ∷ [])
      had

-- The setup of a round of `Subscribe`.
unfoldable pub set_up :
    Consumer → Text → Text → (Declaration → Bool) → List Declaration → Bool × List Declaration
set_up c queue key takes had =
    let (ready, has) = declare_exchanges c takes had in
    let queues = declare_queues c queue key takes has in if ready then queues else (false, has)

abbrev pub same : Declaration → Declaration → Bool
same (exchange a) (exchange b) = text_eq a b
same (plain_queue a) (plain_queue b) = text_eq a b
same (dead_letter_queue a x k) (dead_letter_queue b y l) =
    text_eq a b && (text_eq x y && text_eq k l)
same (binding a k x) (binding b l y) = text_eq a b && (text_eq k l && text_eq x y)
same _ _ = false

abbrev pub has : Declaration → List Declaration → Bool
has d ds = any (same d) ds

same_refl : (d : Declaration) → same d d ≡ true
same_refl (exchange a) = text_eq_refl a
same_refl (plain_queue a) = text_eq_refl a
same_refl (dead_letter_queue a x k) = rw (text_eq_refl a, text_eq_refl x, text_eq_refl k)
same_refl (binding a k x) = rw (text_eq_refl a, text_eq_refl k, text_eq_refl x)

-- A queue for rejected messages, by its name.
abbrev pub IsDlq : Text → Type 0
IsDlq name = (queue : Text) × (name ≡ dlq_name queue)

-- Whether the rejected messages of the queue are sent on.
abbrev pub sends_on : Text → Declaration → Bool
sends_on name (dead_letter_queue queue dlx key) = text_eq queue name
sends_on name _ = false

-- A queue whose rejected messages go to `dlx` has, in what was declared before it, that exchange,
-- and a queue for them that is bound to it by the key that they are sent with. A queue without that
-- is one for rejected messages, and so is a queue that is bound without it.
abbrev pub IsSafe : List Declaration → Type 0
IsSafe [] = Unit
IsSafe (dead_letter_queue queue dlx key ∷ ds) =
    (has (exchange dlx) ds ≡ true)
    × (has (plain_queue (dlq_name queue)) ds ≡ true)
    × (has (binding (dlq_name queue) key dlx) ds ≡ true)
    × IsSafe ds
IsSafe (plain_queue name ∷ ds) = IsDlq name × IsSafe ds
IsSafe (binding name key x ∷ ds) = (IsDlq name ⊎ (any (sends_on name) ds ≡ true)) × IsSafe ds
IsSafe (exchange name ∷ ds) = IsSafe ds

-- Each of the declarations would be safe after those before it.
abbrev AreSafe : List Declaration → List Declaration → Type 0
AreSafe [] had = Unit
AreSafe (d ∷ ds) had = IsSafe (d ∷ had) × AreSafe ds (d ∷ had)

declare-IsSafe :
    (takes : Declaration → Bool) (ds had : List Declaration)
    → IsSafe had
    → AreSafe ds had
    → IsSafe (declare takes ds had).1
unfolding declare
declare-IsSafe takes [] had safe all_safe = safe
declare-IsSafe takes (d ∷ ds) had safe all_safe = elim (Bool-cases (takes d)) [
  | inl taken ↦ rw taken (declare-IsSafe takes ds (d ∷ had) all_safe.0 all_safe.1)
  | inr refused ↦ rw refused safe
]

module _ (c : Consumer) (takes : Declaration → Bool) (had : List Declaration)
    (safe : IsSafe had) where
  exchanges-IsSafe : IsSafe (declare_exchanges c takes had).1
  unfolding declare_exchanges
  exchanges-IsSafe =
      declare-IsSafe takes (exchange c.exchange_name ∷ exchange c.dlx ∷ []) had safe
        (safe, (safe, tt))

  exchanges-dlx :
      (declare_exchanges c takes had).0 ≡ true
      → has (exchange c.dlx) (declare_exchanges c takes had).1 ≡ true
  unfolding declare_exchanges
  exchanges-dlx ready = ground (arith, text_eq_refl c.dlx)

  queues-IsSafe :
      (queue key : Text)
      → has (exchange c.dlx) had ≡ true
      → IsSafe (declare_queues c queue key takes had).1
  unfolding declare_queues
  queues-IsSafe queue key dlx =
      let bound = same_refl (binding (dlq_name queue) key c.dlx) in
      let named = same_refl (plain_queue (dlq_name queue)) in
      let before = binding (dlq_name queue) key c.dlx ∷ plain_queue (dlq_name queue) ∷ had in
      let main_safe : IsSafe (dead_letter_queue queue c.dlx key ∷ before) =
        (dlx, rw named, rw bound, (inl (queue, refl), ((queue, refl), safe))) in
      let sent : any (sends_on queue) (dead_letter_queue queue c.dlx key ∷ before) ≡ true =
        rw (text_eq_refl queue) in
      declare-IsSafe takes
        (plain_queue (dlq_name queue)
          ∷ binding (dlq_name queue) key c.dlx
          ∷ dead_letter_queue queue c.dlx key
          ∷ binding queue key c.exchange_name
          ∷ [])
        had safe
        (
          ((queue, refl), safe),
          ((inl (queue, refl), ((queue, refl), safe)), (main_safe, ((inr sent, main_safe), tt))),
        )

-- No rejected message can be lost for want of a dead-letter queue: whichever declaration the broker
-- refuses, and however often the setup is repeated, every queue that is no dead-letter queue itself
-- sends its rejected messages to a dead-letter exchange, and was declared after that exchange, its
-- dead-letter queue and the binding.
pub set_up-IsSafe :
    (c : Consumer) (queue key : Text) (takes : Declaration → Bool) (had : List Declaration)
    → IsSafe had
    → IsSafe (set_up c queue key takes had).1
unfolding set_up
set_up-IsSafe c queue key takes had safe = elim (Bool-cases (declare_exchanges c takes had).0) [
  | inl ready ↦ rw ready (
      queues-IsSafe c takes (declare_exchanges c takes had).1 (exchanges-IsSafe c takes had safe)
        queue key (exchanges-dlx c takes had safe ready))
  | inr refused ↦ rw refused (exchanges-IsSafe c takes had safe)
]
