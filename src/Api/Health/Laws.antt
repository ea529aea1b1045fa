-- ===== src/Api/Health/Laws.antt =====
-- What a load balancer learns from /health.
use wapgo.Base.{
  ◌≡◌, ◌≢◌, refl, Bool, true, false, not, ◌||◌, Option, some, List, [], ◌∷◌, ◌++◌, any,
  if◌then◌else◌, err, arith, Bool-cases, inl, inr,
}
use wapgo.Base.Text.{Text, codes, text_eq, text_ne}
use wapgo.Base.Strings.{trim, is_space}
use wapgo.Messaging.RabbitMq.Connection.{Amqp}
use wapgo.Messaging.RabbitMq.Connection as RabbitMq
use wapgo.Messaging.Kafka.Health as Kafka
use wapgo.Api.Health.{Report, of_database, add_probe, add_probes, check}

-- Whether a probe answered "down".
abbrev pub some_down : List (Text × Text) → Bool
some_down extras = any (λ p. text_eq p.1 (codes "down")) extras

add_probes_code :
    (extras : List (Text × Text)) (r : Report)
    → (add_probes extras r).http_code ≡ (if some_down extras then 503 else r.http_code)
unfolding add_probes add_probe
add_probes_code [] r = refl
add_probes_code ((name, answer) ∷ extras) r = elim (Bool-cases (text_eq answer (codes "down"))) [
  | inl down ↦ ground (arith, add_probes_code extras (add_probe name answer r))
  | inr up ↦ ground (arith, add_probes_code extras (add_probe name answer r))
]

-- The answer is 503 when the database or some probe is "down", and 200 otherwise, in whatever order
-- the probes are asked.
pub check_code :
    (up : Bool) (extras : List (Text × Text))
    → (check up extras).http_code ≡ (if not up || some_down extras then 503 else 200)
unfolding check
check_code up extras = ground (arith, add_probes_code extras (of_database up))

rabbit_down :
    {W Conn Chan : Type 0} (amqp : Amqp W Conn Chan) (dsn e : Text) (w : W)
    → dsn ≢ []
    → (amqp.dial dsn w).0 ≡ err e
    → (RabbitMq.health_check amqp dsn w).0 ≡ codes "down: " ++ e
unfolding RabbitMq.health_check
rabbit_down amqp dsn e w named failed = ground (arith, text_ne dsn [] named)

kafka_down :
    (dial : Text → Option Text) (brokers e : Text)
    → trim is_space brokers ≢ []
    → dial (Kafka.first_broker brokers) ≡ some e
    → Kafka.health_check dial brokers ≡ codes "down: " ++ e
unfolding Kafka.health_check
kafka_down dial brokers e named failed = ground (arith, text_ne (trim is_space brokers) [] named)

not_down : (e : Text) → text_eq (codes "down: " ++ e) (codes "down") ≡ false
unfolding text_eq
not_down e = refl

-- A broker that is down does not degrade the service: the probes of RabbitMQ and Kafka answer
-- "down: " with the error, which is not "down", so with both brokers configured and unreachable,
-- and the database up, the health check still answers 200.
pub check_misses_brokers :
    {W Conn Chan : Type 0} (amqp : Amqp W Conn Chan) (dsn e : Text) (w : W)
    (dial : Text → Option Text) (brokers e' : Text)
    → dsn ≢ []
    → (amqp.dial dsn w).0 ≡ err e
    → trim is_space brokers ≢ []
    → dial (Kafka.first_broker brokers) ≡ some e'
    → (check true (
        (codes "rabbitmq", (RabbitMq.health_check amqp dsn w).0)
        ∷ (codes "kafka", Kafka.health_check dial brokers)
        ∷ [])).http_code
      ≡ 200
check_misses_brokers amqp dsn e w dial brokers e' named failed named' failed' =
    rw
      (
        rabbit_down amqp dsn e w named failed,
        kafka_down dial brokers e' named' failed',
        check_code true
            ((codes "rabbitmq", codes "down: " ++ e) ∷ (codes "kafka", codes "down: " ++ e') ∷ []),
        not_down e,
        not_down e',
      )
      refl
