-- ===== src/Messaging/RabbitMq/Connection.antt =====
-- pkg/messaging/rabbitmq/connection.go and the probe `healthCheckWithDialer` of consumer.go. The
-- broker and the network are a state `W`, whose operations are a parameter. `sync.RWMutex` makes
-- each step atomic; `channel` is a call that no other goroutine comes between.
pub mod Laws
use wapgo.Base.{
  Bool, true, false, not, Option, none, some, List, [], ◌∷◌, ◌++◌, if◌then◌else◌, Result, ok, err,
}
use wapgo.Base.Text.{Text, codes, text_eq}

-- amqp: dialling, whether a connection is closed, a channel of a connection, closing.
pub record Amqp (W Conn Chan : Type 0) : Type 0 where
  pub dial : Text → W → Result Text Conn × W
  pub is_closed : W → Conn → Bool
  pub open_channel : Conn → W → Result Text Chan × W
  pub close : Conn → W → Option Text × W

pub record Connection (Conn : Type 0) : Type 0 where
  pub dsn : Text
  pub conn : Option Conn

module _ {W Conn Chan : Type 0} (amqp : Amqp W Conn Chan) where
  unfoldable pub dial : Connection Conn → W → Result Text (Unit {0}) × Connection Conn × W
  dial c w =
      let (answer, w') = amqp.dial c.dsn w in
      elim answer [
        | err e ↦ (err (codes "rabbitmq dial: " ++ e), c, w')
        | ok conn ↦ (ok tt, record c { conn = some conn }, w')
      ]

  unfoldable pub new_connection : Text → W → Result Text (Connection Conn) × W
  unfolding dial
  new_connection dsn w =
      let (answer, c, w') = dial (record { dsn = dsn; conn = none }) w in
      (elim answer [ err e ↦ err e | ok _ ↦ ok c ], w')

  unfoldable pub is_closed : Connection Conn → W → Bool
  is_closed c w = elim c.conn [ none ↦ true | some conn ↦ amqp.is_closed w conn ]

  unfoldable pub reconnect : Connection Conn → W → Result Text (Unit {0}) × Connection Conn × W
  unfolding is_closed dial
  reconnect c w = if is_closed c w then dial c w else (ok tt, c, w)

  -- A call of `conn.Channel()` of the current connection; a nil connection cannot be called.
  abbrev pub channel_on : Option Conn → Connection Conn → W → Result Text Chan × Connection Conn × W
  channel_on none c w = (err [], c, w)
  channel_on (some conn) c w = let (answer, w') = amqp.open_channel conn w in (answer, c, w')

  abbrev pub channel_of : Connection Conn → W → Result Text Chan × Connection Conn × W
  channel_of c w = channel_on c.conn c w

  -- Opening the channel failed: reconnect once and try again.
  unfoldable pub retry_channel :
      Result Text Chan × Connection Conn × W → Result Text Chan × Connection Conn × W
  unfolding reconnect
  retry_channel (ok ch, c, w) = (ok ch, c, w)
  retry_channel (err e, c, w) =
      let (again, c', w') = reconnect c w in
      elim again [
        | err _ ↦ (err (codes "rabbitmq channel: " ++ e), c', w')
        | ok _ ↦ channel_of c' w'
      ]

  unfoldable pub channel : Connection Conn → W → Result Text Chan × Connection Conn × W
  unfolding reconnect retry_channel
  channel c w =
      let (again, c', w') = reconnect c w in
      elim again [ err e ↦ (err e, c', w') | ok _ ↦ retry_channel (channel_of c' w') ]

  unfoldable pub close : Connection Conn → W → Option Text × W
  close c w = elim c.conn [
    | none ↦ (none, w)
    | some conn ↦ if amqp.is_closed w conn then (none, w) else amqp.close conn w
  ]

  -- `HealthCheck`: a connection of its own.
  unfoldable pub health_check : Text → W → Text × W
  health_check dsn w =
      if text_eq dsn []
      then (codes "not_configured", w)
      else (let (answer, w') = amqp.dial dsn w in
          elim answer [
            | err e ↦ (codes "down: " ++ e, w')
            | ok conn ↦ (codes "ok", (amqp.close conn w').1)
          ])
