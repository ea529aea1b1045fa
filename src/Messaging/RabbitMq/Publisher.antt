-- ===== src/Messaging/RabbitMq/Publisher.antt =====
-- pkg/messaging/rabbitmq/publisher.go over the shared connection. Declaring the exchange,
-- publishing on a channel and closing one are the broker's; `inject` is what OpenTelemetry adds to
-- the headers.
pub mod Laws
use wapgo.Base.{
  ℕ, Bool, true, false, Option, none, some, List, [], ◌∷◌, ◌++◌, if◌then◌else◌, Result, ok, err,
}
use wapgo.Base.Text.{Text, codes, text_eq}
use wapgo.Base.Dict.{Dict}
use wapgo.Messaging.RabbitMq.Connection.{Amqp, Connection, channel}

pub record Message : Type 0 where
  pub routing_key : Text
  pub body : Text
  pub request_id : Text

-- A persistent message, as it is sent.
pub record Publishing : Type 0 where
  pub exchange : Text
  pub routing_key : Text
  pub content_type : Text
  pub body : Text
  pub headers : Dict Text

-- What a channel does, each with the error that it returns (`none` is Go's nil).
pub record Channels (W Chan : Type 0) : Type 0 where
  pub declare_exchange : Chan → Text → W → Option Text × W
  pub publish_with : Chan → Publishing → W → Option Text × W
  pub close_channel : Chan → W → W

pub record Publisher (Conn Chan : Type 0) : Type 0 where
  pub conn : Connection Conn
  pub ch : Chan
  pub exchange : Text

-- The request id of the message, or of the context.
abbrev pub request_id_of : Message → Text → Text
request_id_of msg context_id = if text_eq msg.request_id [] then context_id else msg.request_id

module _ {W Conn Chan : Type 0} (amqp : Amqp W Conn Chan) (on : Channels W Chan)
    (inject : Dict Text → Dict Text) where
  -- `openChannel`: the channel with the connection as it is then.
  abbrev pub declared :
      Text → Chan → Connection Conn → Option Text × W → Result Text Chan × Connection Conn × W
  declared exchange ch c (none, w) = (ok ch, c, w)
  declared exchange ch c (some e, w) =
      (err (codes "rabbitmq exchange declare: " ++ e), c, on.close_channel ch w)

  abbrev pub with_channel :
      Text → Result Text Chan × Connection Conn × W → Result Text Chan × Connection Conn × W
  with_channel exchange (err e, c, w) = (err (codes "rabbitmq publisher channel: " ++ e), c, w)
  with_channel exchange (ok ch, c, w) = declared exchange ch c (on.declare_exchange ch exchange w)

  unfoldable pub open_channel : Text → Connection Conn → W → Result Text Chan × Connection Conn × W
  unfolding channel
  open_channel exchange c w = with_channel exchange (channel amqp c w)

  unfoldable pub new_publisher :
      Connection Conn → Text → W → Result Text (Publisher Conn Chan) × Connection Conn × W
  unfolding open_channel
  new_publisher c exchange w =
      let (opened, c', w') = open_channel exchange c w in
      (
        elim opened [
          | err e ↦ err e
          | ok ch ↦ ok (record { conn = c'; ch = ch; exchange = exchange })
        ],
        c',
        w',
      )

  -- `publish`, on the current channel.
  unfoldable pub publish_once : Text → Message → Publisher Conn Chan → W → Option Text × W
  unfolding text_eq
  publish_once context_id msg p w =
      on.publish_with p.ch
        (record {
          exchange = p.exchange;
          routing_key = msg.routing_key;
          content_type = codes "application/json";
          body = msg.body;
          headers = inject ((codes "x-request-id", request_id_of msg context_id) ∷ []);
        })
        w

  -- The second try, on the channel that was opened for it; without one the old channel stays.
  abbrev pub again :
      Text
      → Message
      → Text
      → Publisher Conn Chan
      → Result Text Chan × Connection Conn × W
      → Option Text × Publisher Conn Chan × W
  again context_id msg e p (err e', c, w) = (
    some (codes "rabbitmq reconnect: " ++ e' ++ codes "; original: " ++ e),
    record p { conn = c },
    w,
  )
  again context_id msg e p (ok ch, c, w) =
      let q = record p { conn = c; ch = ch } in
      let (answer, w') = publish_once context_id msg q w in (answer, q, w')

  abbrev pub or_again :
      Text → Message → Publisher Conn Chan → Option Text × W → Option Text × Publisher Conn Chan × W
  or_again context_id msg p (none, w) = (none, p, w)
  or_again context_id msg p (some e, w) =
      again context_id msg e p (open_channel p.exchange p.conn (on.close_channel p.ch w))

  -- `Publish`
  unfoldable pub publish :
      Text → Message → Publisher Conn Chan → W → Option Text × Publisher Conn Chan × W
  unfolding publish_once open_channel
  publish context_id msg p w = or_again context_id msg p (publish_once context_id msg p w)
