-- ===== src/Messaging/RabbitMq/Connection/Laws.antt =====
-- What the shared connection of pkg/messaging/rabbitmq guarantees.
use wapgo.Base.{◌≡◌, refl, Option, none, some, Result, ok, err, ok_injective, ◌++◌}
use wapgo.Base.Text.{Text, codes}
use wapgo.Messaging.RabbitMq.Connection.{
  Amqp, Connection, reconnect, channel_on, channel_of, retry_channel, channel,
}

module _ {W Conn Chan : Type 0} (amqp : Amqp W Conn Chan) where
  -- A channel of the connection that is held, as the last thing that happened.
  pub record IsOf (c : Connection Conn) (w : W) (ch : Chan) : Type 0 where
    pub conn : Conn
    pub before : W
    pub held : c.conn ≡ some conn
    pub opened : (amqp.open_channel conn before).0 ≡ ok ch
    pub last : w ≡ (amqp.open_channel conn before).1

  abbrev IsShared : Result Text Chan × Connection Conn × W → Type 0
  IsShared (ok ch, c, w) = IsOf c w ch
  IsShared (err e, c, w) = Unit

  channel_on-IsShared :
      (held : Option Conn) (c : Connection Conn) (w : W)
      → c.conn ≡ held
      → IsShared (channel_on amqp held c w)
  channel_on-IsShared none c w e = tt
  channel_on-IsShared (some conn) c w e = answered (amqp.open_channel conn w) refl
    where
      answered :
          (out : Result Text Chan × W) → amqp.open_channel conn w ≡ out → IsShared (out.0, c, out.1)
      answered (err f, v) a = tt
      answered (ok ch, v) a = record {
        conn = conn;
        before = w;
        held = e;
        opened = rw a;
        last = rw a;
      }

  channel_of-IsShared : (c : Connection Conn) (w : W) → IsShared (channel_of amqp c w)
  channel_of-IsShared c w = channel_on-IsShared c.conn c w refl

  after_reconnect :
      (again : Result Text (Unit {0}) × Connection Conn × W) (f : Text → Text)
      (k : Connection Conn → W → Result Text Chan × Connection Conn × W)
      → ((c : Connection Conn) (w : W) → IsShared (k c w))
      → IsShared (elim again.0 [ err e ↦ (err (f e), again.1, again.2) | ok _ ↦ k again.1 again.2 ])
  after_reconnect (err e, c, w) f k h = tt
  after_reconnect (ok u, c, w) f k h = h c w

  retry_channel-IsShared :
      (out : Result Text Chan × Connection Conn × W)
      → IsShared out
      → IsShared (retry_channel amqp out)
  unfolding retry_channel
  retry_channel-IsShared (ok ch, c, w) h = h
  retry_channel-IsShared (err e, c, w) h =
      after_reconnect (reconnect amqp c w) (λ _. codes "rabbitmq channel: " ++ e) (channel_of amqp)
        channel_of-IsShared

  channel-IsShared : (c : Connection Conn) (w : W) → IsShared (channel amqp c w)
  unfolding channel
  channel-IsShared c w =
      after_reconnect (reconnect amqp c w) (λ e. e)
        (λ c' w'. retry_channel amqp (channel_of amqp c' w'))
        (λ c' w'. retry_channel-IsShared (channel_of amqp c' w') (channel_of-IsShared c' w'))

  -- Every channel is one of the shared connection: whatever is dialled in between, a channel that
  -- is returned was opened on the connection that the `Connection` holds afterwards, as the last
  -- thing that the call did.
  pub channel-IsOf :
      (c : Connection Conn) (w : W) (ch : Chan)
      → (channel amqp c w).0 ≡ ok ch
      → IsOf (channel amqp c w).1 (channel amqp c w).2 ch
  channel-IsOf c w ch e = from_out (channel amqp c w) (channel-IsShared c w) e
    where
      from_out :
          (out : Result Text Chan × Connection Conn × W)
          → IsShared out
          → out.0 ≡ ok ch
          → IsOf out.1 out.2 ch
      from_out (ok ch', c', w') h f = rw (← (ok_injective f)) h
      from_out (err e', c', w') h f = cc
