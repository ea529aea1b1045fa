-- ===== src/Messaging/RabbitMq/Publisher/Laws.antt =====
-- What a caller of `Publish` can rely on.
use wapgo.Base.{◌≡◌, refl, Option, none, some, Result, ok, err}
use wapgo.Base.Text.{Text}
use wapgo.Base.Dict.{Dict}
use wapgo.Messaging.RabbitMq.Connection.{Amqp, Connection}
use wapgo.Messaging.RabbitMq.Publisher.{
  Message, Channels, Publisher, open_channel, publish_once, again, or_again, publish,
}

module _ {W Conn Chan : Type 0} (amqp : Amqp W Conn Chan) (on : Channels W Chan)
    (inject : Dict Text → Dict Text) (context_id : Text) (msg : Message) where
  -- The message went out on the channel that the publisher holds, as the last thing that happened.
  pub record IsSent (p : Publisher Conn Chan) (w : W) : Type 0 where
    pub before : W
    pub sent : publish_once amqp on inject context_id msg p before ≡ (none, w)

  abbrev IsPublished : Option Text × Publisher Conn Chan × W → Type 0
  IsPublished (none, p, w) = IsSent p w
  IsPublished (some e, p, w) = Unit

  tried :
      (p : Publisher Conn Chan) (v : W) (out : Option Text × W)
      → publish_once amqp on inject context_id msg p v ≡ out
      → IsPublished (out.0, p, out.1)
  tried p v (none, w) h = record { before = v; sent = h }
  tried p v (some e, w) h = tt

  again-IsPublished :
      (e : Text) (p : Publisher Conn Chan) (opened : Result Text Chan × Connection Conn × W)
      → IsPublished (again amqp on inject context_id msg e p opened)
  again-IsPublished e p (err e', c, w) = tt
  again-IsPublished e p (ok ch, c, w) =
      let q = record p { conn = c; ch = ch } in
      tried q w (publish_once amqp on inject context_id msg q w) refl

  or_again-IsPublished :
      (p : Publisher Conn Chan) (v : W) (out : Option Text × W)
      → publish_once amqp on inject context_id msg p v ≡ out
      → IsPublished (or_again amqp on inject context_id msg p out)
  or_again-IsPublished p v (none, w) h = record { before = v; sent = h }
  or_again-IsPublished p v (some e, w) h =
      again-IsPublished e p
        (open_channel amqp on inject p.exchange p.conn (on.close_channel p.ch w))

  publish-IsPublished :
      (p : Publisher Conn Chan) (w : W) → IsPublished (publish amqp on inject context_id msg p w)
  unfolding publish
  publish-IsPublished p w =
      or_again-IsPublished p w (publish_once amqp on inject context_id msg p w) refl

  -- What `Publish` reports as published went out: if it returns no error, the last thing that it
  -- did was to publish the message, without an error, on the channel that the publisher holds
  -- afterwards.
  pub publish-IsSent :
      (p p' : Publisher Conn Chan) (w w' : W)
      → publish amqp on inject context_id msg p w ≡ (none, p', w')
      → IsSent p' w'
  publish-IsSent p p' w w' h = rw h at (publish-IsPublished p w)

  -- A stale channel is repaired: if publishing fails on the channel that the publisher holds, and a
  -- new one can be opened on the shared connection, and publishing works there, then `Publish`
  -- returns no error and the publisher keeps the new channel.
  pub publish_repairs :
      (p : Publisher Conn Chan) (w v : W) (e : Text) (ch : Chan) (c : Connection Conn) (u t : W)
      → publish_once amqp on inject context_id msg p w ≡ (some e, v)
      → open_channel amqp on inject p.exchange p.conn (on.close_channel p.ch v) ≡ (ok ch, c, u)
      → publish_once amqp on inject context_id msg (record p { conn = c; ch = ch }) u ≡ (none, t)
      → publish amqp on inject context_id msg p w ≡ (none, record p { conn = c; ch = ch }, t)
  unfolding publish
  publish_repairs p w v e ch c u t failed opened works = rw (failed, opened, works) refl
