-- ===== src/Nats.antt =====
-- pubsub/nats/nats.go: the client of NATS that publishes and subscribes.
pub mod Calls
pub mod Closing
pub mod Transport
pub mod Pipeline
mod Tests
use Prim.Native.String.{◌++◌}
use cliros.Prelude.{
  String, Bool, true, false, Option, none, some, List, [], ◌∷◌, not, ◌&&◌, str_eq, if◌then◌else◌,
}
use cliros.Errors.{Error, leaf, wrap}
use cliros.Effect.{Result, ok, err}
use cliros.Message.{Message}
use cliros.Env.{Env}

module _ (env : Env) where
  open env use {World, Ctx, Any, Bytes}

  -- What the client calls: the connection of nats.go, and JSON of a `message.Message`.
  pub record Nats : Type 1 where
    pub Conn : Type 0
    pub Subscription : Type 0
    pub Options : Type 0
    pub default_url : String
    -- `context.Background()`
    pub background : Ctx
    pub connect : String → Options → World → Result Conn × World
    pub conn_publish : Conn → String → Bytes → World → Option Error × World
    -- the callback is called with the data of each message
    pub conn_subscribe :
        Conn → String → (Bytes → World → World) → World → Result Subscription × World
    pub unsubscribe : Subscription → World → Option Error × World
    pub conn_close : Conn → World → World
    pub conn_is_connected : Conn → World → Bool
    pub marshal : Message Any → Result Bytes
    pub unmarshal : Bytes → Result (Message Any)

  -- What a subscriber does with a message.
  abbrev pub Handler : Type 0
  Handler = Ctx → Message Any → World → Option Error × World

module _ {env : Env} (nats : Nats env) where
  open env use {World, Ctx, Any, Bytes}
  open nats use {
    Conn, Subscription, Options, default_url, background, connect, conn_publish, conn_subscribe,
    unsubscribe, conn_close, conn_is_connected, marshal, unmarshal,
  }

  -- `Client`; the lock makes each call one step. The map is the list of its entries.
  pub record Client : Type 0 where
    pub conn : Conn
    pub subs : List (String × Subscription)
    pub closed : Bool

  abbrev pub connected : Result Conn × World → Result Client × World
  connected (err x, w) = (err (wrap "failed to connect to NATS" x), w)
  connected (ok conn, w) = (ok (record { conn = conn; subs = []; closed = false }), w)

  -- `New`
  unfoldable pub new : String → Options → World → Result Client × World
  new url options w = connected (connect (if str_eq url "" then default_url else url) options w)

  abbrev pub sent : Option Error × World → Option Error × World
  sent (none, w) = (none, w)
  sent (some x, w) = (some (wrap "failed to publish message" x), w)

  abbrev pub publish_data : Conn → String → Result Bytes → World → Option Error × World
  publish_data conn topic (err x) w = (some (wrap "failed to marshal message" x), w)
  publish_data conn topic (ok bytes) w = sent (conn_publish conn topic bytes w)

  -- `Client.Publish`
  unfoldable pub publish : Client → Ctx → String → Message Any → World → Option Error × World
  publish c ctx topic m w =
      if c.closed
      then (some (leaf "client is closed"), w)
      else publish_data c.conn topic (marshal m) w

  abbrev pub handle_message : Handler env → Result (Message Any) → World → World
  handle_message handler (err x) w = w
  handle_message handler (ok m) w = (handler background m w).1

  -- The callback of `Subscribe`, which drops the errors.
  unfoldable pub on_message : Handler env → Bytes → World → World
  on_message handler bytes w = handle_message handler (unmarshal bytes) w

  abbrev pub has_topic : String → List (String × Subscription) → Bool
  has_topic topic [] = false
  has_topic topic ((t, s) ∷ subs) = if str_eq t topic then true else has_topic topic subs

  abbrev pub subscribed :
      Client → String → Result Subscription × World → Option Error × Client × World
  subscribed c topic (err x, w) = (some (wrap ("failed to subscribe to topic " ++ topic) x), c, w)
  subscribed c topic (ok sub, w) = (none, record c { subs = (topic, sub) ∷ c.subs }, w)

  -- `Client.Subscribe`
  unfoldable pub subscribe :
      Client → Ctx → String → Handler env → World → Option Error × Client × World
  unfolding on_message
  subscribe c ctx topic handler w =
      if c.closed
      then (some (leaf "client is closed"), c, w)
      else if has_topic topic c.subs
      then (some (leaf ("already subscribed to topic: " ++ topic)), c, w)
      else subscribed c topic (conn_subscribe c.conn topic (on_message handler) w)

  -- `delete(c.subs, topic)`
  abbrev pub delete : String → List (String × Subscription) → List (String × Subscription)
  delete topic [] = []
  delete topic ((t, s) ∷ subs) =
      let rest = delete topic subs in if str_eq t topic then rest else (t, s) ∷ rest

  -- The loop of `Close` over the entries of the map, in the order that `range` takes.
  unfoldable pub close_subs :
      List (String × Subscription) → Client → World → Option Error × Client × World
  close_subs [] c w = (none, record c { closed = true }, conn_close c.conn w)
  close_subs ((topic, sub) ∷ subs) c w =
      let (failed, w') = unsubscribe sub w in
      elim failed [
        | some x ↦ (some (wrap ("failed to unsubscribe from topic " ++ topic) x), c, w')
        | none ↦ close_subs subs (record c { subs = delete topic c.subs }) w'
      ]

  -- `Client.Close`; `order` is the order in which `range` visits the entries.
  unfoldable pub close :
      List (String × Subscription) → Client → World → Option Error × Client × World
  unfolding close_subs
  close order c w = if c.closed then (none, c, w) else close_subs order c w

  -- `Client.IsConnected`
  unfoldable pub is_connected : Client → World → Bool
  is_connected c w = not c.closed && conn_is_connected c.conn w
