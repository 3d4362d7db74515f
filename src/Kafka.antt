-- ===== src/Kafka.antt =====
-- examples/kafka-pubsub/kafka.go: the broker adapter for Kafka.
pub mod Offsets
pub mod Running
mod Tests
use Prim.Native.String.{◌++◌}
use cliros.Prelude.{
  ℕ, String, Bool, true, false, Option, none, some, List, [], ◌∷◌, str_eq, if◌then◌else◌,
}
use cliros.Errors.{Error, leaf, wrap}
use cliros.Effect.{Result, ok, err, Io, pure, ◌>>=◌, wrapping}
use cliros.Message.{Message}
use cliros.Env.{Env}
use cliros.Nats.{Handler}

-- A message of a partition.
pub record ConsumerMessage (B : Type 0) : Type 0 where
  pub topic : String
  pub offset : ℕ
  pub value : B

module _ (env : Env) where
  open env use {World, Ctx, Any, Bytes}

  -- What the adapter calls: sarama, and JSON of a `message.Message`.
  pub record Sarama : Type 1 where
    pub Producer : Type 0
    pub Group : Type 0
    -- `context.Background()`
    pub background : Ctx
    pub new_producer : List String → World → Result Producer × World
    pub new_group : List String → String → World → Result Group × World
    pub send_message : Producer → String → Bytes → World → Option Error × World
    pub close_producer : Producer → World → Option Error × World
    pub close_group : Group → World → World
    -- `session.MarkMessage`, by the offset of the message
    pub mark_message : ℕ → World → World
    -- `consumerCancel()`, and the wait for the consumer's goroutine
    pub stop_consumer : World → World
    pub marshal : Message Any → Result Bytes
    pub unmarshal : Bytes → Result (Message Any)

module _ {env : Env} (sarama : Sarama env) where
  open env use {World, Ctx, Any, Bytes}
  open sarama use {
    Producer, Group, background, new_producer, new_group, send_message, close_producer, close_group,
    mark_message, stop_consumer, marshal, unmarshal,
  }

  -- `Kafka`; the lock makes each call one step.
  pub record Kafka : Type 0 where
    pub producer : Producer
    pub consumer_group : Group
    pub handlers : List (String × Handler env)
    pub closed : Bool

  abbrev grouped : Producer → Result Group × World → Result Kafka × World
  grouped producer (err x, w) = (err (wrap "kafka consumer group" x), (close_producer producer w).1)
  grouped producer (ok group, w) = (
    ok (record { producer = producer; consumer_group = group; handlers = []; closed = false }),
    w,
  )

  -- `NewKafka`
  unfoldable pub new_kafka : List String → String → World → Result Kafka × World
  new_kafka [] group_id w = (err (leaf "brokers are required"), w)
  new_kafka (broker ∷ brokers) group_id w =
      let id = if str_eq group_id "" then "leti-paper-default" else group_id in
      let (made, w') = new_producer (broker ∷ brokers) w in
      elim made [
        | err x ↦ (err (wrap "kafka sync producer" x), w')
        | ok producer ↦ grouped producer (new_group (broker ∷ brokers) id w')
      ]

  abbrev send_encoded : Kafka → String → Result Bytes → World → Option Error × World
  send_encoded k topic (err x) w = (some (wrap "marshal message" x), w)
  send_encoded k topic (ok bytes) w =
      let (failed, w') = send_message k.producer topic bytes w in
      (elim failed [ none ↦ none | some x ↦ some (wrap "kafka send" x) ], w')

  -- `Kafka.Publish`
  unfoldable pub publish : Kafka → Ctx → String → Message Any → World → Option Error × World
  publish k ctx topic m w =
      if k.closed
      then (some (leaf "kafka client is closed"), w)
      else send_encoded k topic (marshal m) w

  -- `handlers[topic]`
  unfoldable pub handler_of : String → List (String × Handler env) → Option (Handler env)
  handler_of topic [] = none
  handler_of topic ((t, h) ∷ handlers) =
      if str_eq t topic then some h else handler_of topic handlers

  -- `Kafka.Subscribe`
  unfoldable pub subscribe : Kafka → Ctx → String → Handler env → Option Error × Kafka
  unfolding handler_of
  subscribe k ctx topic handler =
      if k.closed
      then (some (leaf "kafka client is closed"), k)
      else elim (handler_of topic k.handlers) [
        | some _ ↦ (some (leaf ("already subscribed to topic: " ++ topic)), k)
        | none ↦ (none, record k { handlers = (topic, handler) ∷ k.handlers })
      ]

  -- `Kafka.Close`
  unfoldable pub close : Kafka → World → Option Error × Kafka × World
  close k w =
      if k.closed
      then (none, k, w)
      else (let (failed, w') =
            close_producer k.producer (close_group k.consumer_group (stop_consumer w)) in
          (failed, record k { closed = true }, w'))

  -- After the handler: the message is marked where there was no error.
  abbrev pub answered : ℕ → Option Error × World → World
  answered offset (some x, w) = w
  answered offset (none, w) = mark_message offset w

  abbrev pub handle_decoded : Handler env → ℕ → Result (Message Any) → World → World
  handle_decoded handler offset (err x) w = mark_message offset w
  handle_decoded handler offset (ok m) w = answered offset (handler background m w)

  abbrev pub dispatch_to : Option (Handler env) → ConsumerMessage Bytes → World → World
  dispatch_to none msg w = mark_message msg.offset w
  dispatch_to (some handler) msg w = handle_decoded handler msg.offset (unmarshal msg.value) w

  -- `kafkaConsumer.ConsumeClaim`, over the messages of the claim.
  unfoldable pub consume_claim :
      List (String × Handler env) → List (ConsumerMessage Bytes) → World → World
  unfolding handler_of
  consume_claim handlers [] w = w
  consume_claim handlers (msg ∷ msgs) w =
      consume_claim handlers msgs (dispatch_to (handler_of msg.topic handlers) msg w)
