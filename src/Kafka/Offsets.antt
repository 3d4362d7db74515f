-- ===== src/Kafka/Offsets.antt =====
-- examples/kafka-pubsub/kafka.go: the offset from which Kafka goes on after `ConsumeClaim`.
use cliros.Prelude.{
  ℕ, ◌<◌, String, ◌≡◌, refl, Option, none, some, List, [], ◌∷◌, ◌++◌, Among, arith,
}
use cliros.Errors.{Error}
use cliros.Effect.{Result, ok, err}
use cliros.Message.{Message}
use cliros.Env.{Env}
use cliros.Nats.{Handler}
use cliros.Kafka.{
  ConsumerMessage, Sarama, answered, handle_decoded, dispatch_to, handler_of, consume_claim,
}

module _ {env : Env} (sarama : Sarama env) where
  open env use {World, Any, Bytes}
  open sarama use {background, mark_message, unmarshal}

  -- Kafka keeps one offset for the partition, and delivers from it: a mark moves it behind the
  -- message.
  pub record Offsets : Type 0 where
    pub next_offset : World → ℕ
    pub mark_moves : (offset : ℕ) (w : World) → offset < next_offset (mark_message offset w)

  consume_claim-append :
      (handlers : List (String × Handler env)) (msgs : List (ConsumerMessage Bytes))
      (last : ConsumerMessage Bytes) (w : World)
      → consume_claim sarama handlers (msgs ++ (last ∷ [])) w
        ≡ dispatch_to sarama
            (handler_of sarama last.topic handlers)
            last
            (consume_claim sarama handlers msgs w)
  unfolding consume_claim
  consume_claim-append handlers [] last w = refl
  consume_claim-append handlers (msg ∷ msgs) last w =
      consume_claim-append handlers msgs last
        (dispatch_to sarama (handler_of sarama msg.topic handlers) msg w)

  module _ (offsets : Offsets) where
    open offsets use {next_offset, mark_moves}

    answered-marks :
        (offset : ℕ) (failed : Option Error) (w : World)
        → failed ≡ none
        → offset < next_offset (answered sarama offset (failed, w))
    answered-marks offset none w is = mark_moves offset w
    answered-marks offset (some x) w is = cc

    decoded-marks :
        (handler : Handler env) (offset : ℕ) (decoded : Result (Message Any)) (w : World)
        → ((m : Message Any) → (handler background m w).0 ≡ none)
        → offset < next_offset (handle_decoded sarama handler offset decoded w)
    decoded-marks handler offset (err x) w accepts = mark_moves offset w
    decoded-marks handler offset (ok m) w accepts =
        answered-marks offset (handler background m w).0 (handler background m w).1 (accepts m)

    -- A message of a claim is passed over, whatever its handler answered, where a later message
    -- of the claim goes to a handler that answers nil: afterwards Kafka goes on behind both. The
    -- claim ends with that later message, the offset of the message is lower, and a mark moves
    -- the one offset that Kafka keeps for the partition behind the marked message.
    pub consume_claim-passes :
        (handlers : List (String × Handler env)) (handler : Handler env)
        (msgs : List (ConsumerMessage Bytes)) (msg last : ConsumerMessage Bytes) (w : World)
        → Among msg msgs
        → msg.offset < last.offset
        → handler_of sarama last.topic handlers ≡ some handler
        → ((m : Message Any) (w₁ : World) → (handler background m w₁).0 ≡ none)
        → msg.offset < next_offset (consume_claim sarama handlers (msgs ++ (last ∷ [])) w)
    consume_claim-passes handlers handler msgs msg last w there earlier found accepts =
        let w₁ = consume_claim sarama handlers msgs w in
        let marked =
          decoded-marks handler last.offset (unmarshal last.value) w₁ (λ m. accepts m w₁) in
        rw (consume_claim-append handlers msgs last w, found) (omega (arith, earlier, marked))
