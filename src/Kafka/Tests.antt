-- ===== src/Kafka/Tests.antt =====
-- A claim of two messages, the first of which is refused.
use cliros.Prelude.{
  ◌+◌, ◌<◌, refl, inl, none, some, List, [], ◌∷◌, arith, String, leb, if◌then◌else◌,
}
use cliros.Errors.{leaf}
use cliros.Effect.{ok}
use cliros.Message.{complete}
use cliros.Nats.{Handler}
use cliros.Kafka.{ConsumerMessage, Sarama, handler_of, consume_claim}
use cliros.Kafka.Offsets.{Offsets, consume_claim-passes}
use cliros.Demo.{Json, of_meta, demo}
use cliros.Demo.Saga.{incoming, doubting}

-- The clock of the small world is the offset from which Kafka goes on.
abbrev pub demo_sarama : Sarama demo
demo_sarama = record {
  Producer = Unit;
  Group = Unit;
  background = tt;
  new_producer = λ brokers w. (ok tt, w);
  new_group = λ brokers id w. (ok tt, w);
  send_message = λ producer topic bytes w. (none, w);
  close_producer = λ producer w. (none, w);
  close_group = λ group w. w;
  mark_message =
      λ offset w. record w { clock = if leb w.clock offset then offset + 1 else w.clock };
  stop_consumer = λ w. w;
  marshal = λ m. ok (of_meta m.meta);
  unmarshal = λ bytes. ok (incoming complete "order");
}

abbrev demo_offsets : Offsets demo_sarama
demo_offsets = record { next_offset = λ w. w.clock; mark_moves = λ offset w. ground arith }

abbrev refuses : Handler demo
refuses ctx m w = (some (leaf "out of stock"), w)

abbrev pub accepts : Handler demo
accepts ctx m w = (none, w)

abbrev handlers : List (String × Handler demo)
handlers = ("orders", refuses) ∷ ("payments", accepts) ∷ []

abbrev refused_message : ConsumerMessage Json
refused_message = record {
  topic = "orders";
  offset = 3;
  value = of_meta (incoming complete "order").meta;
}

abbrev accepted_message : ConsumerMessage Json
accepted_message = record refused_message { topic = "payments"; offset = 4 }

consume_claim-passes_example :
    3
    < (consume_claim demo_sarama handlers
        (refused_message ∷ accepted_message ∷ [])
        (doubting 0)).clock
unfolding handler_of
consume_claim-passes_example =
    consume_claim-passes demo_sarama demo_offsets handlers accepts (refused_message ∷ [])
      refused_message accepted_message (doubting 0) (inl refl) (omega arith) refl (λ m w. refl)
