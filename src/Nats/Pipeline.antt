-- ===== src/Nats/Pipeline.antt =====
-- From one step to the next: the outbox writer and reader, the NATS client and the next handler.
use cliros.Prelude.{String, ◌≡◌, refl, sym, subst, ◌∙◌, none}
use cliros.Effect.{Result, ok, err}
use cliros.Message.{Message}
use cliros.Env.{Env}
use cliros.Outbox.{SagaType}
use cliros.Outbox.Writer.{Row, from_saga_to_outbox_message}
use cliros.Outbox.Reader.{from_outbox_to_saga_message}
use cliros.Outbox.Delivery.{IsJson, reader_after_writer}
use cliros.Store.{Postgres}
use cliros.Step.{Step}
use cliros.Controller.{Controller, receive}
use cliros.Controller.Deliveries.{IsServed, Delivers, receive-Delivers}
use cliros.Nats.{Nats, Client, publish, on_message}
use cliros.Nats.Transport.{on_message-publish}

module _ {env : Env} (nats : Nats env) (pg : Postgres env) (c : Controller env)
    (stp : Step env) where
  open env use {World, Ctx, Any, Bytes, uuid_string}
  open nats use {background, conn_publish, marshal, unmarshal}

  -- The message as the next step receives it.
  abbrev pub passed_on : Message Any → String → Row env → Message Any
  passed_on m step row = record m {
    meta = record m.meta { from_step = step; saga_id = uuid_string row.saga_id };
  }

  -- The bytes make a delivery of the message to the step, with its handler's answer, whenever the
  -- callback runs.
  abbrev pub Arrives : Message Any → Bytes → Type 0
  Arrives m bytes =
      (w : World)
      → Delivers pg c stp m (pg.committed w)
          (pg.committed (on_message nats (receive env c stp) bytes w))
          (receive env c stp background m w).0

  -- JSON decodes the message's bytes to it.
  abbrev pub IsDecoded : Message Any → Type 0
  IsDecoded m = (bytes : Bytes) → marshal m ≡ ok bytes → unmarshal bytes ≡ ok m

  sent-Arrives :
      (client : Client nats) (ctx : Ctx) (topic : String) (m : Message Any) (w w' : World)
      → IsDecoded m
      → IsServed pg c stp m
      → publish nats client ctx topic m w ≡ (none, w')
      → (bytes : Bytes) × (conn_publish client.conn topic bytes w ≡ (none, w')) × Arrives m bytes
  sent-Arrives client ctx topic m w w' decodes served done =
      let (bytes, called, handled) =
        on_message-publish nats client ctx topic m (receive env c stp) w w' decodes done in
      (
        bytes,
        called,
        λ w₁.
            subst
              (λ (w₂ : World).
                Delivers pg c stp m (pg.committed w₁) (pg.committed w₂)
                  (receive env c stp background m w₁).0)
              (sym (handled w₁)) (receive-Delivers pg c stp background m w₁ served),
      )

  message_of_row :
      (m out : Message Any) (step : String) (row : Row env)
      → from_outbox_to_saga_message env row ≡ ok (passed_on m step row)
      → from_outbox_to_saga_message env row ≡ ok out
      → passed_on m step row ≡ out
  message_of_row m out step row made read =
      let same : ok (passed_on m step row) ≡ ok out = sym made ∙ read in
      subst
        (λ (r : Result (Message Any)). elim r as (λ _. Type 0) [
          | ok k ↦ passed_on m step row ≡ k
          | err x ↦ Unit
        ])
        same refl

  -- The way of an answer from one step to the next: where the NATS client publishes what the
  -- outbox reader makes of the row that the writer made of a message, the bytes that it hands to
  -- the connection make the callback of the next step's subscription, whenever it runs, do a
  -- `Delivers` step with that message and with the answer of the controller's handler to it; the
  -- message's origin is the first step and its saga id is the canonical form of the row's. JSON
  -- decodes the row and the bytes as they were encoded, and the message meets the conditions of
  -- the record `IsServed` at the next step.
  pub next_step_receives :
      (client : Client nats) (ctx : Ctx) (m out : Message Any) (topic step : String) (t : SagaType)
      (row : Row env) (w₀ w₁ w w' : World)
      → IsJson env m
      → from_saga_to_outbox_message env m topic step t w₀ ≡ (ok row, w₁)
      → from_outbox_to_saga_message env row ≡ ok out
      → IsDecoded (passed_on m step row)
      → IsServed pg c stp (passed_on m step row)
      → publish nats client ctx row.topic out w ≡ (none, w')
      → (bytes : Bytes) × (conn_publish client.conn row.topic bytes w ≡ (none, w'))
        × Arrives (passed_on m step row) bytes
  next_step_receives client ctx m out topic step t row w₀ w₁ w w' json written read decodes served
        done =
      let is =
        message_of_row m out step row
          (reader_after_writer env m topic step t row w₀ w₁ json written) read in
      sent-Arrives client ctx row.topic (passed_on m step row) w w' decodes served (
        subst (λ (k : Message Any). publish nats client ctx row.topic k w ≡ (none, w')) (sym is)
          done)
