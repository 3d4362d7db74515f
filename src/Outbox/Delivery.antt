-- ===== src/Outbox/Delivery.antt =====
-- From the writer's row to the message that the reader publishes.
use cliros.Prelude.{String, true, ◌≡◌, refl, arith}
use cliros.Effect.{ok, ◌>>=◌, wrapping}
use cliros.Message.{Message}
use cliros.Env.{Env}
use cliros.Outbox.{SagaType}
use cliros.Outbox.Writer.{Row, from_saga_to_outbox_message}
use cliros.Outbox.Reader.{from_outbox_to_saga_message}

module _ (env : Env) where
  open env use {
    World, Any, Bytes, marshal_payload, marshal_meta, unmarshal_payload, unmarshal_meta, has_bytes,
    uuid_string,
  }

  -- encoding/json at a message: the metadata is not encoded as no bytes, and both of its parts are
  -- decoded as they were.
  pub record IsJson (m : Message Any) : Type 0 where
    pub meta_bytes : (b : Bytes) → marshal_meta m.meta ≡ ok b → has_bytes b ≡ true
    pub meta_back : (b : Bytes) → marshal_meta m.meta ≡ ok b → unmarshal_meta b ≡ ok m.meta
    pub payload_back :
        (b : Bytes) → marshal_payload m.payload ≡ ok b → unmarshal_payload b ≡ ok m.payload

  row_contents :
      (m : Message Any) (topic step : String) (t : SagaType) (row : Row env) (w w' : World)
      → from_saga_to_outbox_message env m topic step t w ≡ (ok row, w')
      → (marshal_meta m.meta ≡ ok row.metadata)
        × (marshal_payload m.payload ≡ ok row.payload)
        × (row.step_name ≡ step)
  unfolding from_saga_to_outbox_message ◌>>=◌ wrapping
  row_contents m topic step t row w w' e = ground arith

  -- The message that the reader makes of the row that the writer made of a message is that
  -- message, with the step's name as its origin and the canonical form of the row's id as its
  -- saga id. JSON decodes the two parts of this message as they were encoded, and the encoded
  -- metadata is not empty.
  pub reader_after_writer :
      (m : Message Any) (topic step : String) (t : SagaType) (row : Row env) (w w' : World)
      → IsJson m
      → from_saga_to_outbox_message env m topic step t w ≡ (ok row, w')
      → from_outbox_to_saga_message env row
        ≡ ok (record m {
          meta = record m.meta { from_step = step; saga_id = uuid_string row.saga_id };
        })
  unfolding from_outbox_to_saga_message
  reader_after_writer m topic step t row w w' json e =
      let (metas, payloads, named) = row_contents m topic step t row w w' e in
      rw
        (
          from_outbox_to_saga_message,
          json.meta_bytes row.metadata metas,
          json.meta_back row.metadata metas,
          json.payload_back row.payload payloads,
          named,
        )
        refl
