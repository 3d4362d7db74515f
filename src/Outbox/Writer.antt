-- ===== src/Outbox/Writer.antt =====
-- internal/outbox/writer.go: rows of the outbox are inserted in the caller's transaction.
use Prim.Native.String.{◌++◌}
use cliros.Prelude.{String, Option, none, some, List, [], ◌∷◌}
use cliros.Errors.{wrap}
use cliros.Effect.{ok, Io, pure, ◌>>=◌, ◌>>◌, wrapping, deferring}
use cliros.Message.{Message}
use cliros.Database.{SqlDialect, Query, uuid, text, time, blob, get_sql_placeholder}
use cliros.Env.{Env}
use cliros.Outbox.{SagaType, saga_text, OutboxMessage, qualified_outbox_table}

-- `buildInsertQuery`
unfoldable pub insert_query : SqlDialect → String
unfolding qualified_outbox_table get_sql_placeholder
insert_query d =
    "\nINSERT INTO "
    ++ qualified_outbox_table d
    ++ " (\n\tsaga_id, step_name, topic, saga_type,\n\tcreated_at, scheduled_at, metadata, payload\n) VALUES ("
    ++ get_sql_placeholder d 1
    ++ ", "
    ++ get_sql_placeholder d 2
    ++ ", "
    ++ get_sql_placeholder d 3
    ++ ", "
    ++ get_sql_placeholder d 4
    ++ ", "
    ++ get_sql_placeholder d 5
    ++ ", "
    ++ get_sql_placeholder d 6
    ++ ", "
    ++ get_sql_placeholder d 7
    ++ ", "
    ++ get_sql_placeholder d 8
    ++ ")"

module _ (env : Env) where
  open env use {
    World, Ctx, Tx, Any, Uuid, Bytes, parse_uuid, marshal_payload, marshal_meta, now, exec,
    begin_tx, commit, rollback,
  }

  abbrev pub Row : Type 0
  Row = OutboxMessage Uuid Bytes

  -- `fromSagaToOutboxMessage`
  unfoldable pub from_saga_to_outbox_message :
      Message Any → (topic step_name : String) → SagaType → Io World Row
  from_saga_to_outbox_message msg topic step_name saga_type = do
    id ← wrapping (wrap "invalid saga_id format") (λ w. (parse_uuid msg.saga_id, w))
    payload ← wrapping (wrap "failed to marshal payload") (λ w. (marshal_payload msg.payload, w))
    metadata ← wrapping (wrap "failed to marshal metadata") (λ w. (marshal_meta msg.meta, w))
    at ← λ w. (ok (now w).0, (now w).1)
    pure (record {
      saga_id = id;
      step_name = step_name;
      topic = topic;
      saga_type = saga_type;
      created_at = at;
      scheduled_at = at;
      metadata = metadata;
      payload = payload;
      attempt_counter = 0;
      last_attempt = none;
      processed_at = none;
    })

  -- The statement of `write`.
  unfoldable pub insert_row : SqlDialect → Row → Query Uuid Bytes
  insert_row d row = record {
    sql = insert_query d;
    args =
        uuid row.saga_id
        ∷ text row.step_name
        ∷ text row.topic
        ∷ text (saga_text row.saga_type)
        ∷ time row.created_at
        ∷ time row.scheduled_at
        ∷ blob row.metadata
        ∷ blob row.payload
        ∷ [];
  }

  -- `Writer.write`
  unfoldable pub write :
      SqlDialect
      → Ctx
      → Message Any
      → Tx
      → (topic step_name : String) → SagaType
      → Io World (Unit {0})
  write d ctx msg tx topic step_name saga_type = do
    row ←
        wrapping (wrap "outbox convert message")
          (from_saga_to_outbox_message msg topic step_name saga_type)
    inserted ← wrapping (wrap "outbox insert") (exec ctx tx (insert_row d row))
    pure tt

  -- `Writer.WriteMessages`
  unfoldable pub write_messages :
      SqlDialect → Ctx → Message Any → Tx → List String → String → SagaType → Io World (Unit {0})
  write_messages d ctx msg tx [] step_name saga_type = pure tt
  write_messages d ctx msg tx (topic ∷ topics) step_name saga_type =
      let rest = write_messages d ctx msg tx topics step_name saga_type in
      write d ctx msg tx topic step_name saga_type >> rest

  -- `TxWorkFunc`, and the call of it if it is not nil.
  abbrev pub TxWork : Type 0
  TxWork = Ctx → Tx → Io World (Unit {0})

  abbrev pub run_work : Option TxWork → TxWork
  run_work none ctx tx = pure tt
  run_work (some f) ctx tx = f ctx tx

  -- `Writer.WriteTx`
  unfoldable pub write_tx :
      SqlDialect
      → Ctx
      → Message Any
      → List String
      → String
      → SagaType
      → Option TxWork
      → Io World (Unit {0})
  write_tx d ctx msg topics step_name saga_type fn = do
    tx ← wrapping (wrap "outbox begin tx") (begin_tx ctx)
    deferring (rollback tx) (do
      run_work fn ctx tx
      write_messages d ctx msg tx topics step_name saga_type
      wrapping (wrap "outbox commit tx") (commit tx))
