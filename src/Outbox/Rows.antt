-- ===== src/Outbox/Rows.antt =====
-- What the writer's statements leave in the outbox table, row by row.
use cliros.Prelude.{String, ◌≡◌, ◌∙◌, ap, subst, none, List, [], ◌∷◌, ◌++◌, map, Among, arith}
use mathlib.Core.List.{append-nil}
use cliros.Effect.{ok, ◌>>=◌, wrapping}
use cliros.Message.{Message}
use cliros.Database.{SqlDialect, postgres}
use cliros.Env.{Env}
use cliros.Outbox.{SagaType, saga_text, OutboxMessage}
use cliros.Outbox.Writer.{Row, from_saga_to_outbox_message, insert_row, write, write_messages}
use cliros.Store.{row_key, OutboxRow, Store, with_rows, new_row, Postgres}
use cliros.Store.Within.{
  Within, Within-call, Within-mono, Within-wrapping, Within-bind, with_rows-with_rows,
}

module _ (env : Env) where
  open env use {Uuid, Bytes, Any, parse_uuid, marshal_payload, marshal_meta}

  -- The row of a message for one topic, not published yet.
  pub record IsRowOf (m : Message Any) (step : String) (t : SagaType) (topic : String)
      (row : OutboxRow Uuid Bytes) : Type 0 where
    pub id : parse_uuid m.saga_id ≡ ok row.saga_id
    pub encoded : marshal_payload m.payload ≡ ok row.payload
    pub encoded_meta : marshal_meta m.meta ≡ ok row.metadata
    pub by_step : row.step_name ≡ step
    pub to_topic : row.topic ≡ topic
    pub in_phase : row.saga_type ≡ saga_text t
    pub due : row.scheduled_at ≡ row.created_at
    pub untried : row.attempts_counter ≡ 0
    pub never_tried : row.last_attempt ≡ none
    pub unprocessed : row.processed_at ≡ none

  -- One row for each topic, in the order of the topics.
  abbrev pub AreRowsOf :
      Message Any → String → SagaType → List String → List (OutboxRow Uuid Bytes) → Type 0
  AreRowsOf m step t [] [] = Unit
  AreRowsOf m step t [] (row ∷ rows) = ⊥
  AreRowsOf m step t (topic ∷ topics) [] = ⊥
  AreRowsOf m step t (topic ∷ topics) (row ∷ rows) =
      IsRowOf m step t topic row × AreRowsOf m step t topics rows

-- No row of the list has the key of one in the table, or of one before it.
abbrev pub AreFresh : {U B : Type 0} → List (OutboxRow U B) → List (OutboxRow U B) → Type 0
AreFresh [] table = Unit
AreFresh (row ∷ rows) table =
    ¬ Among (row_key row) (map row_key table) × AreFresh rows (table ++ (row ∷ []))

-- A row as the table holds it.
abbrev pub stored : {U B : Type 0} → OutboxMessage U B → OutboxRow U B
stored row = record {
  saga_id = row.saga_id;
  step_name = row.step_name;
  topic = row.topic;
  saga_type = saga_text row.saga_type;
  created_at = row.created_at;
  scheduled_at = row.scheduled_at;
  metadata = row.metadata;
  payload = row.payload;
  attempts_counter = row.attempt_counter;
  last_attempt = row.last_attempt;
  processed_at = row.processed_at;
}

module _ {env : Env} (pg : Postgres env) where
  open env use {World, Ctx, Tx, Uuid, Bytes, Any}
  open pg use {Other, committed, pending}

  convert-Within :
      (m : Message Any) (topic step : String) (t : SagaType) (s : Store Uuid Bytes Other) (tx : Tx)
      (w : World)
      → committed w ≡ s
      → Within pg s tx
          (λ row p. (p ≡ pending tx w) × IsRowOf env m step t topic (stored row))
          (from_saga_to_outbox_message env m topic step t)
          w
  unfolding from_saga_to_outbox_message ◌>>=◌ wrapping
  convert-Within m topic step t s tx w h = record {
    ends = ground (arith, pg.now_committed w, pg.now_pending tx w);
  }

  insert-Within :
      (d : SqlDialect) (ctx : Ctx) (tx : Tx) (row : Row env) (s : Store Uuid Bytes Other)
      (w : World)
      → d ≡ postgres
      → committed w ≡ s
      → Within pg s tx
          (λ _ p.
            ¬ Among (row_key (stored row)) (map row_key (pending tx w).outbox)
            × (p
                ≡ with_rows
                    (new_row row.saga_id row.step_name row.topic
                        (saga_text row.saga_type)
                        row.created_at
                        row.scheduled_at
                        row.metadata
                        row.payload
                      ∷ [])
                    (pending tx w)))
          (env.exec ctx tx (insert_row env d row))
          w
  unfolding insert_row
  insert-Within d ctx tx row s w hd h = rw hd (
      Within-call pg (pg.exec_committed ctx tx _ w ∙ h) λ n e. (
        pg.insert_key ctx tx row.saga_id row.step_name row.topic (saga_text row.saga_type)
            row.created_at row.scheduled_at row.metadata row.payload w n e,
        pg.insert_ok ctx tx row.saga_id row.step_name row.topic (saga_text row.saga_type)
            row.created_at row.scheduled_at row.metadata row.payload w n e,
      ))

  -- A write adds one row of the message to what is pending.
  pub write-Within :
      (d : SqlDialect) (ctx : Ctx) (m : Message Any) (tx : Tx) (topic step : String) (t : SagaType)
      (s : Store Uuid Bytes Other) (w : World)
      → d ≡ postgres
      → committed w ≡ s
      → Within pg s tx
          (λ _ p.
            (row : OutboxRow Uuid Bytes) × IsRowOf env m step t topic row
            × ¬ Among (row_key row) (map row_key (pending tx w).outbox)
            × (p ≡ with_rows (row ∷ []) (pending tx w)))
          (write env d ctx m tx topic step t)
          w
  unfolding write
  write-Within d ctx m tx topic step t s w hd h =
      Within-bind pg (Within-wrapping pg _ (convert-Within m topic step t s tx w h))
        λ row w₁ h₁ (same, is_row).
          Within-bind pg (Within-wrapping pg _ (insert-Within d ctx tx row s w₁ hd h₁))
            λ _ w₂ h₂ (fresh, added). record {
              ends = (h₂, (stored row, is_row, rw same at fresh, ground arith));
            }

  -- `WriteMessages` inside a PostgreSQL transaction commits nothing, and where it succeeds it has
  -- added to the pending outbox exactly one row for each topic, in the topics' order, each with
  -- the message's encoded parts, the step, the phase, no attempts, no processing time and a
  -- primary key that no row before it has.
  pub write_messages-Within :
      (d : SqlDialect) (ctx : Ctx) (m : Message Any) (tx : Tx) (topics : List String)
      (step : String) (t : SagaType) (s : Store Uuid Bytes Other) (w : World)
      → d ≡ postgres
      → committed w ≡ s
      → Within pg s tx
          (λ _ p.
            (rows : List (OutboxRow Uuid Bytes)) × AreRowsOf env m step t topics rows
            × AreFresh rows (pending tx w).outbox
            × (p ≡ with_rows rows (pending tx w)))
          (write_messages env d ctx m tx topics step t)
          w
  unfolding write_messages
  write_messages-Within d ctx m tx [] step t s w hd h = record {
    ends = (h, ([], tt, tt, rw append-nil));
  }
  write_messages-Within d ctx m tx (topic ∷ topics) step t s w hd h =
      Within-bind pg (write-Within d ctx m tx topic step t s w hd h)
        λ _ w₁ h₁ (row, is_row, fresh, added).
          Within-mono pg
            (λ _ p (rows, are_rows, rest, more). (
              row ∷ rows,
              (is_row, are_rows),
              (fresh, subst (λ q. AreFresh rows q.outbox) added rest),
              more ∙ ap (with_rows rows) added ∙ with_rows-with_rows (row ∷ []) rows (pending tx w),
            ))
            (write_messages-Within d ctx m tx topics step t s w₁ hd h₁)
