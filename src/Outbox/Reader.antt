-- ===== src/Outbox/Reader.antt =====
-- internal/outbox/reader.go: rows that are due are read in batches, published and marked.
pub mod Settings
unfoldable pub use Settings.*
use Prim.Native.String.{◌++◌}
use cliros.Prelude.{
  ℕ, suc, ◌+◌, ◌-◌, ◌==◌, String, Option, none, some, List, [], ◌∷◌, get_elem?, set, take,
  replicate, if◌then◌else◌,
}
use cliros.Prelude.Int.{ℤ, pos, pos_part, neg_part, leb_ℤ}
use cliros.Errors.{Error, wrap}
use cliros.Effect.{Result, ok, err, Io, pure, ◌>>=◌, ◌>>◌, deferring}
use cliros.Message.{Message, empty_meta}
use cliros.Database.{SqlDialect, Query, Columns, uuid, text, time, int, get_sql_placeholder}
use cliros.Env.{Env, BackoffPolicy}
use cliros.Outbox.{saga_text, saga_type_of, qualified_outbox_table}
use cliros.Outbox.Lifecycle.{Lifecycle, fresh}
use cliros.Outbox.Writer.{Row}

module _ (env : Env) where
  open env use {
    World, Ctx, Any, Uuid, Bytes, uuid_string, unmarshal_payload, unmarshal_meta, has_bytes, now,
    begin_tx, exec, commit, rollback, query, publish, try_send,
  }

  -- `BackoffSettings`
  pub record BackoffSettings : Type 0 where
    pub backoff_policy : BackoffPolicy env
    pub backoff_min : ℤ
    pub backoff_max : ℤ

  -- `NewBackoffSettings`
  unfoldable pub new_backoff_settings : BackoffPolicy env → ℤ → ℤ → BackoffSettings
  new_backoff_settings policy lo hi = record {
    backoff_policy = policy;
    backoff_min = lo;
    backoff_max = hi;
  }

  -- `Reader`: the settings, the buffer, and the flags with the goroutines.
  pub record Reader : Type 0 where
    pub polling : PollingSettings
    pub backoff : BackoffSettings
    pub dialect : SqlDialect
    pub buffer : List (Row env)
    pub lifecycle : Lifecycle

  -- The interval of the ticker of `polling`.
  unfoldable pub polling_interval : Reader → ℤ
  polling_interval r = positive_or default_interval r.polling.interval

  -- `NewReader`; `blank` is the zero `OutboxMessage`.
  unfoldable pub new_reader : SqlDialect → PollingSettings → BackoffSettings → Row env → Reader
  new_reader d polling backoff blank = record {
    polling = record polling {
      max_attempts = positive_or default_max_attempts polling.max_attempts;
    };
    backoff = backoff;
    dialect = d;
    buffer = replicate (pos_part (positive_or default_batch_size polling.batch_size)) blank;
    lifecycle = fresh;
  }

  -- `rows.Scan(..)` into an element of the buffer.
  abbrev pub scanned_row : Columns Uuid Bytes → Row env
  scanned_row c = record {
    saga_id = c.saga_id;
    step_name = c.step_name;
    topic = c.topic;
    saga_type = saga_type_of c.saga_type;
    created_at = c.created_at;
    scheduled_at = c.scheduled_at;
    metadata = c.metadata;
    payload = c.payload;
    attempt_counter = c.attempts_counter;
    last_attempt = c.last_attempt;
    processed_at = c.processed_at;
  }

  -- How the loop over the rows ends: out of the buffer's range, or with the number of rows that
  -- were read, the buffer and an error.
  pub data Scan : Type 0 where
    index_out_of_range : Scan
    scanned : ℕ → List (Row env) → Option Error → Scan

  -- The loop `for rows.Next()`.
  unfoldable pub scan_rows :
      List (Result (Columns Uuid Bytes)) → Option Error → ℕ → List (Row env) → Scan
  scan_rows [] last n buffer = scanned n buffer last
  scan_rows (r ∷ rs) last n buffer = elim (get_elem? buffer n) [
    | none ↦ index_out_of_range
    | some _ ↦ elim r [
      | err e ↦ scanned n buffer (some (wrap "outbox scan row" e))
      | ok c ↦ scan_rows rs last (suc n) (set buffer n (scanned_row c))
    ]
  ]

  abbrev pub batch_select : Reader → Query Uuid Bytes
  batch_select r = record {
    sql = batch_query r.dialect;
    args =
        int (pos_part (positive_or default_max_attempts r.polling.max_attempts))
        ∷ int (pos_part (positive_or default_batch_size r.polling.batch_size))
        ∷ [];
  }

  -- `scanBatch` after `QueryContext`.
  abbrev pub scan_reply : Reader → Result (List (Result (Columns Uuid Bytes)) × Option Error) → Scan
  scan_reply r (err e) = scanned 0 r.buffer (some e)
  scan_reply r (ok (rows, last)) = scan_rows rows last 0 r.buffer

  -- `scanBatch`
  unfoldable pub scan_batch : Reader → Ctx → World → Scan × World
  scan_batch r ctx w = let (reply, w') = query ctx (batch_select r) w in (scan_reply r reply, w')

  -- `fromOutboxToSagaMessage`
  unfoldable pub from_outbox_to_saga_message : Row env → Result (Message Any)
  from_outbox_to_saga_message o =
      let meta = if has_bytes o.metadata then unmarshal_meta o.metadata else ok empty_meta in
      elim meta [
        | err e ↦ err (wrap "unmarshal outbox metadata" e)
        | ok m ↦ elim (unmarshal_payload o.payload) [
          | err e ↦ err e
          | ok p ↦ ok (record {
            meta = record m { from_step = o.step_name; saga_id = uuid_string o.saga_id };
            payload = p;
          })
        ]
      ]

  abbrev pub success_update : Reader → Row env → ℕ → Query Uuid Bytes
  success_update r m at = record {
    sql = update_on_success_query r.dialect;
    args = time at ∷ uuid m.saga_id ∷ text m.topic ∷ text (saga_text m.saga_type) ∷ [];
  }

  abbrev pub err_update : Reader → Row env → (last next : ℕ) → Query Uuid Bytes
  err_update r m last next = record {
    sql = update_on_err_query r.dialect;
    args =
        time last ∷ time next ∷ uuid m.saga_id ∷ text m.topic ∷ text (saga_text m.saga_type) ∷ [];
  }

  -- `updateOutboxOnSuccess`
  unfoldable pub update_outbox_on_success : Reader → Ctx → Row env → ℕ → Io World ℕ
  update_outbox_on_success r ctx m at = do
    tx ← begin_tx ctx
    deferring (rollback tx) (do
      res ← exec ctx tx (success_update r m at)
      affected ← λ w. (res, w)
      commit tx
      pure affected)

  -- `updateOutboxOnErr`
  unfoldable pub update_outbox_on_err :
      Reader → Ctx → Row env → (last next : ℕ) → Io World (Unit {0})
  update_outbox_on_err r ctx m last next = do
    tx ← begin_tx ctx
    deferring (rollback tx) (do exec ctx tx (err_update r m last next); commit tx)

  -- `calculateNextAttempt`
  unfoldable pub calculate_next_attempt : Reader → Row env → World → ℕ × World
  calculate_next_attempt r m w =
      let (pause, w₁) =
        r.backoff.backoff_policy m.attempt_counter r.backoff.backoff_min r.backoff.backoff_max w in
      let (at, w₂) = now w₁ in (add_duration at pause, w₂)

  abbrev pub reported : {A : Type 0} → String → Result A × World → World
  reported label (ok _, w) = w
  reported label (err e, w) = try_send (wrap label e) w

  -- `handlePublishError`
  unfoldable pub handle_publish_error : Reader → Ctx → Row env → World → World
  handle_publish_error r ctx m w =
      let (at, w₁) = now w in
      let (next, w₂) = calculate_next_attempt r m w₁ in
      reported "outbox update on error" (update_outbox_on_err r ctx m at next w₂)

  -- `handlePublishSuccess` after its update.
  abbrev pub after_update : Reader → Ctx → Row env → Result ℕ × World → World
  after_update r ctx m (err e, w) = try_send (wrap "outbox update on success" e) w
  after_update r ctx m (ok affected, w) =
      if affected == 0 then handle_publish_error r ctx m w else w

  -- `handlePublishSuccess`
  unfoldable pub handle_publish_success : Reader → Ctx → Row env → World → World
  handle_publish_success r ctx m w =
      let (at, w₁) = now w in after_update r ctx m (update_outbox_on_success r ctx m at w₁)

  -- `processMessage` after `Publish`.
  abbrev pub after_publish : Reader → Ctx → Row env → Option Error × World → Option Error × World
  after_publish r ctx m (some e, w) =
      (none, handle_publish_error r ctx m (try_send (wrap "outbox publish" e) w))
  after_publish r ctx m (none, w) = (none, handle_publish_success r ctx m w)

  -- `processMessage`
  unfoldable pub process_message : Reader → Ctx → Row env → World → Option Error × World
  process_message r ctx m w = elim (from_outbox_to_saga_message m) [
    | err e ↦ (some e, w)
    | ok out ↦ after_publish r ctx m (publish ctx m.topic out w)
  ]

  -- `sendError` of the error, if there is one.
  abbrev pub send_error : String → Option Error → World → World
  send_error label none w = w
  send_error label (some e) w = try_send (wrap label e) w

  -- The loop of `polling` over the rows that `scanBatch` read.
  unfoldable pub process_batch : Reader → Ctx → List (Row env) → World → World
  process_batch r ctx [] w = w
  process_batch r ctx (m ∷ ms) w =
      let (failure, w₁) = process_message r ctx m w in
      process_batch r ctx ms (send_error "outbox process batch" failure w₁)

  -- The rest of the tick after `scanBatch`.
  abbrev pub after_scan : Reader → Ctx → Scan → World → Option Reader × World
  after_scan r ctx index_out_of_range w = (none, w)
  after_scan r ctx (scanned count buffer failure) w = (
    some (record r { buffer = buffer }),
    process_batch r ctx (take count buffer) (send_error "outbox scan batch" failure w),
  )

  -- One tick of `polling`: what is left of the reader, none when the goroutine panics.
  unfoldable pub tick : Reader → Ctx → World → Option Reader × World
  tick r ctx w = let (scan, w') = scan_batch r ctx w in after_scan r ctx scan w'

  -- The loop of `polling`: a change of the world before each tick, until a context is done.
  unfoldable pub polling : Reader → Ctx → List (World → World) → World → Option Reader × World
  polling r ctx [] w = (some r, w)
  polling r ctx (pause ∷ pauses) w =
      let (left, w') = tick r ctx (pause w) in
      elim left [ none ↦ (none, w') | some r' ↦ polling r' ctx pauses w' ]
