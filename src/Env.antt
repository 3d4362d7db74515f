-- ===== src/Env.antt =====
-- What the library calls and does not implement: contexts and timers, `database/sql`, uuid and
-- JSON encodings, the tracer, the metrics registry and the broker. `World` is all their state.
use cliros.Prelude.{ℕ, String, List, Option, Bool}
use cliros.Prelude.Int.{ℤ}
use cliros.Errors.{Error}
use cliros.Effect.{Result}
use cliros.Message.{Message, MessageMeta, MessagePayload}
use cliros.Database.{Query, Columns}

pub record Env : Type 1 where
  pub World : Type 0
  pub Ctx : Type 0
  -- `select { case <-ctx.Done(): return ctx.Err(); default: }`
  pub poll : Ctx → World → Option Error × World
  -- `select` over `time.After(d)` and `ctx.Done()`: nil if the timer fired, else `ctx.Err()`
  pub await : Ctx → ℤ → World → Option Error × World
  -- `time.Now()`, in nanoseconds
  pub now : World → ℕ × World
  -- `Any` is what a payload holds
  pub Uuid : Type 0
  pub Bytes : Type 0
  pub Any : Type 0
  -- `uuid.Parse`, `UUID.String`, `uuid.NewV7`
  pub parse_uuid : String → Result Uuid
  pub uuid_string : Uuid → String
  pub new_v7 : World → Result Uuid × World
  -- `json.Marshal` and `json.Unmarshal` at the two structs of message.go
  pub marshal_payload : MessagePayload Any → Result Bytes
  pub unmarshal_payload : Bytes → Result (MessagePayload Any)
  pub marshal_meta : MessageMeta → Result Bytes
  pub unmarshal_meta : Bytes → Result MessageMeta
  -- `len(b) > 0`
  pub has_bytes : Bytes → Bool
  pub Tx : Type 0
  pub begin_tx : Ctx → World → Result Tx × World
  -- `ExecContext` of a transaction; `sql.Result` is read by the reply of its `RowsAffected`
  pub exec : Ctx → Tx → Query Uuid Bytes → World → Result (Result ℕ) × World
  -- `QueryRowContext(..).Scan(&id)`
  pub query_row : Ctx → Tx → Query Uuid Bytes → World → Result Uuid × World
  -- `QueryContext` of the reader's SELECT: the cursor is read by the replies of `Scan`, one for each
  -- `Next`, and of `Err` at its end
  pub query :
      Ctx
      → Query Uuid Bytes
      → World
      → Result (List (Result (Columns Uuid Bytes)) × Option Error) × World
  pub commit : Tx → World → Result (Unit {0}) × World
  -- `Rollback`, whose error the library drops
  pub rollback : Tx → World → World
  -- OpenTelemetry: `otel.Tracer(name)`, and a span with its name, kind and attributes
  pub Tracer : Type 0
  pub Span : Type 0
  pub otel_tracer : String → Tracer
  pub start_span :
      Ctx → Tracer → String → String → List (String × String) → World → (Ctx × Span) × World
  pub span_from_context : Ctx → Span
  pub record_error : Span → Error → World → World
  pub set_error_status : Span → Error → World → World
  pub end_span : Span → World → World
  -- the propagator: the `Set` calls that `Inject` makes, and `Extract` from what `Get` answers
  pub inject_pairs : Ctx → List (String × String)
  pub extract : Ctx → (String → String) → Ctx
  -- Prometheus: the counters and the histogram, by their label values
  pub steps_total_inc : String → String → String → World → World
  pub step_duration_observe : String → String → ℕ → World → World
  pub saga_started_inc : World → World
  -- a send that does not block, on the error channel
  pub try_send : Error → World → World
  -- `broker.Publisher`
  pub publish : Ctx → String → Message Any → World → Option Error × World

module _ (env : Env) where
  open env use {World, Ctx, Tx, Any}

  -- `step.Action` and `step.ErrorHandler`: the user's callbacks, whose message counts beside an
  -- error too.
  abbrev pub Action : Type 0
  Action = Ctx → Tx → Message Any → World → (Message Any × Option Error) × World

  abbrev pub ErrorHandler : Type 0
  ErrorHandler = Ctx → Tx → Message Any → Error → World → (Message Any × Option Error) × World

  -- `backoff.BackoffPolicy`: `CalcBackoff(retryNumber, minBackoff, maxBackoff)`
  abbrev pub BackoffPolicy : Type 0
  BackoffPolicy = ℕ → ℤ → ℤ → World → ℤ × World
