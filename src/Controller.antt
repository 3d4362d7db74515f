-- ===== src/Controller.antt =====
-- controller/controller.go: the migrations, the handler of a topic and the start of a saga.
pub mod Starts
pub mod Startup
pub mod Made
pub mod Sagas
pub mod Deliveries
pub mod Tests
pub mod DeliveryTests
mod StartTests
mod StartupTests
use cliros.Prelude.{String, Bool, true, false, Option, none, some, List, [], ◌∷◌, if◌then◌else◌}
use cliros.Errors.{Error, leaf, wrap, is_duplicate}
use cliros.Effect.{
  Result, ok, err, Io, pure, fail, ◌>>=◌, ◌>>◌, wrapping, deferring, error_result, result_error,
}
use cliros.Message.{Message, MessageType, complete, failed, unknown_type, get_type, with_saga_id}
use cliros.Database.{SqlDialect, postgres, mysql, other_dialect}
use cliros.Env.{Env}
use cliros.Tracing.{extract_trace_context, start_saga_span}
use cliros.Metrics.{saga_started_inc}
use cliros.Outbox.Migrations.{
  postgres_outbox_migration, mysql_outbox_migration, postgres_inbox_migration,
  mysql_inbox_migration,
}
use cliros.Outbox.Reader.{Reader}
use cliros.Step.{Step}
use cliros.Executor.{StepExecutor}
use cliros.Executor.Phases.{execute_step, compensate_step}

-- `migrationOutboxSQL`
unfoldable pub migration_outbox_sql : SqlDialect → Result String
migration_outbox_sql postgres = ok postgres_outbox_migration
migration_outbox_sql mysql = ok mysql_outbox_migration
migration_outbox_sql (other_dialect d) = err (leaf "unsupported dialect for migrations")

-- `migrationInboxSQL`
unfoldable pub migration_inbox_sql : SqlDialect → Result String
migration_inbox_sql postgres = ok postgres_inbox_migration
migration_inbox_sql mysql = ok mysql_inbox_migration
migration_inbox_sql (other_dialect d) = err (leaf "unsupported dialect for inbox migration")

-- The handler's answer to the phase's error.
unfoldable pub acknowledged : Option Error → Option Error
acknowledged none = none
acknowledged (some e) = if is_duplicate e then none else some e

module _ (env : Env) where
  open env use {
    World, Ctx, Any, Span, Tracer, begin_tx, exec, commit, rollback, new_v7, uuid_string, end_span,
  }

  -- `Controller`; of its `DBContext` only the dialect is read, and the subscriber is called by
  -- `Register` alone.
  pub record Controller : Type 0 where
    pub executor : StepExecutor env
    pub reader : Reader env
    pub dialect : SqlDialect
    pub metrics : Bool
    pub tracing_enabled : Bool
    pub tracer : Option Tracer
    pub tracer_name : String

  -- `runMigrations`
  unfoldable pub run_migrations : Controller → Ctx → Io World (Unit {0})
  run_migrations c ctx = do
    outbox_sql ← λ w. (migration_outbox_sql c.dialect, w)
    inbox_sql ← λ w. (migration_inbox_sql c.dialect, w)
    tx ← wrapping (wrap "begin migration tx") (begin_tx ctx)
    deferring (rollback tx) (do
      wrapping (wrap "exec outbox migration") (exec ctx tx record { sql = outbox_sql; args = [] })
      wrapping (wrap "exec inbox migration") (exec ctx tx record { sql = inbox_sql; args = [] })
      wrapping (wrap "commit migration tx") (commit tx))

  -- The switch of the handler.
  unfoldable pub dispatch :
      Controller → Ctx → Step env → Message Any → MessageType → World → Option Error × World
  unfolding acknowledged
  dispatch c ctx stp msg complete w =
      let (r, w') = execute_step env c.executor ctx stp msg w in (acknowledged (result_error r), w')
  dispatch c ctx stp msg failed w =
      let (r, w') = compensate_step env c.executor ctx stp msg w in
      (acknowledged (result_error r), w')
  dispatch c ctx stp msg (unknown_type t) w = (some (leaf "invalid message type"), w)

  -- The handler that `Register` subscribes to a topic.
  unfoldable pub receive : Controller → Step env → Ctx → Message Any → World → Option Error × World
  receive c stp ctx msg w =
      let ctx' = if c.tracing_enabled then extract_trace_context env ctx msg else ctx in
      elim (get_type msg) [ err e ↦ (some e, w) | ok t ↦ dispatch c ctx' stp msg t w ]

  -- `generateSagaID`
  unfoldable pub generate_saga_id : Io World String
  generate_saga_id = do id ← wrapping (wrap "generate saga id") new_v7; pure (uuid_string id)

  -- The loop of `StartSagaWithSteps`: each step runs on the message of the one before.
  unfoldable pub run_steps :
      Controller → Ctx → List (Step env) → Message Any → Io World (Message Any)
  run_steps c ctx [] msg = pure msg
  run_steps c ctx (stp ∷ stps) msg = do
    out ← execute_step env c.executor ctx stp msg
    run_steps c ctx stps out

  -- `StartSagaWithSteps` once the saga has its id.
  unfoldable pub run_saga :
      Controller → Ctx → List (Step env) → Message Any → Io World (Message Any)
  run_saga c ctx stps msg w =
      let w₁ = saga_started_inc env c.metrics w in
      if c.tracing_enabled
      then (let ((ctx', span), w₂) =
            start_saga_span env ctx c.tracer c.tracer_name msg.saga_id w₁ in
          deferring (end_span span) (run_steps c ctx' stps msg) w₂)
      else run_steps c ctx stps msg w₁

  -- `StartSagaWithSteps`
  unfoldable pub start_saga_with_steps :
      Controller → Ctx → List (Step env) → Message Any → Io World (Message Any)
  start_saga_with_steps c ctx [] msg = fail (leaf "at least one step is required")
  start_saga_with_steps c ctx (stp ∷ stps) msg = do
    id ← generate_saga_id
    run_saga c ctx (stp ∷ stps) (with_saga_id id msg)

  -- `StartSaga`
  unfoldable pub start_saga : Controller → Ctx → Step env → Message Any → Io World (Unit {0})
  start_saga c ctx stp msg = do start_saga_with_steps c ctx (stp ∷ []) msg; pure tt
