-- ===== src/Executor.antt =====
-- internal/executor/executor.go: `StepExecutor`, its constructor and its infrastructure retry.
pub mod Outcomes
pub mod Beginning
pub mod Announcing
pub mod Opening
pub mod Attempt
pub mod Atomicity
pub mod Once
pub mod Observed
pub mod Redelivery
pub mod Nested
pub mod Runs
pub mod Phases
pub mod Compensation
pub mod Publication
pub mod Handler
pub mod Tries
pub mod Execution
pub mod Keys
pub mod Undoing
mod Tests
mod RecoveryTests
use cliros.Prelude.{String, Bool, true, false, Option, none, some}
use cliros.Errors.{Error, leaf}
use cliros.Effect.{Result, ok, err}
use cliros.Message.{Message, empty_message}
use cliros.Database.{SqlDialect}
use cliros.Env.{Env}
use cliros.Retry.{Retrier, Work, retry}

module _ (env : Env) where
  open env use {World, Ctx, Tracer, Any}

  -- `StepExecutor`. The writer and the inbox are known by the dialect of their `DBContext`; the
  -- inbox, the retrier and the tracer may be nil, and `metrics` tells whether there are metrics.
  pub record StepExecutor : Type 0 where
    pub writer : SqlDialect
    pub inbox : Option SqlDialect
    pub infra_retrier : Option (Retrier env)
    pub metrics : Bool
    pub tracing_enabled : Bool
    pub tracer_name : String
    pub tracer : Option Tracer

  -- `executor.New`; `db` is nil or not, and the writer comes with its dialect.
  unfoldable pub new :
      (db : Bool)
      → Option SqlDialect
      → Option SqlDialect
      → Option (Retrier env)
      → (metrics tracing_enabled : Bool) → String
      → Option Tracer
      → Result StepExecutor
  new false w inbox infra metrics tracing name tr = err (leaf "db is required")
  new true none inbox infra metrics tracing name tr = err (leaf "writer is required")
  new true (some w) inbox infra metrics tracing name tr = ok (record {
    writer = w;
    inbox = inbox;
    infra_retrier = infra;
    metrics = metrics;
    tracing_enabled = tracing;
    tracer_name = name;
    tracer = tr;
  })

  -- `retryInfra`, over the variables `C` that the closure assigns.
  unfoldable pub retry_infra :
      {C : Type 0} → Option (Retrier env) → Ctx → Work env C → C → World → Option Error × C × World
  unfolding retry
  retry_infra none ctx work c w = work ctx c w
  retry_infra (some r) ctx work c w = retry env r ctx work c w

  -- The message of a pair `(message.Message, error)`, and its error.
  abbrev pub message_of : Result (Message Any) → Message Any
  message_of (ok m) = m
  message_of (err _) = empty_message
