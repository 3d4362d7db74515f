-- ===== src/Controller/Startup.antt =====
-- controller/controller.go: the configuration, `New`, `Init` and `Close`.
use cliros.Prelude.{String, Bool, true, false, Option, none, some, if◌then◌else◌, str_eq}
use cliros.Prelude.Int.{ℤ, pos, is_zero}
use cliros.Errors.{Error, leaf, wrap}
use cliros.Effect.{Result, ok, err, on_error}
use cliros.Backoff.{Float64, calc_backoff}
use cliros.Database.{DbContext}
use cliros.Env.{Env, BackoffPolicy}
use cliros.Retry.{Retrier}
use cliros.Outbox.Lifecycle.{start, shut}
use cliros.Outbox.Writer.{Row}
use cliros.Outbox.Reader.{Reader, new_polling_settings, new_backoff_settings, new_reader}
use cliros.Executor.{StepExecutor}
use cliros.Executor
use cliros.Controller.{Controller, run_migrations}

-- `defaultPollInterval`, `defaultBatchSize`, `defaultBackoffMin` and `defaultBackoffMax`
abbrev pub default_poll_interval : ℤ
default_poll_interval = pos 1000000000

abbrev pub default_batch_size : ℤ
default_batch_size = pos 10

abbrev pub default_backoff_min : ℤ
default_backoff_min = pos 100000000

abbrev pub default_backoff_max : ℤ
default_backoff_max = pos 60000000000

-- `if n == 0 { n = d }`
abbrev pub or_default : ℤ → ℤ → ℤ
or_default d n = if is_zero n then d else n

module _ (env : Env) where
  open env use {World, Ctx, Tracer}

  -- `TracingConfig`
  pub record TracingConfig : Type 0 where
    pub tracer : Option Tracer
    pub tracer_name : String

  -- `Config`; the subscriber, the publisher, the metrics are nil or not, and the channel for
  -- errors is `Env.try_send`.
  pub record Config : Type 0 where
    pub subscriber : Bool
    pub publisher : Bool
    pub db : Option DbContext
    pub infra_retry : Option (Retrier env)
    pub poll_interval : ℤ
    pub batch_size : ℤ
    pub backoff_policy : Option (BackoffPolicy env)
    pub backoff_min : ℤ
    pub backoff_max : ℤ
    pub metrics : Bool
    pub tracing : Option TracingConfig

  -- `backoff.Expontential{}`, where the configuration has no policy.
  unfoldable pub policy_or_default : Float64 → Option (BackoffPolicy env) → BackoffPolicy env
  policy_or_default fl none retries lo hi w =
      (calc_backoff fl (record { exp_factor = fl.zero_number }) retries lo hi, w)
  policy_or_default fl (some policy) retries lo hi w = policy retries lo hi w

  abbrev pub tracer_of : Option TracingConfig → Option Tracer
  tracer_of none = none
  tracer_of (some t) = t.tracer

  unfoldable pub tracer_name_of : Option TracingConfig → String
  tracer_name_of none = "saga"
  tracer_name_of (some t) = if str_eq t.tracer_name "" then "saga" else t.tracer_name

  abbrev pub is_given : {A : Type 0} → Option A → Bool
  is_given none = false
  is_given (some _) = true

  -- The reader that `New` makes; `blank` is the zero `OutboxMessage`.
  unfoldable pub reader_of : Float64 → Row env → Config → DbContext → Reader env
  unfolding new_reader new_polling_settings new_backoff_settings policy_or_default
  reader_of fl blank cfg db =
      new_reader env db.dialect
        (new_polling_settings (or_default default_poll_interval cfg.poll_interval)
          (or_default default_batch_size cfg.batch_size))
        (new_backoff_settings env (policy_or_default fl cfg.backoff_policy)
          (or_default default_backoff_min cfg.backoff_min)
          (or_default default_backoff_max cfg.backoff_max))
        blank

  -- The executor that `New` makes: its writer and its inbox have the context's dialect.
  unfoldable pub executor_of : Config → DbContext → Result (StepExecutor env)
  unfolding Executor.new tracer_name_of
  executor_of cfg db = on_error (wrap "creating executor") (
      Executor.new env db.db (some db.dialect) (some db.dialect) cfg.infra_retry cfg.metrics
        (is_given cfg.tracing) (tracer_name_of cfg.tracing) (tracer_of cfg.tracing))

  abbrev pub controller_of :
      Float64 → Row env → Config → DbContext → Result (StepExecutor env) → Result (Controller env)
  controller_of fl blank cfg db (err x) = err x
  controller_of fl blank cfg db (ok e) = ok (record {
    executor = e;
    reader = reader_of fl blank cfg db;
    dialect = db.dialect;
    metrics = cfg.metrics;
    tracing_enabled = is_given cfg.tracing;
    tracer = tracer_of cfg.tracing;
    tracer_name = tracer_name_of cfg.tracing;
  })

  -- `New`, of a configuration with a subscriber and a publisher.
  abbrev pub with_context : Float64 → Row env → Config → Option DbContext → Result (Controller env)
  with_context fl blank cfg none = err (leaf "db context is required")
  with_context fl blank cfg (some db) = controller_of fl blank cfg db (executor_of cfg db)

  -- `New`
  unfoldable pub new : Float64 → Row env → Option Config → Result (Controller env)
  unfolding executor_of reader_of
  new fl blank none = err (leaf "config is required")
  new fl blank (some cfg) =
      if cfg.subscriber
      then (if cfg.publisher
          then with_context fl blank cfg cfg.db
          else err (leaf "publisher is required"))
      else err (leaf "subscriber is required")

  abbrev started :
      Controller env → Result (Unit {0}) × World → Option Error × Controller env × World
  started c (err x, w) = (some (wrap "init: migrations" x), c, w)
  started c (ok _, w) =
      (none, record c { reader = record c.reader { lifecycle = start c.reader.lifecycle } }, w)

  -- `Init`, where no other call touches the reader.
  unfoldable pub init : Controller env → Ctx → World → Option Error × Controller env × World
  unfolding run_migrations start
  init c ctx w = started c (run_migrations env c ctx w)

  -- `Close`, where no other call touches the reader.
  unfoldable pub close : Controller env → Controller env
  unfolding shut
  close c = record c { reader = record c.reader { lifecycle = shut c.reader.lifecycle } }
