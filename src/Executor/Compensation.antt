-- ===== src/Executor/Compensation.antt =====
-- internal/executor/executor.go: the effect of `CompensateStep` on the tables.
use cliros.Prelude.{◌≡◌, ◌⊎◌, none}
use cliros.Effect.{Result, ok, err}
use cliros.Message.{Message, failed}
use cliros.Env.{Env}
use cliros.Outbox.{compensate}
use cliros.Store.{Store, Postgres}
use cliros.Store.Atomic.{Settled}
use cliros.Step.{Step}
use cliros.Executor.{StepExecutor}
use cliros.Executor.Atomicity.{IsContained, IsDeduplicating, Handled}
use cliros.Executor.Observed.{observed-committed}
use cliros.Executor.Once.{IsQuiet?, user_run-Once}
use cliros.Executor.Runs.{run_with_user_retry}
use cliros.Executor.Phases.{or_compensate, recover_compensate, compensate_body, compensate_step}

module _ {env : Env} (pg : Postgres env) where
  open env use {World, Ctx, Uuid, Bytes, Any}
  open pg use {Other, committed}

  -- The delivery `m` of a failure took the tables from `s` to `t`, once.
  abbrev pub IsCompensated :
      Step env → Message Any → Store Uuid Bytes Other → Store Uuid Bytes Other → Type 0
  IsCompensated stp m s t =
      (out : Message Any) × Handled pg stp.compensate stp.name m failed stp.routing.error_topics
        compensate out s t

  -- Success says that it did; an error, that it did or that nothing changed.
  abbrev pub Compensates :
      {A : Type 0}
      → Step env
      → Message Any
      → Store Uuid Bytes Other
      → Result A
      → Store Uuid Bytes Other
      → Type 0
  Compensates stp m s (ok _) t = IsCompensated stp m s t
  Compensates stp m s (err _) t = (t ≡ s) ⊎ IsCompensated stp m s t

  compensation :
      (e : StepExecutor env) (ctx : Ctx) (stp : Step env) (m : Message Any)
      (s : Store Uuid Bytes Other) (run : Result (Message Any) × World)
      → stp.on_compensate_error ≡ none
      → Settled pg s
          (λ out t.
            Handled pg stp.compensate stp.name m failed stp.routing.error_topics compensate out s t)
          run.0
          run.1
      → let (r, w) = or_compensate env e ctx stp m run in Compensates stp m s r (committed w)
  unfolding or_compensate recover_compensate
  compensation e ctx stp m s (ok out, w) plain h = (out, h)
  compensation e ctx stp m s (err x, w) plain h = rw (plain, recover_compensate) h

  -- `CompensateStep` at a step without `OnCompensateError`: on success the delivery was handled
  -- exactly once, with its rows for the error topics in the compensate phase; on an error the
  -- committed tables are as before, or it was handled exactly once. The executor's writer and
  -- inbox speak PostgreSQL, the message names the step it comes from, the compensation commits
  -- nothing by itself and leaves the two tables alone, and the backoff policies commit nothing.
  pub compensate_step-Compensates :
      (e : StepExecutor env) (ctx : Ctx) (stp : Step env) (m : Message Any) (w : World)
      → IsDeduplicating pg e m
      → IsContained pg stp.compensate
      → IsQuiet? pg e.infra_retrier
      → IsQuiet? pg stp.retry_policy
      → stp.on_compensate_error ≡ none
      → let (r, w') = compensate_step env e ctx stp m w in
        Compensates stp m (committed w) r (committed w')
  unfolding compensate_step compensate_body
  compensate_step-Compensates e ctx stp m w dedup contained infra user plain =
      observed-committed pg e ctx stp m compensate (compensate_body env e stp m) w
        (λ r t. Compensates stp m (committed w) r t)
        λ ctx' w' same.
          let run =
            run_with_user_retry env e ctx' stp m stp.compensate failed stp.routing.error_topics
              compensate stp.retry_policy w' in
          let once =
            user_run-Once pg e ctx' stp m stp.compensate failed stp.routing.error_topics compensate
              stp.retry_policy w' dedup contained infra user in
          compensation e ctx' stp m (committed w) run plain (rw (← same) once)
