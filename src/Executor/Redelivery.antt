-- ===== src/Executor/Redelivery.antt =====
-- internal/executor/executor.go: redelivered messages, in either phase.
use cliros.Prelude.{String, ◌≡◌, refl, Option, none, List, inl, inr}
use cliros.Errors.{Error, wrap}
use cliros.Effect.{Result, ok, err}
use cliros.Message.{Message, MessageType, failed}
use cliros.Env.{Env, Action}
use cliros.Retry.{Retrier}
use cliros.Outbox.{SagaType, compensate}
use cliros.Store.{Store, Postgres}
use cliros.Store.Atomic.{Settled}
use cliros.Step.{Step}
use cliros.Executor.{StepExecutor}
use cliros.Executor.Atomicity.{IsContained, IsDeduplicating, Handled}
use cliros.Executor.Observed.{observed-committed}
use cliros.Executor.Once.{IsQuiet?, IsClaimed, not-IsClaimed, user_run-Once}
use cliros.Executor.Runs.{run_with_user_retry}
use cliros.Executor.Phases.{or_compensate, recover_compensate, compensate_body, compensate_step}

module _ {env : Env} (pg : Postgres env) where
  open env use {World, Ctx, Uuid, Bytes, Any, Span, Tracer}
  open pg use {Other, committed}

  -- An error, and nothing committed.
  abbrev pub IsRefused : {A : Type 0} → Store Uuid Bytes Other → Result A → World → Type 0
  IsRefused s r w = ((x : Error) × (r ≡ err x)) × (committed w ≡ s)

  run-IsRefused :
      (action : Action env) (name : String) (m : Message Any) (event : MessageType)
      (topics : List String) (phase : SagaType) (s : Store Uuid Bytes Other)
      (r : Result (Message Any)) (w : World)
      → IsClaimed pg m s
      → Settled pg s (λ out t. Handled pg action name m event topics phase out s t) r w
      → IsRefused s r w
  run-IsRefused action name m event topics phase s (ok out) w there h =
      absurd (not-IsClaimed pg h there)
  run-IsRefused action name m event topics phase s (err x) w there (inl same) = ((x, refl), same)
  run-IsRefused action name m event topics phase s (err x) w there (inr (out, h)) =
      absurd (not-IsClaimed pg h there)

  -- A message whose key is already in the committed inbox is refused: `runWithUserRetry` ends in
  -- an error and the committed tables stay as they are, whatever the two retry loops do. The
  -- executor's writer and inbox speak PostgreSQL, the message names the step it comes from, the
  -- action commits nothing by itself and leaves the two tables alone, and the backoff policies
  -- commit nothing.
  pub user_run-IsRefused :
      (e : StepExecutor env) (ctx : Ctx) (stp : Step env) (m : Message Any) (action : Action env)
      (event : MessageType) (topics : List String) (phase : SagaType) (r : Option (Retrier env))
      (w : World)
      → IsDeduplicating pg e m
      → IsContained pg action
      → IsQuiet? pg e.infra_retrier
      → IsQuiet? pg r
      → IsClaimed pg m (committed w)
      → let (result, w') = run_with_user_retry env e ctx stp m action event topics phase r w in
        IsRefused (committed w) result w'
  user_run-IsRefused e ctx stp m action event topics phase r w dedup contained infra user there =
      let run = run_with_user_retry env e ctx stp m action event topics phase r w in
      run-IsRefused action stp.name m event topics phase (committed w) run.0 run.1 there
        (user_run-Once pg e ctx stp m action event topics phase r w dedup contained infra user)

  or_compensate-IsRefused :
      (e : StepExecutor env) (ctx : Ctx) (stp : Step env) (m : Message Any)
      (s : Store Uuid Bytes Other) (run : Result (Message Any) × World)
      → stp.on_compensate_error ≡ none
      → IsRefused s run.0 run.1
      → let (r, w) = or_compensate env e ctx stp m run in IsRefused s r w
  unfolding or_compensate recover_compensate
  or_compensate-IsRefused e ctx stp m s (ok out, w) plain h = cc
  or_compensate-IsRefused e ctx stp m s (err x, w) plain h =
      rw (plain, recover_compensate) ((wrap "compensation failed" x, refl), h.1)

  -- `CompensateStep` commits nothing and ends in an error where the committed inbox has the
  -- message's key, even if the claim was made for a message of the other type: the key has no
  -- type in it. The step has no `OnCompensateError`; the executor's writer and inbox speak
  -- PostgreSQL, the message names the step it comes from, the compensation commits nothing by
  -- itself and leaves the two tables alone, and the backoff policies commit nothing.
  pub compensate_step-IsRefused :
      (e : StepExecutor env) (ctx : Ctx) (stp : Step env) (m : Message Any) (w : World)
      → IsDeduplicating pg e m
      → IsContained pg stp.compensate
      → IsQuiet? pg e.infra_retrier
      → IsQuiet? pg stp.retry_policy
      → stp.on_compensate_error ≡ none
      → IsClaimed pg m (committed w)
      → let (result, w') = compensate_step env e ctx stp m w in IsRefused (committed w) result w'
  unfolding compensate_step compensate_body
  compensate_step-IsRefused e ctx stp m w dedup contained infra user plain there =
      observed-committed pg e ctx stp m compensate (compensate_body env e stp m) w
        (λ r t. ((x : Error) × (r ≡ err x)) × (t ≡ committed w))
        λ ctx' w' same.
          let run =
            run_with_user_retry env e ctx' stp m stp.compensate failed stp.routing.error_topics
              compensate stp.retry_policy w' in
          let refused =
            user_run-IsRefused e ctx' stp m stp.compensate failed stp.routing.error_topics
              compensate stp.retry_policy w' dedup contained infra user (rw same there) in
          or_compensate-IsRefused e ctx' stp m (committed w) run plain (rw (← same) refused)
