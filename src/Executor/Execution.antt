-- ===== src/Executor/Execution.antt =====
-- internal/executor/executor.go: what a run of `ExecuteStep` may do to the tables, as a relation.
use cliros.Prelude.{◌≡◌, refl, some}
use cliros.Effect.{Result}
use cliros.Message.{Message, complete}
use cliros.Env.{Env, Action, ErrorHandler}
use cliros.Outbox.{execute}
use cliros.Store.{Store, Postgres}
use cliros.Step.{Step}
use cliros.Executor.{StepExecutor}
use cliros.Executor.Atomicity.{IsContained, IsDeduplicating}
use cliros.Executor.Handler.{IsContainedHandler, run_error_handler-Recovers}
use cliros.Executor.Observed.{observed-committed}
use cliros.Executor.Once.{IsQuiet?, user_run-Once}
use cliros.Executor.Outcomes.{ExecutesOf, or_recover-Executes}
use cliros.Executor.Tries.{Handling, Handling-IsExclusive}
use cliros.Executor.Runs.{run_with_user_retry}
use cliros.Executor.Phases.{execute_body, execute_step}

module _ {env : Env} (pg : Postgres env) where
  open env use {World, Ctx, Uuid, Bytes, Any}
  open pg use {Other, committed}

  module _ (stp : Step env) (m : Message Any) where
    -- A callback of the step handled the message, once.
    abbrev pub Handles :
        Action env → Message Any → Store Uuid Bytes Other → Store Uuid Bytes Other → Type 0
    Handles = Handling pg stp.name m complete stp.routing.next_step_topics execute

    -- What a run with the answer `r` does to the tables.
    abbrev pub Executes :
        StepExecutor env
        → Store Uuid Bytes Other
        → Store Uuid Bytes Other
        → Result (Message Any)
        → Type 0
    Executes e = ExecutesOf pg Handles e stp m

  module _ (e : StepExecutor env) (stp : Step env) (m : Message Any)
      (dedup : IsDeduplicating pg e m) (quiet : IsQuiet? pg e.infra_retrier) where
    -- `ExecuteStep` with or without `OnError` implements the relation `Executes`: either the
    -- action, or after its failure the error handler with the action's error, handled the
    -- delivery exactly once (key claimed, the callback's changes made, one outbox row for each
    -- next topic, in one commit) and the answer is its message; or the attempts of the action
    -- ended in an error, so did the run of the error handler if there is one, one of the two
    -- handled the delivery or neither, and then a failure event was committed for each error
    -- topic, with the handler's message or the incoming one, or the answer is the error of that
    -- publication, with the event committed or not; or there is no handler, the action's error is
    -- a duplicate's, no event follows and the answer is empty. The executor's writer and inbox
    -- speak PostgreSQL, the message names the step it comes from, the action commits nothing by
    -- itself and leaves the two tables alone, the error handler does too, and the backoff
    -- policies of the retriers commit nothing.
    pub execute_step-Executes :
        (ctx : Ctx) (w : World)
        → IsContained pg stp.execute
        → ((h : ErrorHandler env) → stp.on_error ≡ some h → IsContainedHandler pg h)
        → IsQuiet? pg stp.retry_policy
        → let (r, w') = execute_step env e ctx stp m w in
          Executes stp m e (committed w) (committed w') r
    unfolding execute_step execute_body
    execute_step-Executes ctx w contained handlers user =
        observed-committed pg e ctx stp m execute (execute_body env e stp m) w
          (λ r t. Executes stp m e (committed w) t r)
          λ ctx' w' same.
            let run =
              run_with_user_retry env e ctx' stp m stp.execute complete stp.routing.next_step_topics
                execute stp.retry_policy w' in
            or_recover-Executes pg (Handles stp m)
              (Handling-IsExclusive pg stp.name m complete stp.routing.next_step_topics execute) e
              stp m dedup.writes_postgres quiet
              (λ h x inner w₁ contained_handler.
                run_error_handler-Recovers pg e stp m x h complete stp.routing.next_step_topics
                  execute dedup contained_handler (committed w₁) inner w₁ quiet refl)
              ctx' (committed w) run (λ x failed. (ctx', w', same, failed)) handlers
              (rw (← same) (
                user_run-Once pg e ctx' stp m stp.execute complete stp.routing.next_step_topics
                  execute stp.retry_policy w' dedup contained quiet user))
