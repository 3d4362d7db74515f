-- ===== src/Executor/Beginning.antt =====
-- internal/executor/executor.go, `ExecuteStep`: a message that comes from no step.
use cliros.Prelude.{◌≡◌, ◌≢◌, refl, some, []}
use cliros.Errors.{Error}
use cliros.Effect.{Result}
use cliros.Message.{Message, complete}
use cliros.Database.{postgres}
use cliros.Env.{Env, Action, ErrorHandler}
use cliros.Outbox.{execute}
use cliros.Store.{Store, Postgres}
use cliros.Store.Atomic.{Atomic-begin}
use cliros.Step.{Step}
use cliros.Executor.{StepExecutor}
use cliros.Executor.Atomicity.{IsContained}
use cliros.Executor.Handler.{
  recovery, recovery_run, IsContainedHandler, Replies, run_error_handler-Replies,
}
use cliros.Executor.Observed.{observed-committed}
use cliros.Executor.Once.{IsQuiet?, exclusive-Repeatable}
use cliros.Executor.Opening.{Opened, Opened-once, attempt-Opens, user_run-Opens}
use cliros.Executor.Outcomes.{ExecutesOf, or_recover-Executes}
use cliros.Executor.Runs.{run_error_handler, run_with_user_retry}
use cliros.Executor.Phases.{execute_body, execute_step}

module _ {env : Env} (pg : Postgres env) where
  open env use {World, Ctx, Uuid, Bytes, Any}
  open pg use {Other, committed}

  module _ (stp : Step env) (m : Message Any) where
    -- A callback of the step had its effect on the message, once, and nothing was claimed.
    abbrev pub Opens :
        Action env → Message Any → Store Uuid Bytes Other → Store Uuid Bytes Other → Type 0
    Opens action out s t =
        Opened pg action stp.name m complete stp.routing.next_step_topics execute out s t

    -- What a run with the answer `r` does to the tables.
    abbrev pub Begins :
        StepExecutor env
        → Store Uuid Bytes Other
        → Store Uuid Bytes Other
        → Result (Message Any)
        → Type 0
    Begins e = ExecutesOf pg Opens e stp m

  module _ (e : StepExecutor env) (stp : Step env) (m : Message Any) (writes : e.writer ≡ postgres)
      (quiet : IsQuiet? pg e.infra_retrier) (start : m.from_step ≡ "")
      (some_topic : stp.routing.next_step_topics ≢ []) where
    Opens-IsExclusive :
        (a b : Action env) (out next : Message Any) (s t u : Store Uuid Bytes Other)
        → Opens stp m a out s t
        → ¬ Opens stp m b next t u
    Opens-IsExclusive a b out next s t u =
        Opened-once pg stp.name m complete stp.routing.next_step_topics execute a b out next s t u
          some_topic

    handler-Replies :
        (h : ErrorHandler env) (x : Error) (ctx : Ctx) (w : World)
        → IsContainedHandler pg h
        → let (reply, w') =
            run_error_handler env e ctx stp m x h complete stp.routing.next_step_topics execute w in
          Replies pg
            (committed w)
            (λ out t. Opens stp m (recovery env h x) out (committed w) t)
            reply
            w'
    unfolding recovery_run
    handler-Replies h x ctx w contained =
        let topics = stp.routing.next_step_topics in
        run_error_handler-Replies pg e stp m x h complete topics execute (committed w)
          (λ out t. Opens stp m (recovery env h x) out (committed w) t)
          (λ inner.
            exclusive-Repeatable pg (λ s out t. Opens stp m (recovery env h x) out s t)
              (committed w) (recovery_run env e inner stp m x h complete topics execute)
              (λ a b t u.
                Opens-IsExclusive (recovery env h x) (recovery env h x) a b (committed w) t u)
              λ s' w₁ h₁.
                (Atomic-begin pg {H = λ out t. Opens stp m (recovery env h x) out s' t} inner _ h₁
                  λ tx w₂ h₂ begun.
                    attempt-Opens pg e stp m (recovery env h x) complete topics execute writes start
                      (contained x) "commit error handler tx" inner tx s' w₂ h₂ begun).ends)
          ctx w quiet refl

    -- `ExecuteStep` on a message that comes from no step, at a step with a next topic.
    pub execute_step-Begins :
        (ctx : Ctx) (w : World)
        → IsContained pg stp.execute
        → ((h : ErrorHandler env) → stp.on_error ≡ some h → IsContainedHandler pg h)
        → IsQuiet? pg stp.retry_policy
        → let (r, w') = execute_step env e ctx stp m w in
          Begins stp m e (committed w) (committed w') r
    unfolding execute_step execute_body
    execute_step-Begins ctx w contained handlers user =
        observed-committed pg e ctx stp m execute (execute_body env e stp m) w
          (λ r t. Begins stp m e (committed w) t r)
          λ ctx' w' same.
            let run =
              run_with_user_retry env e ctx' stp m stp.execute complete stp.routing.next_step_topics
                execute stp.retry_policy w' in
            or_recover-Executes pg (Opens stp m) Opens-IsExclusive e stp m writes quiet
              handler-Replies ctx' (committed w) run (λ x failed. (ctx', w', same, failed)) handlers
              (rw (← same) (
                user_run-Opens pg e stp m stp.execute complete stp.routing.next_step_topics execute
                  writes start contained ctx' stp.retry_policy w' some_topic quiet user))
