-- ===== src/Controller/Sagas.antt =====
-- controller/controller.go: what a delivery and the start of a saga come to.
use cliros.Prelude.{◌≡◌, ◌⊎◌, inl, inr, Bool-cases, none, if◌then◌else◌, List, [], ◌∷◌, arith}
use cliros.Errors.{Error, is_duplicate}
use cliros.Effect.{Result, ok, err, Io, ◌>>=◌}
use cliros.Message.{Message, complete, failed, get_type, empty_message}
use cliros.Env.{Env}
use cliros.Tracing.{extract_trace_context}
use cliros.Outbox.{SagaType, execute}
use cliros.Store.{Store, Postgres}
use cliros.Step.{Step}
use cliros.Executor.{StepExecutor}
use cliros.Executor.Atomicity.{IsContained, IsDeduplicating}
use cliros.Executor.Once.{IsQuiet?}
use cliros.Executor.Compensation.{IsCompensated, Compensates, compensate_step-Compensates}
use cliros.Executor.Runs.{run_with_user_retry, publish_event}
use cliros.Executor.Phases.{
  observed, execute_body, execute_step, or_recover, recover_execute, compensate_step,
}
use cliros.Controller.{Controller, dispatch, receive, run_steps}

get_type-failed : {A : Type 0} (m : Message A) → m.message_type ≡ failed → get_type m ≡ ok failed
unfolding get_type
get_type-failed m e = rw e

module _ {env : Env} where
  open env use {World, Ctx, Any}

  -- A phase answers what its body answers.
  observed-result :
      {A : Type 0} (e : StepExecutor env) (ctx : Ctx) (stp : Step env) (m : Message Any)
      (phase : SagaType) (body : Ctx → Io World A) (w : World) (r : Result A)
      → ((ctx' : Ctx) (w' : World) → (body ctx' w').0 ≡ r)
      → (observed env e ctx stp m phase body w).0 ≡ r
  unfolding observed
  observed-result e ctx stp m phase body w r h = elim (Bool-cases e.metrics) [
    | inl on ↦ simp on (h _ _)
    | inr off ↦ simp off (h _ _)
  ]

  failed_body :
      (e : StepExecutor env) (ctx : Ctx) (stp : Step env) (m : Message Any)
      (run : Result (Message Any) × World) (x : Error)
      → stp.on_error ≡ none
      → stp.routing.error_topics ≡ []
      → run.0 ≡ err x
      → (or_recover env e ctx stp m run).0 ≡ ok empty_message
  unfolding or_recover recover_execute publish_event
  failed_body e ctx stp m (ok out, w) x plain silent bad = absurd (ground arith)
  failed_body e ctx stp m (err y, w) x plain silent bad = elim (Bool-cases (is_duplicate y)) [
    | inl seen ↦ rw (plain, recover_execute, seen)
    | inr new ↦ rw (plain, recover_execute, new, silent, publish_event)
  ]

  then_steps :
      (c : Controller env) (ctx : Ctx) (stps : List (Step env)) (first : Io World (Message Any))
      (out : Message Any) (w : World)
      → (first w).0 ≡ ok out
      → (first >>= λ m. run_steps env c ctx stps m) w ≡ run_steps env c ctx stps out (first w).1
  unfolding ◌>>=◌
  then_steps c ctx stps first out w e = rw (◌>>=◌, e)

  -- The loop of `StartSagaWithSteps` goes on after a step that failed: where each run of the
  -- step's action ends in the error `x` and the step has no `OnError` and no error topics, the
  -- remaining steps run on a message whose fields, its saga id too, are empty.
  pub run_steps-after_failure :
      (c : Controller env) (ctx : Ctx) (stp : Step env) (stps : List (Step env)) (m : Message Any)
      (w : World) (x : Error)
      → stp.on_error ≡ none
      → stp.routing.error_topics ≡ []
      → ((ctx' : Ctx) (w' : World)
          → (run_with_user_retry env c.executor ctx' stp m stp.execute complete
              stp.routing.next_step_topics execute stp.retry_policy w').0
            ≡ err x)
      → run_steps env c ctx (stp ∷ stps) m w
        ≡ run_steps env c ctx stps empty_message (execute_step env c.executor ctx stp m w).1
  unfolding run_steps execute_step execute_body
  run_steps-after_failure c ctx stp stps m w x plain silent fails =
      then_steps c ctx stps (execute_step env c.executor ctx stp m) empty_message w (
        observed-result c.executor ctx stp m execute (execute_body env c.executor stp m) w
          (ok empty_message)
          λ ctx' w'.
            failed_body c.executor ctx' stp m
              (run_with_user_retry env c.executor ctx' stp m stp.execute complete
                stp.routing.next_step_topics execute stp.retry_policy w')
              x plain silent (fails ctx' w'))

module _ {env : Env} (pg : Postgres env) where
  open env use {World, Ctx, Uuid, Bytes, Any}
  open pg use {Other, committed}

  at_most_once :
      (stp : Step env) (m : Message Any) (s t : Store Uuid Bytes Other) (r : Result (Unit {0}))
      → Compensates pg stp m s r t
      → (t ≡ s) ⊎ IsCompensated pg stp m s t
  at_most_once stp m s t (ok _) h = inr h
  at_most_once stp m s t (err x) h = h

  -- The handler that `Register` subscribes, on a delivery of type failed at a step without
  -- `OnCompensateError`: the committed tables are as before, or the delivery was handled exactly
  -- once as a compensation. The executor's writer and inbox speak PostgreSQL, the message names
  -- the step it comes from, the compensation commits nothing by itself and leaves the two tables
  -- alone, and the backoff policies commit nothing.
  pub receive-IsCompensated :
      (c : Controller env) (stp : Step env) (ctx : Ctx) (m : Message Any) (w : World)
      → m.message_type ≡ failed
      → IsDeduplicating pg c.executor m
      → IsContained pg stp.compensate
      → IsQuiet? pg c.executor.infra_retrier
      → IsQuiet? pg stp.retry_policy
      → stp.on_compensate_error ≡ none
      → let w' = (receive env c stp ctx m w).1 in
        (committed w' ≡ committed w) ⊎ IsCompensated pg stp m (committed w) (committed w')
  unfolding receive dispatch
  receive-IsCompensated c stp ctx m w failure dedup contained infra user plain =
      let ctx' = if c.tracing_enabled then extract_trace_context env ctx m else ctx in
      let (r, w') = compensate_step env c.executor ctx' stp m w in
      rw (receive, get_type-failed m failure, dispatch)
        (at_most_once stp m (committed w) (committed w') r
          (compensate_step-Compensates pg c.executor ctx' stp m w dedup contained infra user plain))
