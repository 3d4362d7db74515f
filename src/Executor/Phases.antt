-- ===== src/Executor/Phases.antt =====
-- internal/executor/executor.go: `ExecuteStep` and `CompensateStep`.
use cliros.Prelude.{
  ◌-◌, ◌||◌, not, true, Option, none, some, [], ◌∷◌, List, str_eq, Bool, false, if◌then◌else◌,
}
use cliros.Errors.{Error, wrap, is_duplicate}
use cliros.Effect.{Result, ok, err, Io, result_error}
use cliros.Message.{Message, complete, failed, empty_message, with_saga_id}
use cliros.Env.{Env, ErrorHandler}
use cliros.Tracing.{start_step_span, end_step_span}
use cliros.Metrics.{observe_step}
use cliros.Outbox.{SagaType, execute, compensate, saga_text}
use cliros.Step.{Step}
use cliros.Executor.{StepExecutor}
use cliros.Executor.Runs.{run_with_user_retry, run_error_handler, publish_event}

module _ (env : Env) where
  open env use {World, Ctx, Any, Span, now, span_from_context}

  -- The span at the start of a phase: a new one, or the one of the context.
  unfoldable pub enter_span :
      StepExecutor env → Ctx → Step env → Message Any → SagaType → World → (Ctx × Span) × World
  enter_span e ctx stp msg phase w =
      if e.tracing_enabled
      then start_step_span env ctx e.tracer e.tracer_name msg.saga_id stp.name (saga_text phase) w
      else ((ctx, span_from_context ctx), w)

  -- The span and the metrics that both phases open before their body and close by `defer`.
  unfoldable pub observed :
      {A : Type 0}
      → StepExecutor env
      → Ctx
      → Step env
      → Message Any
      → SagaType
      → (Ctx → Io World A)
      → Io World A
  observed e ctx stp msg phase body w =
      let ((ctx', span), w₁) = enter_span e ctx stp msg phase w in
      if e.metrics
      then (let (start, w₂) = now w₁ in
          let (r, w₃) = body ctx' w₂ in
          let (end, w₄) = now w₃ in
          let w₅ =
            observe_step env true stp.name (saga_text phase) (end - start) (result_error r) w₄ in
          (r, end_step_span env span (result_error r) w₅))
      else (let (r, w₂) = body ctx' w₁ in (r, end_step_span env span (result_error r) w₂))

  -- `return message.Message{}, err`
  abbrev pub published : Option Error × World → Result (Message Any) × World
  published (none, w) = (ok empty_message, w)
  published (some x, w) = (err x, w)

  -- `len(p) > 0`
  abbrev pub has_entries : {A : Type 0} → List A → Bool
  has_entries [] = false
  has_entries (_ ∷ _) = true

  -- `msgForError`: the handler's message if it is not empty, else the incoming one.
  unfoldable pub message_for_error : Message Any → Message Any → Message Any
  message_for_error msg out =
      if not (str_eq out.saga_id "") || has_entries out.payload
      then (if str_eq out.saga_id "" then with_saga_id msg.saga_id out else out)
      else msg

  -- The end of `ExecuteStep`, from the reply of the error handler.
  unfoldable pub after_handler :
      StepExecutor env
      → Ctx
      → Step env
      → Message Any
      → (Message Any × Option Error) × World
      → Result (Message Any) × World
  after_handler e ctx stp msg ((out, none), w) = (ok out, w)
  after_handler e ctx stp msg ((out, some x), w) = published (
      publish_event env e ctx stp (message_for_error msg out) failed stp.routing.error_topics
        compensate w)

  -- `ExecuteStep` once the action has failed with `x`.
  unfoldable pub recover_execute :
      StepExecutor env
      → Ctx
      → Step env
      → Message Any
      → Error
      → Option (ErrorHandler env)
      → Io World (Message Any)
  unfolding is_duplicate
  recover_execute e ctx stp msg x none w =
      if is_duplicate x
      then (ok empty_message, w)
      else published (publish_event env e ctx stp msg failed stp.routing.error_topics compensate w)
  recover_execute e ctx stp msg x (some h) w =
      after_handler e ctx stp msg
        (run_error_handler env e ctx stp msg x h complete stp.routing.next_step_topics execute w)

  unfoldable pub or_recover :
      StepExecutor env
      → Ctx
      → Step env
      → Message Any
      → Result (Message Any) × World
      → Result (Message Any) × World
  or_recover e ctx stp msg (ok out, w) = (ok out, w)
  or_recover e ctx stp msg (err x, w) = recover_execute e ctx stp msg x stp.on_error w

  -- The body of `ExecuteStep`.
  unfoldable pub execute_body :
      StepExecutor env → Step env → Message Any → Ctx → Io World (Message Any)
  execute_body e stp msg ctx w = or_recover e ctx stp msg (
      run_with_user_retry env e ctx stp msg stp.execute complete stp.routing.next_step_topics
        execute stp.retry_policy w)

  -- `StepExecutor.ExecuteStep`
  unfoldable pub execute_step :
      StepExecutor env → Ctx → Step env → Message Any → Io World (Message Any)
  execute_step e ctx stp msg = observed e ctx stp msg execute (execute_body e stp msg)

  abbrev pub compensated : (Message Any × Option Error) × World → Result (Unit {0}) × World
  compensated ((_, none), w) = (ok tt, w)
  compensated ((_, some x), w) = (err (wrap "compensation error handler failed" x), w)

  -- `CompensateStep` once the compensation has failed with `x`.
  unfoldable pub recover_compensate :
      StepExecutor env
      → Ctx
      → Step env
      → Message Any
      → Error
      → Option (ErrorHandler env)
      → Io World (Unit {0})
  recover_compensate e ctx stp msg x none w = (err (wrap "compensation failed" x), w)
  recover_compensate e ctx stp msg x (some h) w =
      compensated
        (run_error_handler env e ctx stp msg x h failed stp.routing.error_topics compensate w)

  unfoldable pub or_compensate :
      StepExecutor env
      → Ctx
      → Step env
      → Message Any
      → Result (Message Any) × World
      → Result (Unit {0}) × World
  or_compensate e ctx stp msg (ok _, w) = (ok tt, w)
  or_compensate e ctx stp msg (err x, w) =
      recover_compensate e ctx stp msg x stp.on_compensate_error w

  -- The body of `CompensateStep`.
  unfoldable pub compensate_body :
      StepExecutor env → Step env → Message Any → Ctx → Io World (Unit {0})
  compensate_body e stp msg ctx w = or_compensate e ctx stp msg (
      run_with_user_retry env e ctx stp msg stp.compensate failed stp.routing.error_topics
        compensate stp.retry_policy w)

  -- `StepExecutor.CompensateStep`
  unfoldable pub compensate_step :
      StepExecutor env → Ctx → Step env → Message Any → Io World (Unit {0})
  compensate_step e ctx stp msg = observed e ctx stp msg compensate (compensate_body e stp msg)
