-- ===== src/Executor/Runs.antt =====
-- internal/executor/executor.go: the two retry loops round an attempt, the error handler's
-- transaction and the publication of an event.
use cliros.Prelude.{String, Option, none, some, List, [], ◌∷◌, if◌then◌else◌}
use cliros.Errors.{Error, wrap, action_error, as_action_error}
use cliros.Effect.{Result, ok, err, Io, pure, ◌>>=◌, ◌>>◌, wrapping, deferring, result_error}
use cliros.Message.{Message, MessageType, empty_message, with_saga_id, with_origin}
use cliros.Env.{Env, Action, ErrorHandler}
use cliros.Retry.{Retrier, Work, as_retryable, retry}
use cliros.Tracing.{start_step_span, end_step_span}
use cliros.Outbox.{SagaType, saga_text}
use cliros.Outbox.Writer.{write_tx}
use cliros.Step.{Step}
use cliros.Executor.{StepExecutor, retry_infra, message_of}
use cliros.Executor.Attempt.{claim_if_needed, send_if_routed, atomic_run}

-- `ae.Unwrap()` if the error holds an `*actionError`, else the error itself.
abbrev pub unwrapped : Error → Error
unwrapped e = elim (as_action_error e) [ some inner ↦ inner | none ↦ e ]

module _ (env : Env) where
  open env use {World, Ctx, Tx, Any, begin_tx, commit, rollback}

  -- A closure `outMsg, runErr = f(ctx); return runErr`.
  abbrev pub assigning : (Ctx → Io World (Message Any)) → Work env (Message Any)
  assigning f ctx old w = let (r, w') = f ctx w in (result_error r, message_of env r, w')

  -- What a run returns from the loop's error and the variable `outMsg`.
  abbrev pub unwrap_run : Option Error → Message Any → Result (Message Any)
  unwrap_run none m = ok m
  unwrap_run (some e) m = err (unwrapped e)

  abbrev pub plain_run : Option Error → Message Any → Result (Message Any)
  plain_run none m = ok m
  plain_run (some e) m = err e

  -- `runWithInfraRetry`
  unfoldable pub run_with_infra_retry :
      StepExecutor env
      → Ctx
      → Step env
      → Message Any
      → Action env
      → MessageType
      → List String
      → SagaType
      → Io World (Message Any)
  unfolding as_action_error
  run_with_infra_retry e ctx stp msg action event_type topics saga_type w =
      let (failed, out, w') =
        retry_infra env e.infra_retrier ctx
          (assigning λ inner. atomic_run env e inner stp msg action event_type topics saga_type)
          empty_message w in
      (unwrap_run failed out, w')

  -- `runWithUserRetry`
  unfoldable pub run_with_user_retry :
      StepExecutor env
      → Ctx
      → Step env
      → Message Any
      → Action env
      → MessageType
      → List String
      → SagaType
      → Option (Retrier env)
      → Io World (Message Any)
  run_with_user_retry e ctx stp msg action event_type topics saga_type none w =
      run_with_infra_retry e ctx stp msg action event_type topics saga_type w
  run_with_user_retry e ctx stp msg action event_type topics saga_type (some r) w =
      let (failed, out, w') =
        retry env r ctx
          (assigning
            λ inner. run_with_infra_retry e inner stp msg action event_type topics saga_type)
          empty_message w in
      (plain_run failed out, w')

  -- The closure of `runErrorHandler` keeps `handlerResultOnErr` beside the world.
  abbrev pub beside : {A : Type 0} → Io World A → Io (Message Any × World) A
  beside m (kept, w) = let (r, w') = m w in (r, (kept, w'))

  abbrev pub handled :
      Message Any
      → (Message Any × Option Error) × World
      → Result (Message Any) × (Message Any × World)
  handled kept ((m, none), w) = (ok m, (kept, w))
  handled kept ((m, some x), w) = (err (action_error x), (m, w))

  -- The closure of `runErrorHandler` after its `BeginTx`.
  unfoldable pub handler_in_tx :
      StepExecutor env
      → Ctx
      → Tx
      → Step env
      → Message Any
      → Error
      → ErrorHandler env
      → MessageType
      → List String
      → SagaType
      → Io (Message Any × World) (Message Any)
  unfolding as_retryable
  handler_in_tx e ctx tx stp msg original handler event_type topics saga_type = do
    beside (claim_if_needed env e.inbox ctx tx msg)
    result ← λ kw. handled kw.0 (handler ctx tx msg original kw.1)
    sent ← beside (
        send_if_routed env e ctx tx stp.name event_type topics saga_type
          (with_saga_id msg.saga_id result))
    beside (wrapping (λ x. as_retryable (wrap "commit error handler tx" x)) (commit tx))
    pure sent

  -- One run of that closure.
  unfoldable pub handler_run :
      StepExecutor env
      → Ctx
      → Step env
      → Message Any
      → Error
      → ErrorHandler env
      → MessageType
      → List String
      → SagaType
      → Io (Message Any × World) (Message Any)
  unfolding as_retryable
  handler_run e ctx stp msg original handler event_type topics saga_type = do
    tx ← beside (wrapping (λ x. as_retryable (wrap "begin error handler tx" x)) (begin_tx ctx))
    deferring (λ kw. (kw.0, rollback tx kw.1))
        (handler_in_tx e ctx tx stp msg original handler event_type topics saga_type)

  -- The closure as the retry loop runs it, over `outMsg` and `handlerResultOnErr`.
  abbrev pub closing :
      Message Any
      → Result (Message Any) × (Message Any × World)
      → Option Error × (Message Any × Message Any) × World
  closing out (ok m, (kept, w)) = (none, (m, kept), w)
  closing out (err x, (kept, w)) = (some x, (out, kept), w)

  abbrev pub handler_reply : Option Error → Message Any × Message Any → Message Any × Option Error
  handler_reply none c = (c.0, none)
  handler_reply (some e) c = elim (as_action_error e) [
    | some inner ↦ (c.1, some inner)
    | none ↦ (empty_message, some e)
  ]

  -- `runErrorHandler`
  unfoldable pub run_error_handler :
      StepExecutor env
      → Ctx
      → Step env
      → Message Any
      → Error
      → ErrorHandler env
      → MessageType
      → List String
      → SagaType
      → World
      → (Message Any × Option Error) × World
  unfolding as_action_error
  run_error_handler e ctx stp msg original handler event_type topics saga_type w =
      let (failed, kept, w') =
        retry_infra env e.infra_retrier ctx
          (λ inner c w₁.
            closing c.0
              (handler_run e inner stp msg original handler event_type topics saga_type (c.1, w₁)))
          (empty_message, empty_message) w in
      (handler_reply failed kept, w')

  -- The retried write of `publishEvent`.
  unfoldable pub publish_retried :
      StepExecutor env
      → Ctx
      → Step env
      → Message Any
      → List String
      → SagaType
      → World
      → Option Error × World
  unfolding as_retryable
  publish_retried e ctx stp msg topics saga_type w =
      let (failed, _, w') =
        retry_infra env {C = Unit {0}} e.infra_retrier ctx
          (λ inner c w₁.
            let (r, w₂) =
              wrapping (λ x. as_retryable (wrap "publish event" x))
                (write_tx env e.writer inner msg topics stp.name saga_type none) w₁ in
            (result_error r, tt, w₂))
          tt w in
      (failed, w')

  -- `publishEvent`
  unfoldable pub publish_event :
      StepExecutor env
      → Ctx
      → Step env
      → Message Any
      → MessageType
      → List String
      → SagaType
      → World
      → Option Error × World
  publish_event e ctx stp msg event_type [] saga_type w = (none, w)
  publish_event e ctx stp msg event_type (t ∷ ts) saga_type w =
      let out = with_origin event_type stp.name msg in
      if e.tracing_enabled
      then (let ((ctx', span), w₁) =
            start_step_span env ctx e.tracer e.tracer_name msg.saga_id stp.name
              (saga_text saga_type) w in
          let (failed, w₂) = publish_retried e ctx' stp out (t ∷ ts) saga_type w₁ in
          (failed, end_step_span env span failed w₂))
      else publish_retried e ctx stp out (t ∷ ts) saga_type w
