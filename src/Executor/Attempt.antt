-- ===== src/Executor/Attempt.antt =====
-- internal/executor/executor.go, `atomicRun`: one attempt in one transaction.
use cliros.Prelude.{String, Option, none, some, List, [], ◌∷◌, str_eq, if◌then◌else◌}
use cliros.Errors.{Error, wrap, action_error}
use cliros.Effect.{Result, ok, err, Io, pure, ◌>>=◌, ◌>>◌, wrapping, deferring}
use cliros.Message.{Message, MessageType, with_saga_id, with_origin}
use cliros.Database.{SqlDialect}
use cliros.Env.{Env, Action}
use cliros.Retry.{as_retryable}
use cliros.Tracing.{inject_trace_context}
use cliros.Inbox.{claim}
use cliros.Outbox.{SagaType}
use cliros.Outbox.Writer.{write_messages}
use cliros.Step.{Step}
use cliros.Executor.{StepExecutor}

module _ (env : Env) where
  open env use {World, Ctx, Tx, Any, begin_tx, commit, rollback}

  -- A user callback's reply as a result: its error comes in the wrapper `*actionError`.
  abbrev pub acted : (Message Any × Option Error) × World → Result (Message Any) × World
  acted ((m, none), w) = (ok m, w)
  acted ((m, some e), w) = (err (action_error e), w)

  -- `if e.inbox != nil && msg.FromStep != ""` and the claim under it.
  unfoldable pub claim_if_needed : Option SqlDialect → Ctx → Tx → Message Any → Io World (Unit {0})
  claim_if_needed none ctx tx msg = pure tt
  claim_if_needed (some d) ctx tx msg =
      if str_eq msg.from_step "" then pure tt else claim env d ctx tx msg

  -- The fields that an outgoing message gets, and its trace context.
  unfoldable pub addressed :
      StepExecutor env → Ctx → String → MessageType → Message Any → Message Any
  addressed e ctx name event_type m =
      let m' = with_origin event_type name m in
      if e.tracing_enabled then inject_trace_context env ctx m' else m'

  -- `if len(topics) > 0`: the message is completed and written for each topic.
  unfoldable pub send_if_routed :
      StepExecutor env
      → Ctx
      → Tx
      → String
      → MessageType
      → List String
      → SagaType
      → Message Any
      → Io World (Message Any)
  unfolding as_retryable
  send_if_routed e ctx tx name event_type [] saga_type result = pure result
  send_if_routed e ctx tx name event_type (t ∷ ts) saga_type result = do
    let out = addressed e ctx name event_type result
    wrapping (λ x. as_retryable (wrap "outbox write" x))
        (write_messages env e.writer ctx out tx (t ∷ ts) name saga_type)
    pure out

  -- The body of `atomicRun` after `BeginTx`, with the text of its last error.
  unfoldable pub attempt_in_tx :
      String
      → StepExecutor env
      → Ctx
      → Tx
      → Step env
      → Message Any
      → Action env
      → MessageType
      → List String
      → SagaType
      → Io World (Message Any)
  unfolding as_retryable
  attempt_in_tx commit_text e ctx tx stp msg action event_type topics saga_type = do
    claim_if_needed e.inbox ctx tx msg
    result ← λ w. acted (action ctx tx msg w)
    sent ←
        send_if_routed e ctx tx stp.name event_type topics saga_type
          (with_saga_id msg.saga_id result)
    wrapping (λ x. as_retryable (wrap commit_text x)) (commit tx)
    pure sent

  -- `StepExecutor.atomicRun`
  unfoldable pub atomic_run :
      StepExecutor env
      → Ctx
      → Step env
      → Message Any
      → Action env
      → MessageType
      → List String
      → SagaType
      → Io World (Message Any)
  unfolding as_retryable
  atomic_run e ctx stp msg action event_type topics saga_type = do
    tx ← wrapping (λ x. as_retryable (wrap "begin tx" x)) (begin_tx ctx)
    deferring (rollback tx)
        (attempt_in_tx "commit tx" e ctx tx stp msg action event_type topics saga_type)
