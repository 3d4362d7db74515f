-- ===== src/Executor/Handler.antt =====
-- internal/executor/executor.go: the effect of `runErrorHandler` on the tables.
use cliros.Prelude.{String, ◌≡◌, refl, sym, subst, Option, some, none, List, inl}
use cliros.Errors.{Error, wrap, as_action_error}
use cliros.Effect.{Result, ok, err, Io, ◌>>=◌, wrapping, deferring}
use cliros.Effect.Follows.{Follows, Follows-bind, Follows-deferring}
use cliros.Message.{Message, MessageType, empty_message}
use cliros.Env.{Env, Action, ErrorHandler}
use cliros.Retry.{Retrier, as_retryable}
use cliros.Retry.Rules.{Unmoved, Outcome, retry-Outcome}
use cliros.Outbox.{SagaType}
use cliros.Store.{Store, Postgres}
use cliros.Store.Atomic.{Settled, Atomic-begin}
use cliros.Step.{Step}
use cliros.Executor.{StepExecutor, retry_infra}
use cliros.Executor.Attempt.{acted, attempt_in_tx}
use cliros.Executor.Atomicity.{IsContained, IsDeduplicating, Handled, attempt-Atomic}
use cliros.Executor.Once.{
  IsQuiet, IsQuiet?, Started, Started-moved, IsRepeatable, Effect, Handled-Repeatable,
}
use cliros.Executor.Runs.{
  handled, handler_in_tx, handler_run, closing, handler_reply, run_error_handler,
}

module _ (env : Env) where
  open env use {World, Ctx, Tx, Any, begin_tx, rollback}

  -- The handler with the error that it is given, as an action.
  abbrev pub recovery : ErrorHandler env → Error → Action env
  recovery handler original ctx tx m w = handler ctx tx m original w

  -- A run of the handler's closure without the variable `handlerResultOnErr`.
  unfoldable pub recovery_run :
      StepExecutor env
      → Ctx
      → Step env
      → Message Any
      → Error
      → ErrorHandler env
      → MessageType
      → List String
      → SagaType
      → Io World (Message Any)
  recovery_run e ctx stp m original handler event topics phase = do
    tx ← wrapping (λ x. as_retryable (wrap "begin error handler tx" x)) (begin_tx ctx)
    deferring (rollback tx) (
        attempt_in_tx env "commit error handler tx" e ctx tx stp m (recovery handler original) event
          topics phase)

  Follows-beside :
      {K A : Type 0} (m : Io World A)
      → Follows {K = K} (λ kw. (let (r, w') = m kw.1 in (r, (kw.0, w')))) m
  Follows-beside m = record { same = λ k w. refl }

  split_reply :
      (reply : (Message Any × Option Error) × World) (kept : Message Any)
      → ((handled env kept reply).0, (handled env kept reply).1.1) ≡ acted env reply
  split_reply ((m, none), w) kept = refl
  split_reply ((m, some x), w) kept = refl

  handler_in_tx-Follows :
      (e : StepExecutor env) (ctx : Ctx) (tx : Tx) (stp : Step env) (m : Message Any)
      (original : Error) (handler : ErrorHandler env) (event : MessageType) (topics : List String)
      (phase : SagaType)
      → Follows (handler_in_tx env e ctx tx stp m original handler event topics phase) (
          attempt_in_tx env "commit error handler tx" e ctx tx stp m
            (recovery handler original)
            event
            topics
            phase)
  unfolding handler_in_tx attempt_in_tx
  handler_in_tx-Follows e ctx tx stp m original handler event topics phase =
      Follows-bind (Follows-beside _) λ _.
        Follows-bind (record { same = λ k w. split_reply (handler ctx tx m original w) k })
          λ result.
            Follows-bind (Follows-beside _)
              λ sent. Follows-bind (Follows-beside _) λ _. record { same = λ k w. refl }

  handler_run-Follows :
      (e : StepExecutor env) (ctx : Ctx) (stp : Step env) (m : Message Any) (original : Error)
      (handler : ErrorHandler env) (event : MessageType) (topics : List String) (phase : SagaType)
      → Follows
          (handler_run env e ctx stp m original handler event topics phase)
          (recovery_run e ctx stp m original handler event topics phase)
  unfolding handler_run recovery_run
  handler_run-Follows e ctx stp m original handler event topics phase =
      Follows-bind (Follows-beside _) λ tx.
        Follows-deferring _ _ (λ k w. refl)
          (handler_in_tx-Follows e ctx tx stp m original handler event topics phase)

module _ {env : Env} (pg : Postgres env) where
  open env use {World, Ctx, Uuid, Bytes, Any}
  open pg use {Other, committed}

  -- An error handler that works on its own tables, inside the transaction that it is given.
  abbrev pub IsContainedHandler : ErrorHandler env → Type 0
  IsContainedHandler handler = (x : Error) → IsContained pg (recovery env handler x)

  -- The handler's answer: its message, with its effect, or an error beside a message.
  abbrev pub Replies :
      Store Uuid Bytes Other
      → (Message Any → Store Uuid Bytes Other → Type 0)
      → Message Any × Option Error
      → World
      → Type 0
  Replies s H (out, none) w = H out (committed w)
  Replies s H (out, some x) w = Started pg s H w

  module _ (e : StepExecutor env) (stp : Step env) (m : Message Any) (original : Error)
      (handler : ErrorHandler env) (event : MessageType) (topics : List String) (phase : SagaType)
      (s : Store Uuid Bytes Other) (One : Message Any → Store Uuid Bytes Other → Type 0)
      (again : (ctx : Ctx)
        → IsRepeatable pg s One
            (recovery_run env e ctx stp m original handler event topics phase)) where
    closed :
        (out : Message Any) (r : Result (Message Any)) (kept : Message Any) (w : World)
        → Settled pg s One r w
        → let (failed, c, w') = closing env out (r, (kept, w)) in
          Outcome (λ c' w₁. One c'.0 (committed w₁)) (λ _ w₁. Started pg s One w₁) failed c w'
    closed out (ok a) kept w h = h
    closed out (err x) kept w h = h

    attempt :
        (ctx : Ctx) (c : Message Any × Message Any) (w : World)
        → Started pg s One w
        → let (failed, c', w') =
            closing env c.0
              (handler_run env e ctx stp m original handler event topics phase (c.1, w)) in
          Outcome (λ c'' w₁. One c''.0 (committed w₁)) (λ _ w₁. Started pg s One w₁) failed c' w'
    attempt ctx c w h =
        let run = handler_run env e ctx stp m original handler event topics phase (c.1, w) in
        closed c.0 run.0 run.1.0 run.1.1 (
          subst (λ (p : Result (Message Any) × World). Settled pg s One p.0 p.1)
            (sym (
              (handler_run-Follows env e ctx stp m original handler event topics phase).same c.1 w))
            (again ctx w h))

    One-Unmoved : (r : Retrier env) → IsQuiet pg r → Unmoved env (Started pg s One) r
    One-Unmoved r quiet = record {
      by_poll = λ ctx w. Started-moved pg s One (pg.poll_outside ctx w);
      by_await = λ ctx d w. Started-moved pg s One (pg.await_outside ctx d w);
      by_policy = λ n w. Started-moved pg s One (quiet n w);
    }

    handler_loop :
        (r : Option (Retrier env)) (ctx : Ctx) (c : Message Any × Message Any) (w : World)
        → IsQuiet? pg r
        → Started pg s One w
        → let (failed, c', w') =
            retry_infra env r ctx
              (λ inner c' w₁.
                closing env c'.0
                  (handler_run env e inner stp m original handler event topics phase (c'.1, w₁)))
              c
              w in
          Outcome (λ c'' w₁. One c''.0 (committed w₁)) (λ _ w₁. Started pg s One w₁) failed c' w'
    unfolding retry_infra
    handler_loop none ctx c w quiet h = attempt ctx c w h
    handler_loop (some r) ctx c w quiet h =
        retry-Outcome env r _ ctx (λ c'' w₁. One c''.0 (committed w₁)) (λ _ w₁. Started pg s One w₁)
          (λ _. One-Unmoved r quiet) (λ c' w₁ h₁. attempt ctx c' w₁ h₁) c w h

    replied_so :
        (failed : Option Error) (c : Message Any × Message Any) (w : World)
        → Outcome (λ c'' w₁. One c''.0 (committed w₁)) (λ _ w₁. Started pg s One w₁) failed c w
        → Replies s One (handler_reply env failed c) w
    replied_so none c w h = h
    replied_so (some x) c w h =
        elim (as_action_error x)
          as (λ o.
            Replies s One
              (elim o as (λ _. Message Any × Option Error) [
                | some inner ↦ (c.1, some inner)
                | none ↦ (empty_message, some x)
              ])
              w) [ none ↦ h | some y ↦ h ]

    -- Whatever its retries do, what may run again has one effect.
    pub run_error_handler-Replies :
        (ctx : Ctx) (w : World)
        → IsQuiet? pg e.infra_retrier
        → committed w ≡ s
        → let (reply, w') =
            run_error_handler env e ctx stp m original handler event topics phase w in
          Replies s One reply w'
    unfolding run_error_handler
    run_error_handler-Replies ctx w quiet h =
        let run =
          retry_infra env e.infra_retrier ctx
            (λ inner c' w₁.
              closing env c'.0
                (handler_run env e inner stp m original handler event topics phase (c'.1, w₁)))
            (empty_message, empty_message) w in
        replied_so run.0 run.1 run.2
          (handler_loop e.infra_retrier ctx (empty_message, empty_message) w quiet (inl h))

  module _ (stp : Step env) (m : Message Any) (original : Error) (handler : ErrorHandler env)
      (event : MessageType) (topics : List String) (phase : SagaType)
      (s : Store Uuid Bytes Other) where
    abbrev Recovered : Message Any → Store Uuid Bytes Other → Type 0
    Recovered = Effect pg stp m (recovery env handler original) event topics phase s

    abbrev pub Recovers : Message Any × Option Error → World → Type 0
    Recovers = Replies s Recovered

  module _ (e : StepExecutor env) (stp : Step env) (m : Message Any) (original : Error)
      (handler : ErrorHandler env) (event : MessageType) (topics : List String) (phase : SagaType)
      (dedup : IsDeduplicating pg e m) (contained : IsContainedHandler handler)
      (s : Store Uuid Bytes Other) where
    recovery_run-Repeatable :
        (ctx : Ctx)
        → IsRepeatable pg s
            (Recovered stp m original handler event topics phase s)
            (recovery_run env e ctx stp m original handler event topics phase)
    unfolding recovery_run
    recovery_run-Repeatable ctx =
        Handled-Repeatable pg stp m (recovery env handler original) event topics phase s
          (recovery_run env e ctx stp m original handler event topics phase)
          λ s' w h.
            (Atomic-begin pg
              {H = λ o t.
                Handled pg (recovery env handler original) stp.name m event topics phase o s' t}
              ctx _ h
              λ tx w₁ h₁ start.
                attempt-Atomic pg "commit error handler tx" e ctx tx stp m
                  (recovery env handler original) event topics phase s' w₁ dedup
                  (contained original) h₁ start).ends

    -- `runErrorHandler`, whatever its retries do: without an error the handler handled the
    -- delivery exactly once, with its message in the outbox rows, in one commit; with an error
    -- the committed tables are as before, or that one commit took place. The executor's writer
    -- and inbox speak PostgreSQL, the message names the step it comes from, the action commits
    -- nothing by itself and leaves the two tables alone, the error handler does too, and the
    -- backoff policy commits nothing.
    pub run_error_handler-Recovers :
        (ctx : Ctx) (w : World)
        → IsQuiet? pg e.infra_retrier
        → committed w ≡ s
        → let (reply, w') =
            run_error_handler env e ctx stp m original handler event topics phase w in
          Recovers stp m original handler event topics phase s reply w'
    run_error_handler-Recovers ctx w quiet h =
        run_error_handler-Replies e stp m original handler event topics phase s
          (Recovered stp m original handler event topics phase s) recovery_run-Repeatable ctx w
          quiet h
