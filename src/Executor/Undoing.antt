-- ===== src/Executor/Undoing.antt =====
-- internal/executor/executor.go: what a run of `CompensateStep` may do to the tables, as a relation.
use cliros.Prelude.{◌≡◌, refl, Option, some, none, ◌⊎◌, inl, inr}
use cliros.Errors.{Error}
use cliros.Effect.{Result, ok, err}
use cliros.Message.{Message, failed}
use cliros.Env.{Env, ErrorHandler}
use cliros.Outbox.{compensate}
use cliros.Store.{Store, Postgres}
use cliros.Store.Atomic.{Settled}
use cliros.Step.{Step}
use cliros.Executor.{StepExecutor}
use cliros.Executor.Atomicity.{IsContained, IsDeduplicating}
use cliros.Executor.Handler.{IsContainedHandler, Recovers, run_error_handler-Recovers}
use cliros.Executor.Observed.{observed-committed}
use cliros.Executor.Once.{IsQuiet?, user_run-Once}
use cliros.Executor.Tries.{ByAction, ByHandler, Tried, by_handler, ByHandler-later, Tried-before}
use cliros.Executor.Runs.{run_with_user_retry, run_error_handler}
use cliros.Executor.Phases.{
  compensated, or_compensate, recover_compensate, compensate_body, compensate_step,
}

module _ {env : Env} (pg : Postgres env) where
  open env use {World, Ctx, Uuid, Bytes, Any}
  open pg use {Other, committed}

  module _ (stp : Step env) (m : Message Any) where
    abbrev pub Undone : Message Any → Store Uuid Bytes Other → Store Uuid Bytes Other → Type 0
    Undone =
        ByAction pg stp.name m stp.compensate stp.on_compensate_error failed
          stp.routing.error_topics compensate

    abbrev pub UndoneByHandler :
        Message Any → Store Uuid Bytes Other → Store Uuid Bytes Other → Type 0
    UndoneByHandler =
        ByHandler pg stp.name m stp.compensate stp.on_compensate_error failed
          stp.routing.error_topics compensate

    abbrev pub TriedToUndo : Store Uuid Bytes Other → Store Uuid Bytes Other → Type 0
    TriedToUndo =
        Tried pg stp.name m stp.compensate stp.on_compensate_error failed stp.routing.error_topics
          compensate

    -- What a run with the answer `r` does to the tables.
    abbrev pub Undoes :
        {A : Type 0} → Store Uuid Bytes Other → Result A → Store Uuid Bytes Other → Type 0
    Undoes s (ok _) t =
        ((out : Message Any) × Undone out s t) ⊎ ((out : Message Any) × UndoneByHandler out s t)
    Undoes s (err _) t = TriedToUndo s t

  module _ (e : StepExecutor env) (stp : Step env) (m : Message Any)
      (dedup : IsDeduplicating pg e m) (quiet : IsQuiet? pg e.infra_retrier) where
    undo_handled :
        (h : ErrorHandler env) (x : Error) (s u : Store Uuid Bytes Other)
        (reply : Message Any × Option Error) (w : World)
        → stp.on_compensate_error ≡ some h
        → (u ≡ s) ⊎ ((a : Message Any) × Undone stp m a s u)
        → Recovers pg stp m x h failed stp.routing.error_topics compensate u reply w
        → let (r, w') = compensated env (reply, w) in Undoes stp m s r (committed w')
    undo_handled h x s u (out, none) w is before there = inr (
      out,
      ByHandler-later pg stp.name m stp.compensate stp.on_compensate_error failed
          stp.routing.error_topics compensate h x out s u (committed w) is before there,
    )
    undo_handled h x s u (out, some y) w is before (inl same) = rw same (
        Tried-before pg stp.name m stp.compensate stp.on_compensate_error failed
          stp.routing.error_topics compensate s u before)
    undo_handled h x s u (out, some y) w is before (inr (done, there)) = by_handler done (
        ByHandler-later pg stp.name m stp.compensate stp.on_compensate_error failed
          stp.routing.error_topics compensate h x done s u (committed w) is before there)

    undo_recover :
        (ctx : Ctx) (x : Error) (s : Store Uuid Bytes Other) (o : Option (ErrorHandler env))
        (w : World)
        → stp.on_compensate_error ≡ o
        → ((h : ErrorHandler env) → stp.on_compensate_error ≡ some h → IsContainedHandler pg h)
        → (committed w ≡ s) ⊎ ((a : Message Any) × Undone stp m a s (committed w))
        → let (r, w') = recover_compensate env e ctx stp m x o w in Undoes stp m s r (committed w')
    unfolding recover_compensate
    undo_recover ctx x s none w is contained before =
        Tried-before pg stp.name m stp.compensate stp.on_compensate_error failed
          stp.routing.error_topics compensate s (committed w) before
    undo_recover ctx x s (some h) w is contained before =
        let run =
          run_error_handler env e ctx stp m x h failed stp.routing.error_topics compensate w in
        undo_handled h x s (committed w) run.0 run.1 is before (
          run_error_handler-Recovers pg e stp m x h failed stp.routing.error_topics compensate dedup
            (contained h is) (committed w) ctx w quiet refl)

    or_compensate-Undoes :
        (ctx : Ctx) (s : Store Uuid Bytes Other) (run : Result (Message Any) × World)
        → ((h : ErrorHandler env) → stp.on_compensate_error ≡ some h → IsContainedHandler pg h)
        → Settled pg s (λ out t. Undone stp m out s t) run.0 run.1
        → let (r, w') = or_compensate env e ctx stp m run in Undoes stp m s r (committed w')
    unfolding or_compensate
    or_compensate-Undoes ctx s (ok out, w) contained h = inl (out, h)
    or_compensate-Undoes ctx s (err x, w) contained h =
        undo_recover ctx x s stp.on_compensate_error w refl contained h

    -- `CompensateStep` with or without `OnCompensateError` implements the relation `Undoes`: on
    -- success the compensation or else the error handler handled the delivery exactly once (key
    -- claimed, the callback's changes made, one outbox row of the compensate phase for each error
    -- topic, in one commit); on an error one of the two did, in a commit that reported an error,
    -- or nothing has changed. The executor's writer and inbox speak PostgreSQL, the message names
    -- the step it comes from, the action commits nothing by itself and leaves the two tables
    -- alone, the error handler does too, and the backoff policies of the retriers commit nothing.
    pub compensate_step-Undoes :
        (ctx : Ctx) (w : World)
        → IsContained pg stp.compensate
        → ((h : ErrorHandler env) → stp.on_compensate_error ≡ some h → IsContainedHandler pg h)
        → IsQuiet? pg stp.retry_policy
        → let (r, w') = compensate_step env e ctx stp m w in
          Undoes stp m (committed w) r (committed w')
    unfolding compensate_step compensate_body
    compensate_step-Undoes ctx w contained handlers user =
        observed-committed pg e ctx stp m compensate (compensate_body env e stp m) w
          (λ r t. Undoes stp m (committed w) r t)
          λ ctx' w' same.
            let run =
              run_with_user_retry env e ctx' stp m stp.compensate failed stp.routing.error_topics
                compensate stp.retry_policy w' in
            or_compensate-Undoes ctx' (committed w) run handlers (
              rw (← same) (
                user_run-Once pg e ctx' stp m stp.compensate failed stp.routing.error_topics
                  compensate stp.retry_policy w' dedup contained quiet user))
