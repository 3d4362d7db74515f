-- ===== src/Executor/Outcomes.antt =====
-- internal/executor/executor.go, `ExecuteStep`: what follows the attempts of the action, whatever
-- effect an attempt has.
use cliros.Prelude.{
  ◌≡◌, refl, sym, subst, ◌∙◌, Option, some, none, ◌⊎◌, inl, inr, true, false, Bool-cases,
}
use cliros.Errors.{Error, is_duplicate}
use cliros.Effect.{Result, ok, err}
use cliros.Message.{Message, complete, failed, empty_message}
use cliros.Database.{postgres}
use cliros.Env.{Env, Action, ErrorHandler}
use cliros.Outbox.{execute, compensate}
use cliros.Store.{Store, Postgres}
use cliros.Store.Atomic.{Settled}
use cliros.Step.{Step}
use cliros.Executor.{StepExecutor}
use cliros.Executor.Announcing.{Announced, Announces, announcing}
use cliros.Executor.Handler.{recovery, IsContainedHandler, Replies}
use cliros.Executor.Once.{IsQuiet?}
use cliros.Executor.Tries.{
  IsExclusive, effect-later, TriedOf, by_handler, ByHandlerOf-later, TriedOf-before,
}
use cliros.Executor.Runs.{run_with_user_retry, run_error_handler, publish_event}
use cliros.Executor.Phases.{
  published, message_for_error, after_handler, recover_execute, or_recover,
}

module _ {env : Env} (pg : Postgres env) where
  open env use {World, Ctx, Uuid, Bytes, Any}
  open pg use {Other, committed}

  module _ (e : StepExecutor env) (stp : Step env) (m : Message Any) where
    -- The executor's attempts of the action, begun at the tables `s`, end in the error `x`.
    abbrev pub Fails : Error → Store Uuid Bytes Other → Type 0
    Fails x s =
        (ctx : Ctx) × (w : World) × (committed w ≡ s)
        × ((run_with_user_retry env e ctx stp m stp.execute complete stp.routing.next_step_topics
              execute stp.retry_policy w).0
            ≡ err x)

    -- So does the run of the error handler, after the action's error, and `out` is the message for
    -- the event, made of the handler's reply.
    abbrev pub HandlerFails : ErrorHandler env → Error → Message Any → Type 0
    HandlerFails h x out =
        (ctx : Ctx) × (w : World) × (reply : Message Any) × (y : Error) × ((run_error_handler env e
            ctx stp m x h complete stp.routing.next_step_topics execute w).0
          ≡ (reply, some y))
        × (out ≡ message_for_error env m reply)

    -- The publication of the event, begun at the tables `u`, ends in the error `y`.
    abbrev pub PublicationFails : Message Any → Error → Store Uuid Bytes Other → Type 0
    PublicationFails out y u =
        (ctx : Ctx) × (w : World) × (committed w ≡ u)
        × ((publish_event env e ctx stp out failed stp.routing.error_topics compensate w).0
            ≡ some y)

  module _ (H : Action env → Message Any → Store Uuid Bytes Other → Store Uuid Bytes Other → Type 0)
      (e : StepExecutor env) (stp : Step env) (m : Message Any) where
    -- The action failed, and the error handler failed too, or there is none and the action's error
    -- is not a duplicate's; `out` is the message for the event.
    abbrev pub IsPublished : Error → Message Any → Store Uuid Bytes Other → Type 0
    IsPublished x out s =
        Fails e stp m x s
        × (stp.on_error ≡ none → (is_duplicate x ≡ false) × (out ≡ m))
        × ((h : ErrorHandler env) → stp.on_error ≡ some h → HandlerFails e stp m h x out)

    -- One of the step's two callbacks had its effect, or nothing happened.
    abbrev pub TriedStep : Store Uuid Bytes Other → Store Uuid Bytes Other → Type 0
    TriedStep = TriedOf pg H stp.execute stp.on_error

    -- What a run with the answer `r` does to the tables.
    pub data ExecutesOf (s t : Store Uuid Bytes Other) (r : Result (Message Any)) : Type 0 where
      acted : (out : Message Any) → r ≡ ok out → H stp.execute out s t → ExecutesOf s t r
      recovered :
          (out : Message Any) (h : ErrorHandler env) (x : Error)
          → stp.on_error ≡ some h
          → Fails e stp m x s
          → r ≡ ok out
          → H (recovery env h x) out s t
          → ExecutesOf s t r
      skipped :
          (x : Error)
          → stp.on_error ≡ none
          → Fails e stp m x s
          → is_duplicate x ≡ true
          → r ≡ ok empty_message
          → TriedStep s t
          → ExecutesOf s t r
      gave_up :
          (u : Store Uuid Bytes Other) (out : Message Any) (x : Error)
          → IsPublished x out s
          → r ≡ ok empty_message
          → TriedStep s u
          → Announced pg stp out u t
          → ExecutesOf s t r
      broke_off :
          (u : Store Uuid Bytes Other) (out : Message Any) (x y : Error)
          → IsPublished x out s
          → PublicationFails e stp m out y u
          → r ≡ err y
          → TriedStep s u
          → (t ≡ u) ⊎ Announced pg stp out u t
          → ExecutesOf s t r

  module _ (H : Action env → Message Any → Store Uuid Bytes Other → Store Uuid Bytes Other → Type 0)
      (alone : IsExclusive pg H) (e : StepExecutor env) (stp : Step env) (m : Message Any)
      (writes : e.writer ≡ postgres) (quiet : IsQuiet? pg e.infra_retrier)
      (replies : (h : ErrorHandler env) (x : Error) (ctx : Ctx) (w : World)
        → IsContainedHandler pg h
        → let (reply, w') =
            run_error_handler env e ctx stp m x h complete stp.routing.next_step_topics execute w in
          Replies pg
            (committed w)
            (λ out t. H (recovery env h x) out (committed w) t)
            reply
            w') where
    abbrev Ended : Store Uuid Bytes Other → Result (Message Any) × World → Type 0
    Ended s (r, w) = ExecutesOf H e stp m s (committed w) r

    published_so :
        (x : Error) (s u : Store Uuid Bytes Other) (out : Message Any) (failure : Option Error)
        (w : World)
        → IsPublished H e stp m x out s
        → TriedStep H e stp m s u
        → ((y : Error) → failure ≡ some y → PublicationFails e stp m out y u)
        → Announces pg stp failure out u (committed w)
        → Ended s (published env (failure, w))
    published_so x s u out none w why tried fails h = gave_up u out x why refl tried h
    published_so x s u out (some y) w why tried fails h =
        broke_off u out x y why (fails y refl) refl tried h

    -- The event is published from the tables that the attempts left.
    publishing :
        (ctx : Ctx) (out : Message Any) (x : Error) (s : Store Uuid Bytes Other) (w : World)
        → IsPublished H e stp m x out s
        → TriedStep H e stp m s (committed w)
        → Ended s (
            published env
              (publish_event env e ctx stp out failed stp.routing.error_topics compensate w))
    publishing ctx out x s w why tried =
        let run = publish_event env e ctx stp out failed stp.routing.error_topics compensate w in
        published_so x s (committed w) out run.0 run.1 why tried (λ y fails. (ctx, w, refl, fails))
          (announcing pg e stp writes quiet ctx out stp.routing.error_topics w refl)

    -- There is one error handler.
    only :
        (h k : ErrorHandler env) (x : Error) (out : Message Any)
        → stp.on_error ≡ some h
        → stp.on_error ≡ some k
        → HandlerFails e stp m h x out
        → HandlerFails e stp m k x out
    only h k x out is also failed_so =
        subst
          (λ (o : Option (ErrorHandler env)). elim o as (λ _. Type 0) [
            | none ↦ Unit
            | some j ↦ HandlerFails e stp m j x out
          ])
          (sym is ∙ also) failed_so

    recovering :
        (ctx : Ctx) (h : ErrorHandler env) (x : Error) (s u : Store Uuid Bytes Other)
        (reply : Message Any × Option Error) (w : World)
        → Fails e stp m x s
        → stp.on_error ≡ some h
        → ((y : Error)
            → reply.1 ≡ some y
            → HandlerFails e stp m h x (message_for_error env m reply.0))
        → (u ≡ s) ⊎ ((a : Message Any) × H stp.execute a s u)
        → Replies pg u (λ done t. H (recovery env h x) done u t) reply w
        → Ended s (after_handler env e ctx stp m (reply, w))
    unfolding after_handler
    recovering ctx h x s u (out, none) w failed_so is fails before there =
        recovered out h x is failed_so refl
          (effect-later pg H stp.execute stp.on_error h x out s u (committed w) alone before there)
    recovering ctx h x s u (out, some y) w failed_so is fails before (inl same) =
        publishing ctx (message_for_error env m out) x s w
          (
            failed_so,
            (λ no_handler. absurd cc),
            λ k same_k. only h k x (message_for_error env m out) is same_k (fails y refl),
          )
          (rw same (TriedOf-before pg H stp.execute stp.on_error s u before))
    recovering ctx h x s u (out, some y) w failed_so is fails before (inr (done, there)) =
        publishing ctx (message_for_error env m out) x s w
          (
            failed_so,
            (λ no_handler. absurd cc),
            λ k same_k. only h k x (message_for_error env m out) is same_k (fails y refl),
          )
          (by_handler done (
            ByHandlerOf-later pg H stp.execute stp.on_error h x done s u (committed w) alone is
              before there))

    recover :
        (ctx : Ctx) (x : Error) (s : Store Uuid Bytes Other) (o : Option (ErrorHandler env))
        (w : World)
        → Fails e stp m x s
        → stp.on_error ≡ o
        → ((h : ErrorHandler env) → stp.on_error ≡ some h → IsContainedHandler pg h)
        → (committed w ≡ s) ⊎ ((a : Message Any) × H stp.execute a s (committed w))
        → Ended s (recover_execute env e ctx stp m x o w)
    unfolding recover_execute
    recover ctx x s none w failed_so is contained before =
        let tried = TriedOf-before pg H stp.execute stp.on_error s (committed w) before in
        elim (Bool-cases (is_duplicate x)) [
          | inl seen ↦ rw (recover_execute, seen) (skipped x is failed_so seen refl tried)
          | inr other ↦
              rw (recover_execute, other)
                (publishing ctx m x s w
                  (failed_so, (λ no_handler. (other, refl)), λ h some_handler. absurd cc) tried)
        ]
    recover ctx x s (some h) w failed_so is contained before =
        let run =
          run_error_handler env e ctx stp m x h complete stp.routing.next_step_topics execute w in
        recovering ctx h x s (committed w) run.0 run.1 failed_so is
          (λ y f. (ctx, w, run.0.0, y, (λ i. (run.0.0, f i)), refl)) before
          (replies h x ctx w (contained h is))

    -- The end of `ExecuteStep`, after attempts with at most one effect.
    pub or_recover-Executes :
        (ctx : Ctx) (s : Store Uuid Bytes Other) (run : Result (Message Any) × World)
        → ((x : Error) → run.0 ≡ err x → Fails e stp m x s)
        → ((h : ErrorHandler env) → stp.on_error ≡ some h → IsContainedHandler pg h)
        → Settled pg s (λ out t. H stp.execute out s t) run.0 run.1
        → Ended s (or_recover env e ctx stp m run)
    unfolding or_recover
    or_recover-Executes ctx s (ok out, w) fails contained h = acted out refl h
    or_recover-Executes ctx s (err x, w) fails contained h =
        recover ctx x s stp.on_error w (fails x refl) refl contained h
