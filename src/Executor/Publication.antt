-- ===== src/Executor/Publication.antt =====
-- internal/executor/executor.go: the effect of `publishEvent` on the tables.
use cliros.Prelude.{
  String, ◌≡◌, ◌≢◌, refl, sym, subst, inl, inr, Option, some, none, List, [], ◌∷◌, Bool-cases,
}
use cliros.Errors.{Error}
use cliros.Effect.{Result, ok, err, wrapping, on_error, result_error}
use cliros.Message.{Message, MessageType, with_origin}
use cliros.Database.{postgres}
use cliros.Env.{Env}
use cliros.Retry.{Retrier, Work}
use cliros.Retry.Rules.{Unmoved, Outcome, retry-Outcome}
use cliros.Tracing.{start_step_span}
use cliros.Outbox.{SagaType, saga_text}
use cliros.Outbox.Writer.{write_tx}
use cliros.Outbox.Transaction.{Added, Added-once, write_tx-Atomic}
use cliros.Store.{Store, Postgres}
use cliros.Store.Atomic.{Settled}
use cliros.Step.{Step}
use cliros.Executor.{StepExecutor, retry_infra}
use cliros.Executor.Observed.{start_step_span-committed, end_step_span-committed}
use cliros.Executor.Once.{IsQuiet, IsQuiet?, Started, Started-moved, IsRepeatable}
use cliros.Executor.Runs.{publish_retried, publish_event}

module _ {env : Env} (pg : Postgres env) where
  open env use {World, Ctx, Uuid, Bytes, Any}
  open pg use {Other, committed}

  Settled-on_error :
      {A : Type 0} (s : Store Uuid Bytes Other) (H : A → Store Uuid Bytes Other → Type 0)
      (g : Error → Error) (r : Result A) (w : World)
      → Settled pg s H r w
      → Settled pg s H (on_error g r) w
  Settled-on_error s H g (ok a) w h = h
  Settled-on_error s H g (err x) w h = h

  -- No error: the effect `H`; an error: `H`, or nothing has happened.
  abbrev pub Reports :
      Store Uuid Bytes Other
      → (Unit {0} → Store Uuid Bytes Other → Type 0)
      → Option Error
      → World
      → Type 0
  Reports s H failed w =
      Outcome (λ c w'. H c (committed w')) (λ _ w'. Started pg s H w') failed tt w

  Settled-Reports :
      (s : Store Uuid Bytes Other) (H : Unit {0} → Store Uuid Bytes Other → Type 0)
      (r : Result (Unit {0})) (w : World)
      → Settled pg s H r w
      → Reports s H (result_error r) w
  Settled-Reports s H (ok a) w h = h
  Settled-Reports s H (err x) w h = h

  Reports-moved :
      (s : Store Uuid Bytes Other) (H : Unit {0} → Store Uuid Bytes Other → Type 0)
      (failed : Option Error) {w w' : World}
      → committed w' ≡ committed w
      → Reports s H failed w
      → Reports s H failed w'
  Reports-moved s H none same h = subst (H tt) (sym same) h
  Reports-moved s H (some x) same h = Started-moved pg s H same h

  Unit-Unmoved :
      (s : Store Uuid Bytes Other) (H : Unit {0} → Store Uuid Bytes Other → Type 0)
      (r : Retrier env)
      → IsQuiet pg r
      → Unmoved env (Started pg s H) r
  Unit-Unmoved s H r quiet = record {
    by_poll = λ ctx w. Started-moved pg s H (pg.poll_outside ctx w);
    by_await = λ ctx d w. Started-moved pg s H (pg.await_outside ctx d w);
    by_policy = λ n w. Started-moved pg s H (quiet n w);
  }

  infra-Reports :
      (s : Store Uuid Bytes Other) (H : Unit {0} → Store Uuid Bytes Other → Type 0)
      (r : Option (Retrier env)) (ctx : Ctx) (work : Work env (Unit {0})) (w : World)
      → IsQuiet? pg r
      → ((w' : World) → Started pg s H w' → Reports s H (work ctx tt w').0 (work ctx tt w').2)
      → Started pg s H w
      → let (failed, _, w') = retry_infra env r ctx work tt w in Reports s H failed w'
  unfolding retry_infra
  infra-Reports s H none ctx work w quiet run h = run w h
  infra-Reports s H (some r) ctx work w quiet run h =
      retry-Outcome env r work ctx (λ c w'. H c (committed w')) (λ _ w'. Started pg s H w')
        (λ _. Unit-Unmoved s H r quiet) (λ c w'. run w') tt w h

  module _ (e : StepExecutor env) (m : Message Any) (topics : List String) (step : String)
      (phase : SagaType) (writes : e.writer ≡ postgres) (some_topic : topics ≢ [])
      (s : Store Uuid Bytes Other) where
    abbrev Effect : Unit {0} → Store Uuid Bytes Other → Type 0
    Effect = λ _ t. Added pg m topics step phase s t

    write_tx-Repeatable :
        (ctx : Ctx) → IsRepeatable pg s Effect (write_tx env e.writer ctx m topics step phase none)
    write_tx-Repeatable ctx w (inl still) =
        (write_tx-Atomic pg e.writer ctx m topics step phase s w writes still).ends
    write_tx-Repeatable ctx w (inr (u, first)) =
        refused (write_tx env e.writer ctx m topics step phase none w).0
          (write_tx env e.writer ctx m topics step phase none w).1
          (write_tx-Atomic pg e.writer ctx m topics step phase (committed w) w writes refl).ends
      where
        refused :
            (r : Result (Unit {0})) (w' : World)
            → Settled pg (committed w) (λ _ t. Added pg m topics step phase (committed w) t) r w'
            → Settled pg s Effect r w'
        refused (ok o) w' second = absurd (
            Added-once pg m topics step phase s (committed w) (committed w') some_topic first
              second)
        refused (err x) w' (inl same) = inr (tt, subst (Effect tt) (sym same) first)
        refused (err x) w' (inr (o, second)) = absurd (
            Added-once pg m topics step phase s (committed w) (committed w') some_topic first
              second)

    publish_retried-Reports :
        (ctx : Ctx) (stp : Step env) (w : World)
        → stp.name ≡ step
        → IsQuiet? pg e.infra_retrier
        → committed w ≡ s
        → let (failed, w') = publish_retried env e ctx stp m topics phase w in
          Reports s Effect failed w'
    unfolding publish_retried wrapping
    publish_retried-Reports ctx stp w named quiet h =
        infra-Reports s Effect e.infra_retrier ctx _ w quiet
          (λ w' started.
            let run = write_tx env e.writer ctx m topics stp.name phase none w' in
            Settled-Reports s Effect _ run.1 (
              Settled-on_error s Effect _ run.0 run.1
                (rw named (write_tx-Repeatable ctx w' started))))
          (inl h)

  -- `publishEvent` with at least one topic, whatever its retries do: without an error exactly one
  -- row for each topic has been committed to the outbox, and after an error either nothing has
  -- changed or these rows were committed once all the same. The writer speaks PostgreSQL and the
  -- backoff policy commits nothing.
  pub publish_event-Reports :
      (e : StepExecutor env) (ctx : Ctx) (stp : Step env) (m : Message Any) (event : MessageType)
      (topics : List String) (phase : SagaType) (w : World)
      → e.writer ≡ postgres
      → topics ≢ []
      → IsQuiet? pg e.infra_retrier
      → let (failed, w') = publish_event env e ctx stp m event topics phase w in
        Reports
          (committed w)
          (λ _ t. Added pg (with_origin event stp.name m) topics stp.name phase (committed w) t)
          failed
          w'
  unfolding publish_event
  publish_event-Reports e ctx stp m event [] phase w writes some_topic quiet =
      absurd (some_topic refl)
  publish_event-Reports e ctx stp m event (t ∷ ts) phase w writes some_topic quiet =
      elim (Bool-cases e.tracing_enabled) [
        | inl traced ↦
            let out = with_origin event stp.name m in
            let ((ctx', span), w₁) =
              start_step_span env ctx e.tracer e.tracer_name m.saga_id stp.name (saga_text phase)
                w in
            let same =
              start_step_span-committed pg ctx e.tracer e.tracer_name m.saga_id stp.name
                (saga_text phase) w in
            let (failed, w₂) = publish_retried env e ctx' stp out (t ∷ ts) phase w₁ in
            simp traced (
              Reports-moved (committed w)
                (λ _ t'. Added pg out (t ∷ ts) stp.name phase (committed w) t') failed
                (end_step_span-committed pg span failed w₂)
                (publish_retried-Reports e out (t ∷ ts) stp.name phase writes some_topic
                  (committed w) ctx' stp w₁ refl quiet same))
        | inr off ↦ simp off (
            publish_retried-Reports e (with_origin event stp.name m) (t ∷ ts) stp.name phase writes
              some_topic (committed w) ctx stp w refl quiet refl)
      ]
