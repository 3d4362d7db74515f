-- ===== src/Controller/Starts.antt =====
-- controller/controller.go, `StartSaga`: the first step of a saga.
use cliros.Prelude.{
  String, Bool, true, false, Option, some, arith, ◌≡◌, ◌≢◌, refl, ◌∙◌, sym, subst, [], ◌∷◌, ◌⊎◌,
  inl, inr, Bool-cases,
}
use cliros.Errors.{Error}
use cliros.Effect.{Result, ok, err, pure, ◌>>=◌, wrapping, deferring}
use cliros.Effect.Rules.{Result-cases, Ends-bind}
use cliros.Message.{Message, with_saga_id}
use cliros.Database.{postgres}
use cliros.Env.{Env, ErrorHandler}
use cliros.Metrics.{saga_started_inc}
use cliros.Tracing.{start_saga_span}
use cliros.Store.{Store, Postgres}
use cliros.Step.{Step}
use cliros.Executor.{StepExecutor}
use cliros.Executor.Atomicity.{IsContained}
use cliros.Executor.Handler.{IsContainedHandler}
use cliros.Executor.Beginning.{Begins, execute_step-Begins}
use cliros.Executor.Phases.{execute_step}
use cliros.Executor.Once.{IsQuiet?}
use cliros.Controller.{
  Controller, generate_saga_id, run_steps, run_saga, start_saga_with_steps, start_saga,
}

module _ {env : Env} (pg : Postgres env) where
  open env use {World, Ctx, Uuid, Bytes, Any, Tracer, new_v7, uuid_string}
  open pg use {Other, committed}

  saga_started_inc-committed :
      (b : Bool) (w : World) → committed (saga_started_inc env b w) ≡ committed w
  unfolding saga_started_inc
  saga_started_inc-committed false w = refl
  saga_started_inc-committed true w = pg.saga_started_outside w

  start_saga_span-committed :
      (ctx : Ctx) (tr : Option Tracer) (name id : String) (w : World)
      → committed (start_saga_span env ctx tr name id w).1 ≡ committed w
  unfolding start_saga_span
  start_saga_span-committed ctx tr name id w = pg.start_span_outside ctx _ _ _ _ w

  generate_saga_id-committed : (w : World) → committed (generate_saga_id env w).1 ≡ committed w
  unfolding generate_saga_id ◌>>=◌ wrapping
  generate_saga_id-committed w = ground (arith, pg.new_v7_outside w)

  generated :
      (id : String) (w : World)
      → (generate_saga_id env w).0 ≡ ok id
      → (u : Uuid) × (id ≡ uuid_string u)
  unfolding generate_saga_id ◌>>=◌ wrapping
  generated id w e = elim (Result-cases (new_v7 w).0) [
    | inl (u, made) ↦ (u, ground (arith, made, e))
    | inr (x, failed) ↦ absurd (ground (arith, failed, e))
  ]

  -- The answer without its message.
  abbrev pub dropped : Result (Message Any) → Result (Unit {0})
  dropped (ok _) = ok tt
  dropped (err x) = err x

  module _ (stp : Step env) (m : Message Any) (s : Store Uuid Bytes Other) where
    -- No id could be made and nothing has changed, or the step has run on the message with a new id.
    abbrev pub Started : StepExecutor env → Result (Message Any) → Store Uuid Bytes Other → Type 0
    Started e r t =
        ((x : Error) × (r ≡ err x) × (t ≡ s))
        ⊎ ((id : Uuid) × Begins pg stp (with_saga_id (uuid_string id) m) e s t r)

    -- The same, where only the error is returned.
    abbrev pub StartedSaga : StepExecutor env → Result (Unit {0}) → Store Uuid Bytes Other → Type 0
    StartedSaga e r t = (inner : Result (Message Any)) × (r ≡ dropped inner) × Started e inner t

  module _ (c : Controller env) (stp : Step env) (m : Message Any)
      (writes : c.executor.writer ≡ postgres) (quiet : IsQuiet? pg c.executor.infra_retrier)
      (start : m.from_step ≡ "") (some_topic : stp.routing.next_step_topics ≢ [])
      (contained : IsContained pg stp.execute)
      (handlers : (h : ErrorHandler env) → stp.on_error ≡ some h → IsContainedHandler pg h)
      (user : IsQuiet? pg stp.retry_policy) where
    abbrev Begun : String → Store Uuid Bytes Other → Result (Message Any) → World → Type 0
    Begun id s r w = Begins pg stp (with_saga_id id m) c.executor s (committed w) r

    run_steps-Begins :
        (ctx : Ctx) (id : String) (s : Store Uuid Bytes Other) (w : World)
        → committed w ≡ s
        → let (r, w') = run_steps env c ctx (stp ∷ []) (with_saga_id id m) w in Begun id s r w'
    unfolding run_steps
    run_steps-Begins ctx id s w same =
        let run = execute_step env c.executor ctx stp (with_saga_id id m) in
        let h =
          execute_step-Begins pg c.executor stp (with_saga_id id m) writes quiet start some_topic
            ctx w contained handlers user in
        subst
          (λ s'.
            let (r, w') = run_steps env c ctx (stp ∷ []) (with_saga_id id m) w in Begun id s' r w')
          same
          (Ends-bind (Begun id (committed w)) run (λ out. pure out) w (λ a e. rw e at h)
            (λ x e. rw e at h))

    run_saga-Begins :
        (ctx : Ctx) (id : String) (s : Store Uuid Bytes Other) (w : World)
        → committed w ≡ s
        → let (r, w') = run_saga env c ctx (stp ∷ []) (with_saga_id id m) w in Begun id s r w'
    unfolding run_saga deferring
    run_saga-Begins ctx id s w same =
        let w₁ = saga_started_inc env c.metrics w in
        let counted = saga_started_inc-committed c.metrics w ∙ same in
        elim (Bool-cases c.tracing_enabled) [
          | inl traced ↦
              let ((ctx', span), w₂) = start_saga_span env ctx c.tracer c.tracer_name id w₁ in
              let (r, w₃) = run_steps env c ctx' (stp ∷ []) (with_saga_id id m) w₂ in
              simp traced (
                subst (λ t. Begins pg stp (with_saga_id id m) c.executor s t r)
                  (sym (pg.end_span_outside span w₃))
                  (run_steps-Begins ctx' id s w₂
                    (start_saga_span-committed ctx c.tracer c.tracer_name id w₁ ∙ counted)))
          | inr off ↦ simp off (run_steps-Begins ctx id s w₁ counted)
        ]

    with_steps-Started :
        (ctx : Ctx) (w : World)
        → let (r, w') = start_saga_with_steps env c ctx (stp ∷ []) m w in
          Started stp m (committed w) c.executor r (committed w')
    unfolding start_saga_with_steps generate_saga_id
    with_steps-Started ctx w =
        Ends-bind (λ r w'. Started stp m (committed w) c.executor r (committed w'))
          (generate_saga_id env) (λ id. run_saga env c ctx (stp ∷ []) (with_saga_id id m)) w
          (λ id e.
            let (u, is) = generated id w e in
            let w₁ = (generate_saga_id env w).1 in
            let (r, w') = run_saga env c ctx (stp ∷ []) (with_saga_id id m) w₁ in
            inr (
              u,
              subst
                  (λ k. Begins pg stp (with_saga_id k m) c.executor (committed w) (committed w') r)
                  is (run_saga-Begins ctx id (committed w) w₁ (generate_saga_id-committed w)),
            ))
          (λ x e. inl (x, refl, generate_saga_id-committed w))

    pub start_saga-Starts :
        (ctx : Ctx) (w : World)
        → let (r, w') = start_saga env c ctx stp m w in
          StartedSaga stp m (committed w) c.executor r (committed w')
    unfolding start_saga
    start_saga-Starts ctx w =
        let h = with_steps-Started ctx w in
        Ends-bind (λ r w'. StartedSaga stp m (committed w) c.executor r (committed w'))
          (start_saga_with_steps env c ctx (stp ∷ []) m) (λ _. pure tt) w
          (λ out e. (ok out, refl, rw e at h)) (λ x e. (err x, refl, rw e at h))
