-- ===== src/Executor/Observed.antt =====
-- internal/executor/executor.go: the spans and the metrics round a phase, and the tables.
use cliros.Prelude.{
  ℕ, String, ◌≡◌, refl, sym, subst, ◌∙◌, Option, some, none, Bool, true, false, Bool-cases, inl,
  inr,
}
use cliros.Errors.{Error}
use cliros.Effect.{Result, Io}
use cliros.Message.{Message}
use cliros.Env.{Env}
use cliros.Tracing.{start_step_span, end_step_span}
use cliros.Metrics.{observe_step}
use cliros.Outbox.{SagaType, saga_text}
use cliros.Store.{Store, Postgres}
use cliros.Step.{Step}
use cliros.Executor.{StepExecutor}
use cliros.Executor.Phases.{enter_span, observed}

module _ {env : Env} (pg : Postgres env) where
  open env use {World, Ctx, Uuid, Bytes, Any, Span, Tracer, now}
  open pg use {Other, committed}

  pub start_step_span-committed :
      (ctx : Ctx) (tr : Option Tracer) (name saga step operation : String) (w : World)
      → committed (start_step_span env ctx tr name saga step operation w).1 ≡ committed w
  unfolding start_step_span
  start_step_span-committed ctx tr name saga step operation w = pg.start_span_outside ctx _ _ _ _ w

  enter_span-committed :
      (e : StepExecutor env) (ctx : Ctx) (stp : Step env) (m : Message Any) (phase : SagaType)
      (w : World)
      → committed (enter_span env e ctx stp m phase w).1 ≡ committed w
  unfolding enter_span
  enter_span-committed e ctx stp m phase w = elim (Bool-cases e.tracing_enabled) [
    | inl traced ↦
        rw (traced, enter_span)
          (start_step_span-committed ctx e.tracer e.tracer_name m.saga_id stp.name (saga_text phase)
            w)
    | inr off ↦ rw (off, enter_span)
  ]

  pub end_step_span-committed :
      (span : Span) (x : Option Error) (w : World)
      → committed (end_step_span env span x w) ≡ committed w
  unfolding end_step_span
  end_step_span-committed span none w = pg.end_span_outside span w
  end_step_span-committed span (some x) w =
      pg.end_span_outside span _
      ∙ pg.set_error_status_outside span x _
      ∙ pg.record_error_outside span x w

  observe_step-committed :
      (b : Bool) (step operation : String) (d : ℕ) (x : Option Error) (w : World)
      → committed (observe_step env b step operation d x w) ≡ committed w
  unfolding observe_step
  observe_step-committed false step operation d x w = refl
  observe_step-committed true step operation d x w =
      pg.step_duration_outside step operation d _ ∙ pg.steps_total_outside step operation _ w

  -- Spans and metrics leave what the body commits.
  pub observed-committed :
      {A : Type 0} (e : StepExecutor env) (ctx : Ctx) (stp : Step env) (m : Message Any)
      (phase : SagaType) (body : Ctx → Io World A) (w : World)
      (P : Result A → Store Uuid Bytes Other → Type 0)
      → ((ctx' : Ctx) (w' : World)
          → committed w' ≡ committed w
          → P (body ctx' w').0 (committed (body ctx' w').1))
      → let (r, w') = observed env e ctx stp m phase body w in P r (committed w')
  unfolding observed
  observed-committed e ctx stp m phase body w P h = elim (Bool-cases e.metrics) [
    | inl on ↦
        let ((ctx', span), w₁) = enter_span env e ctx stp m phase w in
        let w₂ = (now w₁).1 in
        simp on (
          subst (P (body ctx' w₂).0)
            (sym (
              end_step_span-committed span _ _
              ∙ observe_step-committed true stp.name (saga_text phase) _ _ _
              ∙ pg.now_committed (body ctx' w₂).1))
            (h ctx' w₂ (pg.now_committed w₁ ∙ enter_span-committed e ctx stp m phase w)))
    | inr off ↦
        let ((ctx', span), w₁) = enter_span env e ctx stp m phase w in
        simp off (
          subst (P (body ctx' w₁).0) (sym (end_step_span-committed span _ _))
            (h ctx' w₁ (enter_span-committed e ctx stp m phase w)))
  ]
