-- ===== src/Executor/Announcing.antt =====
-- internal/executor/executor.go: the failure event that a step publishes.
use cliros.Prelude.{String, ◌≡◌, refl, Option, some, none, List, [], ◌∷◌, ◌⊎◌, inl, inr}
use cliros.Errors.{Error}
use cliros.Message.{Message, failed, with_origin}
use cliros.Database.{postgres}
use cliros.Env.{Env}
use cliros.Outbox.{compensate}
use cliros.Outbox.Transaction.{Added}
use cliros.Store.{Store, Postgres}
use cliros.Step.{Step}
use cliros.Executor.{StepExecutor}
use cliros.Executor.Once.{IsQuiet?}
use cliros.Executor.Publication.{Reports, publish_event-Reports}
use cliros.Executor.Runs.{publish_event}

module _ {env : Env} (pg : Postgres env) where
  open env use {World, Ctx, Uuid, Bytes, Any}
  open pg use {Other, committed}

  -- A failure event of the step, for each of its error topics.
  abbrev pub Announced :
      Step env → Message Any → Store Uuid Bytes Other → Store Uuid Bytes Other → Type 0
  Announced stp out s t =
      ((stp.routing.error_topics ≡ []) × (t ≡ s))
      ⊎ Added pg (with_origin failed stp.name out) stp.routing.error_topics stp.name compensate s t

  -- What is committed of it, by the error that the publication came to.
  abbrev pub Announces :
      Step env
      → Option Error
      → Message Any
      → Store Uuid Bytes Other
      → Store Uuid Bytes Other
      → Type 0
  Announces stp none out u t = Announced stp out u t
  Announces stp (some x) out u t = (t ≡ u) ⊎ Announced stp out u t

  module _ (e : StepExecutor env) (stp : Step env) (writes : e.writer ≡ postgres)
      (quiet : IsQuiet? pg e.infra_retrier) where
    reported :
        (out : Message Any) (failure : Option Error) (u : Store Uuid Bytes Other) (w : World)
        → Reports pg u
            (λ _ t.
              Added pg
                (with_origin failed stp.name out)
                stp.routing.error_topics
                stp.name
                compensate
                u
                t)
            failure
            w
        → Announces stp failure out u (committed w)
    reported out none u w h = inr h
    reported out (some x) u w (inl same) = inl same
    reported out (some x) u w (inr (_, h)) = inr (inr h)

    pub announcing :
        (ctx : Ctx) (out : Message Any) (topics : List String) (w : World)
        → stp.routing.error_topics ≡ topics
        → let (failure, w') =
            publish_event env e ctx stp out failed stp.routing.error_topics compensate w in
          Announces stp failure out (committed w) (committed w')
    unfolding publish_event
    announcing ctx out [] w there = rw (there, publish_event) (inl (refl, refl))
    announcing ctx out (t ∷ ts) w there =
        let run = publish_event env e ctx stp out failed stp.routing.error_topics compensate w in
        reported out run.0 (committed w) run.1 (
          publish_event-Reports pg e ctx stp out failed stp.routing.error_topics compensate w writes
            (rw there λ no_topics. cc) quiet)
