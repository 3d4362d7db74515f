-- ===== src/Executor/Keys.antt =====
-- internal/executor/executor.go: the primary keys, the claims and the rows, across a whole phase.
use cliros.Prelude.{String, sym, subst, Option, List, map, Among, IsDistinct, inl, inr}
use cliros.Effect.{Result, ok, err}
use cliros.Message.{Message, MessageType, failed, with_origin}
use cliros.Env.{Env, Action, ErrorHandler}
use cliros.Outbox.{SagaType, compensate}
use cliros.Outbox.Transaction.{Added}
use cliros.Store.{Store, Postgres, row_key}
use cliros.Store.Keys.{IsDistinct-rows, Among-rows, Keeps, Keeps-refl, Keeps-trans}
use cliros.Step.{Step}
use cliros.Executor.{StepExecutor}
use cliros.Executor.Atomicity.{Handled}
use cliros.Executor.Announcing.{Announced}
use cliros.Executor.Execution.{Executes}
use cliros.Executor.Outcomes.{acted, recovered, skipped, gave_up, broke_off}
use cliros.Executor.Tries.{Tried, unchanged, by_action, by_handler}
use cliros.Executor.Undoing.{Undoes}

module _ {env : Env} (pg : Postgres env) where
  open env use {Uuid, Bytes, Any}
  open pg use {Other}

  Handled-Keeps :
      {action : Action env} {name : String} {m : Message Any} {event : MessageType}
      {topics : List String} {phase : SagaType} {out : Message Any} {s t : Store Uuid Bytes Other}
      → Handled pg action name m event topics phase out s t
      → Keeps s t
  Handled-Keeps {s} h = record {
    keys = λ keyed. record {
      inbox_keys = subst IsDistinct (sym h.claimed) (h.fresh, keyed.inbox_keys);
      outbox_keys =
          subst (λ o. IsDistinct (map row_key o)) (sym h.sent)
            (IsDistinct-rows h.rows s.outbox keyed.outbox_keys h.new_keys);
    };
    claims = λ k there. subst (Among k) (sym h.claimed) (inr there);
    rows = λ k there.
        subst (λ o. Among k (map row_key o)) (sym h.sent) (Among-rows k s.outbox h.rows there);
  }

  Added-Keeps :
      (m : Message Any) (topics : List String) (step : String) (phase : SagaType)
      (s t : Store Uuid Bytes Other)
      → Added pg m topics step phase s t
      → Keeps s t
  Added-Keeps m topics step phase s t (rows, _, fresh, made) =
      subst (λ v. Keeps s v) (sym made)
        (record {
          keys = λ keyed. record {
            inbox_keys = keyed.inbox_keys;
            outbox_keys = IsDistinct-rows rows s.outbox keyed.outbox_keys fresh;
          };
          claims = λ k there. there;
          rows = λ k there. Among-rows k s.outbox rows there;
        })

  Tried-Keeps :
      {name : String} {m : Message Any} {action : Action env} {o : Option (ErrorHandler env)}
      {event : MessageType} {topics : List String} {phase : SagaType} {s t : Store Uuid Bytes Other}
      → Tried pg name m action o event topics phase s t
      → Keeps s t
  Tried-Keeps (unchanged same) = Keeps-refl same
  Tried-Keeps (by_action out h) = Handled-Keeps h
  Tried-Keeps (by_handler out (_, _, _, h)) = Handled-Keeps h

  Announced-Keeps :
      (stp : Step env) (m out : Message Any) (s t : Store Uuid Bytes Other)
      → Announced pg stp out s t
      → Keeps s t
  Announced-Keeps stp m out s t (inl (_, same)) = Keeps-refl same
  Announced-Keeps stp m out s t (inr added) =
      Added-Keeps (with_origin failed stp.name out) stp.routing.error_topics stp.name compensate s t
        added

  pub Executes-Keeps :
      (e : StepExecutor env) (stp : Step env) (m : Message Any) (s t : Store Uuid Bytes Other)
      (r : Result (Message Any))
      → Executes pg stp m e s t r
      → Keeps s t
  Executes-Keeps e stp m s t r (acted out _ h) = Handled-Keeps h
  Executes-Keeps e stp m s t r (recovered out _ _ _ _ _ h) = Handled-Keeps h
  Executes-Keeps e stp m s t r (skipped _ _ _ _ _ tried) = Tried-Keeps tried
  Executes-Keeps e stp m s t r (gave_up u out _ _ _ tried sent) =
      Keeps-trans (Tried-Keeps tried) (Announced-Keeps stp m out u t sent)
  Executes-Keeps e stp m s t r (broke_off u out _ _ _ _ _ tried (inl same)) =
      Keeps-trans (Tried-Keeps tried) (Keeps-refl same)
  Executes-Keeps e stp m s t r (broke_off u out _ _ _ _ _ tried (inr sent)) =
      Keeps-trans (Tried-Keeps tried) (Announced-Keeps stp m out u t sent)

  pub Undoes-Keeps :
      (stp : Step env) (m : Message Any) (s t : Store Uuid Bytes Other) (r : Result (Unit {0}))
      → Undoes pg stp m s r t
      → Keeps s t
  Undoes-Keeps stp m s t (ok _) (inl (out, h)) = Handled-Keeps h
  Undoes-Keeps stp m s t (ok _) (inr (out, (_, _, _, h))) = Handled-Keeps h
  Undoes-Keeps stp m s t (err x) tried = Tried-Keeps tried
