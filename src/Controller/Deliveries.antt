-- ===== src/Controller/Deliveries.antt =====
-- controller/controller.go: what the handler of a topic may do to the tables, and histories of it.
use cliros.Prelude.{◌≡◌, refl, subst, ◌⊎◌, inl, inr, Option, some, if◌then◌else◌, ◌∙◌, List, String}
use cliros.Errors.{Error}
use cliros.Effect.{Result, ok, err, result_error}
use cliros.Effect.Rules.{Result-cases}
use cliros.Message.{
  get_type-ok, get_type-err, Message, MessageType, complete, failed, unknown_type, get_type,
}
use cliros.Env.{Env, Action, ErrorHandler}
use cliros.Outbox.{SagaType}
use cliros.Tracing.{extract_trace_context}
use cliros.Store.{Store, Postgres}
use cliros.Store.Keys.{Keeps, Keeps-refl, Keeps-trans}
use cliros.Step.{Step}
use cliros.Executor.Atomicity.{IsContained, IsDeduplicating}
use cliros.Executor.Announcing.{Announced}
use cliros.Executor.Execution.{Executes, execute_step-Executes}
use cliros.Executor.Outcomes.{acted, recovered, skipped, gave_up, broke_off}
use cliros.Executor.Handler.{IsContainedHandler}
use cliros.Executor.Keys.{Executes-Keeps, Undoes-Keeps}
use cliros.Executor.Once.{IsQuiet?, IsClaimed, not-IsClaimed}
use cliros.Executor.Phases.{execute_step, compensate_step}
use cliros.Executor.Tries.{Tried, unchanged, by_action, by_handler}
use cliros.Executor.Undoing.{Undoes, compensate_step-Undoes}
use cliros.Controller.{Controller, acknowledged, dispatch, receive}

module _ {env : Env} (pg : Postgres env) where
  open env use {World, Ctx, Uuid, Bytes, Any}
  open pg use {Other, committed}

  -- A step that the controller may serve with the message: the executor deduplicates, and the
  -- step's callbacks and the backoff policies work inside the transactions that they are given.
  pub record IsServed (c : Controller env) (stp : Step env) (m : Message Any) : Type 0 where
    pub dedup : IsDeduplicating pg c.executor m
    pub infra : IsQuiet? pg c.executor.infra_retrier
    pub user : IsQuiet? pg stp.retry_policy
    pub action : IsContained pg stp.execute
    pub undo : IsContained pg stp.compensate
    pub handler : (h : ErrorHandler env) → stp.on_error ≡ some h → IsContainedHandler pg h
    pub undo_handler :
        (h : ErrorHandler env) → stp.on_compensate_error ≡ some h → IsContainedHandler pg h

  -- What a delivery with the handler's answer does to the tables.
  pub data Delivers (c : Controller env) (stp : Step env) (m : Message Any)
      (s t : Store Uuid Bytes Other) (answer : Option Error) : Type 0 where
    executed :
        (r : Result (Message Any))
        → m.message_type ≡ complete
        → answer ≡ acknowledged (result_error r)
        → Executes pg stp m c.executor s t r
        → Delivers c stp m s t answer
    undone :
        (r : Result (Unit {0}))
        → m.message_type ≡ failed
        → answer ≡ acknowledged (result_error r)
        → Undoes pg stp m s r t
        → Delivers c stp m s t answer
    refused :
        (kind : String) (x : Error)
        → m.message_type ≡ unknown_type kind
        → answer ≡ some x
        → t ≡ s
        → Delivers c stp m s t answer

  dispatch-Delivers :
      (c : Controller env) (stp : Step env) (ctx : Ctx) (m : Message Any) (type : MessageType)
      (w : World)
      → m.message_type ≡ type
      → IsServed c stp m
      → let (answer, w') = dispatch env c ctx stp m type w in
        Delivers c stp m (committed w) (committed w') answer
  unfolding dispatch
  dispatch-Delivers c stp ctx m complete w is served =
      executed (execute_step env c.executor ctx stp m w).0 is refl (
        execute_step-Executes pg c.executor stp m served.dedup served.infra ctx w served.action
          served.handler served.user)
  dispatch-Delivers c stp ctx m failed w is served =
      undone (compensate_step env c.executor ctx stp m w).0 is refl (
        compensate_step-Undoes pg c.executor stp m served.dedup served.infra ctx w served.undo
          served.undo_handler served.user)
  dispatch-Delivers c stp ctx m (unknown_type t) w is served = refused t _ is refl refl

  pub receive-Delivers :
      (c : Controller env) (stp : Step env) (ctx : Ctx) (m : Message Any) (w : World)
      → IsServed c stp m
      → let (answer, w') = receive env c stp ctx m w in
        Delivers c stp m (committed w) (committed w') answer
  unfolding receive
  receive-Delivers c stp ctx m w served =
      let ctx' = if c.tracing_enabled then extract_trace_context env ctx m else ctx in
      elim (Result-cases (get_type m)) [
        | inl (type, e) ↦
            rw (receive, e) (dispatch-Delivers c stp ctx' m type w (get_type-ok m type e) served)
        | inr (x, e) ↦
            let (kind, is) = get_type-err m x e in rw (receive, e) (refused kind x is refl refl)
      ]

  pub Delivers-Keeps :
      (c : Controller env) (stp : Step env) (m : Message Any) (s t : Store Uuid Bytes Other)
      (answer : Option Error)
      → Delivers c stp m s t answer
      → Keeps s t
  Delivers-Keeps c stp m s t answer (executed r _ _ h) = Executes-Keeps pg c.executor stp m s t r h
  Delivers-Keeps c stp m s t answer (undone r _ _ h) = Undoes-Keeps pg stp m s t r h
  Delivers-Keeps c stp m s t answer (refused _ _ _ _ same) = Keeps-refl same

  -- Nothing happens but, perhaps, the announcement of a failure.
  abbrev pub IsIgnored :
      Step env → Message Any → Store Uuid Bytes Other → Store Uuid Bytes Other → Type 0
  IsIgnored stp m s t = (t ≡ s) ⊎ ((out : Message Any) × Announced pg stp out s t)

  module _ (c : Controller env) (stp : Step env) (m : Message Any) (s : Store Uuid Bytes Other)
      (there : IsClaimed pg m s) where
    Tried-IsClaimed :
        {action : Action env} {o : Option (ErrorHandler env)} {event : MessageType}
        {topics : List String} {phase : SagaType} {t : Store Uuid Bytes Other}
        → Tried pg stp.name m action o event topics phase s t
        → t ≡ s
    Tried-IsClaimed (unchanged same) = same
    Tried-IsClaimed (by_action out h) = absurd (not-IsClaimed pg h there)
    Tried-IsClaimed (by_handler out (_, _, _, h)) = absurd (not-IsClaimed pg h there)

    Announced-IsIgnored :
        (out : Message Any) (u t : Store Uuid Bytes Other)
        → u ≡ s
        → Announced pg stp out u t
        → IsIgnored stp m s t
    Announced-IsIgnored out u t same h = inr (out, subst (λ v. Announced pg stp out v t) same h)

    Executes-IsIgnored :
        (t : Store Uuid Bytes Other) (r : Result (Message Any))
        → Executes pg stp m c.executor s t r
        → IsIgnored stp m s t
    Executes-IsIgnored t r (acted out _ h) = absurd (not-IsClaimed pg h there)
    Executes-IsIgnored t r (recovered out _ _ _ _ _ h) = absurd (not-IsClaimed pg h there)
    Executes-IsIgnored t r (skipped _ _ _ _ _ tried) = inl (Tried-IsClaimed tried)
    Executes-IsIgnored t r (gave_up u out _ _ _ tried sent) =
        Announced-IsIgnored out u t (Tried-IsClaimed tried) sent
    Executes-IsIgnored t r (broke_off u out _ _ _ _ _ tried (inl same)) =
        inl (same ∙ Tried-IsClaimed tried)
    Executes-IsIgnored t r (broke_off u out _ _ _ _ _ tried (inr sent)) =
        Announced-IsIgnored out u t (Tried-IsClaimed tried) sent

    Undoes-IsClaimed :
        (t : Store Uuid Bytes Other) (r : Result (Unit {0})) → Undoes pg stp m s r t → t ≡ s
    Undoes-IsClaimed t (ok _) (inl (out, h)) = absurd (not-IsClaimed pg h there)
    Undoes-IsClaimed t (ok _) (inr (out, (_, _, _, h))) = absurd (not-IsClaimed pg h there)
    Undoes-IsClaimed t (err x) tried = Tried-IsClaimed tried

    Delivers-IsIgnored :
        (t : Store Uuid Bytes Other) (answer : Option Error)
        → Delivers c stp m s t answer
        → IsIgnored stp m s t
    Delivers-IsIgnored t answer (executed r _ _ h) = Executes-IsIgnored t r h
    Delivers-IsIgnored t answer (undone r _ _ h) = inl (Undoes-IsClaimed t r h)
    Delivers-IsIgnored t answer (refused _ _ _ _ same) = inl same

  -- What happens to the tables of a service: deliveries to its steps, in any order and number, and
  -- whatever leaves the keys primary and loses none.
  pub data History (c : Controller env) (first : World) : World → Type 0 where
    now : History c first first
    delivered :
        {w : World} (stp : Step env) (ctx : Ctx) (m : Message Any)
        → IsServed c stp m
        → History c first w
        → History c first (receive env c stp ctx m w).1
    elsewhere :
        {w w' : World} → Keeps (committed w) (committed w') → History c first w → History c first w'

  -- In any history of deliveries to the steps of the service and of other work that keeps them,
  -- the primary keys of the two tables stay distinct, no claim of the inbox is lost and no key of
  -- the outbox disappears. Each delivery of the history meets the conditions of the record
  -- `IsServed`.
  pub History-Keeps :
      {c : Controller env} {first w : World}
      → History c first w
      → Keeps (committed first) (committed w)
  History-Keeps now = Keeps-refl refl
  History-Keeps {c} (delivered {w} stp ctx m served before) =
      let run = receive env c stp ctx m w in
      Keeps-trans (History-Keeps before) (
        Delivers-Keeps c stp m (committed w) (committed run.1) run.0
          (receive-Delivers c stp ctx m w served))
  History-Keeps (elsewhere kept before) = Keeps-trans (History-Keeps before) kept

  -- Once the key of a message is in the committed inbox, no later delivery of it is handled, in
  -- whatever history of deliveries to the steps of the service and of other work that keeps the
  -- tables' keys: its handler leaves the committed tables as they are or adds failure events of
  -- the step, nothing else. Each delivery of the history and the last one meet the conditions of
  -- the record `IsServed`.
  pub IsClaimed-ever :
      {c : Controller env} {first w : World} (stp : Step env) (ctx : Ctx) (m : Message Any)
      → History c first w
      → IsClaimed pg m (committed first)
      → IsServed c stp m
      → IsIgnored stp m (committed w) (committed (receive env c stp ctx m w).1)
  IsClaimed-ever {c} {first} {w} stp ctx m history (id, parsed, there) served =
      let run = receive env c stp ctx m w in
      Delivers-IsIgnored c stp m (committed w)
        (id, parsed, (History-Keeps history).claims (id, m.from_step) there) (committed run.1) run.0
        (receive-Delivers c stp ctx m w served)
