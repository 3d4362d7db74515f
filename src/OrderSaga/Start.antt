-- ===== src/OrderSaga/Start.antt =====
-- examples/order-saga/main.go: the call of `StartSaga`.
use cliros.Prelude.{
  String, ◌≡◌, refl, sym, ◌∙◌, subst, ap, Option, none, some, [], ◌∷◌, ◌++◌, inl, inr,
}
use cliros.Errors.{Error}
use cliros.Effect.{Result, ok}
use cliros.Message.{Message, empty_message, complete, with_saga_id}
use cliros.Database.{SqlDialect, postgres, DbContext, new_db_context, new_db_context_with_db}
use cliros.Env.{Env, Action, ErrorHandler}
use cliros.Outbox.{execute}
use cliros.Store.{Store, Postgres}
use cliros.Executor.{StepExecutor}
use cliros.Executor.Announcing.{Announced}
use cliros.Executor.Handler.{IsContainedHandler, recovery}
use cliros.Executor.Once.{IsQuiet?}
use cliros.Executor.Opening.{Opened}
use cliros.Executor.Outcomes.{acted, recovered, skipped, gave_up, broke_off}
use cliros.Executor.Tries.{TriedOf, unchanged, by_action, by_handler}
use cliros.Executor.Beginning.{Begins}
use cliros.Controller.{Controller, start_saga}
use cliros.Controller.Startup.{new}
use cliros.Controller.Made.{new-IsMade}
use cliros.Controller.Starts.{start_saga-Starts, StartedSaga, dropped}
use cliros.OrderSaga.{Program, order_message, create_order, give_up, order_params, order_config}
use cliros.OrderSaga.Orders.{
  OrdersApart, Ordered, MayBeOrdered, Told, OrderEnds, ordered, told, failed_start, answer-ok,
  answer-accepted, one_row, create_order-world, create_order-IsContained,
}

module _ {env : Env} (pg : Postgres env) (program : Program env) where
  open env use {World, Ctx, Tx, Uuid, Bytes, Any, exec, marshal_payload}
  open pg use {Other, committed, pending}
  open program use {float64, blank}

  module _ (id : String) where
    -- The effects of the step's two callbacks on the empty message with the saga's id.
    abbrev Has : Action env → Message Any → Store Uuid Bytes Other → Store Uuid Bytes Other → Type 0
    Has action out s t =
        Opened pg action "create-order" (with_saga_id id empty_message) complete
          ("payment-service.process" ∷ []) execute out s t

    Has-Ordered :
        (out : Message Any) (s t : Store Uuid Bytes Other)
        → Has (create_order env program) out s t
        → Ordered pg program s t
    unfolding create_order
    Has-Ordered out s t h =
        let reply =
          answer-ok pg program "insert order" (order_message env program) h.reply _ h.replied in
        let (row, one, topic, holds, step) =
          one_row pg program out h.rows h.are_rows
            (h.same_payload ∙ ap (λ (k : Message Any). k.payload) (sym reply)) in
        record {
          ctx = h.ctx;
          tx = h.tx;
          before = h.before;
          from_start = h.from_start;
          accepted =
              answer-accepted pg program "insert order" (order_message env program) h.reply _
                h.replied;
          inserted =
              h.own
              ∙ ap (λ w. (pending h.tx w).other)
                  (create_order-world pg program h.ctx h.tx (with_saga_id id empty_message)
                    h.before);
          same_inbox = h.same_inbox;
          row = row;
          sent = h.sent ∙ ap (λ rows. s.outbox ++ rows) one;
          to_payment = topic;
          holds_order = holds;
          by_step = step;
        }

    -- `OnError` always answers with the error, so it has no effect.
    no-Has :
        (x : Error) (out : Message Any) (s t : Store Uuid Bytes Other)
        → ¬ Has (recovery env (give_up env program) x) out s t
    unfolding give_up
    no-Has x out s t h = let e = h.replied in absurd cc

    no_handler :
        (h : ErrorHandler env) (x : Error) (out : Message Any) (s t : Store Uuid Bytes Other)
        → some (give_up env program) ≡ some h
        → ¬ Has (recovery env h x) out s t
    no_handler h x out s t is =
        subst
          (λ (o : Option (ErrorHandler env)). elim o as (λ _. Type 0) [
            | none ↦ Unit
            | some k ↦ ¬ Has (recovery env k x) out s t
          ])
          is (no-Has x out s t)

    tried :
        (s t : Store Uuid Bytes Other)
        → TriedOf pg Has (create_order env program) (some (give_up env program)) s t
        → MayBeOrdered pg program s t
    tried s t (unchanged same) = inl same
    tried s t (by_action out h) = inr (Has-Ordered out s t h)
    tried s t (by_handler out (h, x, is, has)) = absurd (no_handler h x out s t is has)

    announced :
        (out : Message Any) (u t : Store Uuid Bytes Other)
        → Announced pg (order_params env program) out u t
        → Told pg program u t
    unfolding order_params
    announced out u t (inl (none_there, _)) = absurd cc
    announced out u t (inr added) = (out, added)

    ends :
        (e : StepExecutor env) (s t : Store Uuid Bytes Other) (r : Result (Message Any))
        → Begins pg (order_params env program) (with_saga_id id empty_message) e s t r
        → OrderEnds pg program s t (dropped pg r)
    unfolding order_params
    ends e s t r (acted out is h) = ordered (ap (dropped pg) is) (Has-Ordered out s t h)
    ends e s t r (recovered out h x same _ is has) = absurd (no_handler h x out s t same has)
    ends e s t r (skipped _ is _ _ _ _) = absurd cc
    ends e s t r (gave_up u out _ _ is before event) =
        told u (ap (dropped pg) is) (tried s u before) (announced out u t event)
    ends e s t r (broke_off u out _ x _ _ is before (inl same)) =
        failed_start u x (ap (dropped pg) is) (tried s u before) (inl same)
    ends e s t r (broke_off u out _ x _ _ is before (inr event)) =
        failed_start u x (ap (dropped pg) is) (tried s u before) (inr (announced out u t event))

  ended :
      (e : StepExecutor env) (s t : Store Uuid Bytes Other) (r : Result (Unit {0}))
      → StartedSaga pg (order_params env program) empty_message s e r t
      → OrderEnds pg program s t r
  ended e s t r (inner, is, inl (x, failure, same)) =
      failed_start s x (is ∙ ap (dropped pg) failure) (inl refl) (inl same)
  ended e s t r (inner, is, inr (id, begins)) =
      subst (OrderEnds pg program s t) (sym is) (ends (env.uuid_string id) e s t inner begins)

  dialect_of : Option DbContext → SqlDialect
  dialect_of none = postgres
  dialect_of (some db) = db.dialect

  -- What `New` takes from the configuration.
  new-configured :
      (c : Controller env)
      → new env float64 blank (some (order_config env program)) ≡ ok c
      → (c.executor.writer ≡ postgres)
        × (c.executor.infra_retrier ≡ (order_config env program).infra_retry)
  unfolding order_config new_db_context new_db_context_with_db dialect_of
  new-configured c e =
      let (db, is, made) = new-IsMade env float64 blank (order_config env program) e in
      (made.writes ∙ ap dialect_of (sym is), made.retries)

  give_up-IsContained : IsContainedHandler pg (give_up env program)
  unfolding give_up
  give_up-IsContained x = record {
    commits_nothing = λ ctx tx m w. refl;
    keeps_inbox = λ ctx tx m w. refl;
    keeps_outbox = λ ctx tx m w. refl;
  }

  only_give_up :
      (h : ErrorHandler env) → some (give_up env program) ≡ some h → IsContainedHandler pg h
  only_give_up h is =
      subst
        (λ (o : Option (ErrorHandler env)). elim o as (λ _. Type 0) [
          | none ↦ Unit
          | some k ↦ IsContainedHandler pg k
        ])
        is give_up-IsContained

  -- The saga of the example, started with the controller that `New` makes of its configuration:
  -- either `StartSaga` answers nil, the INSERT of the order has succeeded, and what it did has
  -- been committed exactly once, together with one outbox row for the payment service that holds
  -- the order; or a failure event for the topic order-service.compensate has been committed, and
  -- the order has been made at most once; or an error comes back, with the order and the event
  -- made or not. An order is never made without its row, nor the row without its order, although
  -- no key is claimed in the inbox. The INSERT into the service's own table does not write to the
  -- library's two tables.
  pub start_saga-OrderEnds :
      (c : Controller env) (ctx : Ctx) (w : World)
      → OrdersApart pg program
      → new env float64 blank (some (order_config env program)) ≡ ok c
      → let (r, w') = start_saga env c ctx (order_params env program) empty_message w in
        OrderEnds pg program (committed w) (committed w') r
  unfolding order_params order_config
  start_saga-OrderEnds c ctx w apart made =
      let (writes, retries) = new-configured c made in
      let (r, w') = start_saga env c ctx (order_params env program) empty_message w in
      ended c.executor (committed w) (committed w') r (
        start_saga-Starts pg c (order_params env program) empty_message writes
          (subst (IsQuiet? pg) (sym retries) (λ n w₁. refl)) refl (λ e. absurd cc)
          (create_order-IsContained pg program apart) only_give_up tt ctx w)
