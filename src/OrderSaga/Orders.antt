-- ===== src/OrderSaga/Orders.antt =====
-- examples/order-saga/main.go: what the step's action does to the tables, and how the start of the
-- saga may end.
use cliros.Prelude.{ℕ, String, ◌≡◌, refl, sym, ◌∙◌, ap, Option, none, List, [], ◌∷◌, ◌++◌, ◌⊎◌}
use cliros.Errors.{Error}
use cliros.Effect.{Result, ok, err}
use cliros.Message.{Message, failed, with_origin}
use cliros.Env.{Env}
use cliros.Outbox.{execute, compensate}
use cliros.Outbox.Rows.{AreRowsOf}
use cliros.Outbox.Transaction.{Added}
use cliros.Store.{OutboxRow, Store, Postgres}
use cliros.Executor.Atomicity.{IsContained}
use cliros.OrderSaga.{Program, insert_order, order_message, answer, create_order}

module _ {env : Env} (pg : Postgres env) (program : Program env) where
  open env use {World, Ctx, Tx, Uuid, Bytes, Any, exec, marshal_payload}
  open pg use {Other, committed, pending}
  open program use {float64, blank}

  -- PostgreSQL's INSERT into `orders` does not write to the library's two tables.
  pub record OrdersApart : Type 0 where
    pub keeps_inbox :
        (ctx : Ctx) (tx : Tx) (w : World)
        → (pending tx (exec ctx tx (insert_order env program) w).1).inbox ≡ (pending tx w).inbox
    pub keeps_outbox :
        (ctx : Ctx) (tx : Tx) (w : World)
        → (pending tx (exec ctx tx (insert_order env program) w).1).outbox ≡ (pending tx w).outbox

  answer-world :
      {A : Type 0} (label : String) (m : Message Any) (reply : Result A × World)
      → (answer env program label m reply).1 ≡ reply.1
  answer-world label m (ok a, w) = refl
  answer-world label m (err x, w) = refl

  pub create_order-world :
      (ctx : Ctx) (tx : Tx) (m : Message Any) (w : World)
      → (create_order env program ctx tx m w).1 ≡ (exec ctx tx (insert_order env program) w).1
  unfolding create_order
  create_order-world ctx tx m w =
      answer-world "insert order" (order_message env program)
        (exec ctx tx (insert_order env program) w)

  pub create_order-IsContained : OrdersApart → IsContained pg (create_order env program)
  create_order-IsContained apart = record {
    commits_nothing = λ ctx tx m w.
        ap committed (create_order-world ctx tx m w)
        ∙ pg.exec_committed ctx tx (insert_order env program) w;
    keeps_inbox = λ ctx tx m w.
        ap (λ w'. (pending tx w').inbox) (create_order-world ctx tx m w)
        ∙ apart.keeps_inbox ctx tx w;
    keeps_outbox = λ ctx tx m w.
        ap (λ w'. (pending tx w').outbox) (create_order-world ctx tx m w)
        ∙ apart.keeps_outbox ctx tx w;
  }

  -- `t` is `s` with the order, whose INSERT has succeeded, and with one row for the payment service that holds it.
  pub record Ordered (s t : Store Uuid Bytes Other) : Type 0 where
    pub ctx : Ctx
    pub tx : Tx
    pub before : World
    pub from_start : pending tx before ≡ s
    pub accepted :
        (answer : Result ℕ) × ((exec ctx tx (insert_order env program) before).0 ≡ ok answer)
    pub inserted : t.other ≡ (pending tx (exec ctx tx (insert_order env program) before).1).other
    pub same_inbox : t.inbox ≡ s.inbox
    pub row : OutboxRow Uuid Bytes
    pub sent : t.outbox ≡ s.outbox ++ (row ∷ [])
    pub to_payment : row.topic ≡ "payment-service.process"
    pub holds_order : marshal_payload (order_message env program).payload ≡ ok row.payload
    pub by_step : row.step_name ≡ "create-order"

  -- The order has been made, or nothing has changed.
  abbrev pub MayBeOrdered : Store Uuid Bytes Other → Store Uuid Bytes Other → Type 0
  MayBeOrdered s t = (t ≡ s) ⊎ Ordered s t

  -- The failure event of the step.
  abbrev pub Told : Store Uuid Bytes Other → Store Uuid Bytes Other → Type 0
  Told u t =
      (out : Message Any) × Added pg (with_origin failed "create-order" out)
        ("order-service.compensate" ∷ []) "create-order" compensate u t

  -- How the start of the saga ends.
  pub data OrderEnds (s t : Store Uuid Bytes Other) (r : Result (Unit {0})) : Type 0 where
    ordered : r ≡ ok tt → Ordered s t → OrderEnds s t r
    told : (u : Store Uuid Bytes Other) → r ≡ ok tt → MayBeOrdered s u → Told u t → OrderEnds s t r
    failed_start :
        (u : Store Uuid Bytes Other) (x : Error)
        → r ≡ err x
        → MayBeOrdered s u
        → (t ≡ u) ⊎ Told u t
        → OrderEnds s t r

  pub answer-ok :
      {A : Type 0} (label : String) (m out : Message Any) (reply : Result A × World)
      → (answer env program label m reply).0 ≡ (out, none)
      → m ≡ out
  answer-ok label m out (ok a, w) e = ap (λ (p : Message Any × Option Error). p.0) e
  answer-ok label m out (err x, w) e = absurd cc

  -- The action answers nil only where its statement has succeeded.
  pub answer-accepted :
      {A : Type 0} (label : String) (m out : Message Any) (reply : Result A × World)
      → (answer env program label m reply).0 ≡ (out, none)
      → (a : A) × (reply.0 ≡ ok a)
  answer-accepted label m out (ok a, w) e = (a, refl)
  answer-accepted label m out (err x, w) e = absurd cc

  pub one_row :
      (out : Message Any) (rows : List (OutboxRow Uuid Bytes))
      → AreRowsOf env out "create-order" execute ("payment-service.process" ∷ []) rows
      → out.payload ≡ (order_message env program).payload
      → (row : OutboxRow Uuid Bytes) × (rows ≡ row ∷ [])
        × (row.topic ≡ "payment-service.process")
        × (marshal_payload (order_message env program).payload ≡ ok row.payload)
        × (row.step_name ≡ "create-order")
  one_row out [] are same = absurd are
  one_row out (row ∷ []) (is, _) same =
      (row, refl, is.to_topic, ap marshal_payload (sym same) ∙ is.encoded, is.by_step)
  one_row out (row ∷ next ∷ rows) (_, are) same = absurd are
