-- ===== src/Outbox/Work.antt =====
-- internal/outbox/writer.go: `WriteTx` with work of the user in the same transaction.
use cliros.Prelude.{String, ◌≡◌, refl, subst, ◌∙◌, Option, List}
use cliros.Effect.{ok}
use cliros.Message.{Message}
use cliros.Database.{SqlDialect, postgres}
use cliros.Env.{Env}
use cliros.Outbox.{SagaType}
use cliros.Outbox.Writer.{TxWork, run_work, write_tx}
use cliros.Outbox.Rows.{write_messages-Within}
use cliros.Outbox.Transaction.{Added}
use cliros.Store.{Store, Postgres}
use cliros.Store.Within.{Within-call}
use cliros.Store.Atomic.{Atomic, Atomic-begin, Atomic-bind, Atomic-last_commit}

module _ {env : Env} (pg : Postgres env) where
  open env use {World, Ctx, Tx, Uuid, Bytes, Any}
  open pg use {Other, committed, pending}

  -- Work that stays inside the transaction that it is given.
  abbrev pub CommitsNothing : Option (TxWork env) → Type 0
  CommitsNothing fn =
      (ctx : Ctx) (tx : Tx) (w : World) → committed (run_work env fn ctx tx w).1 ≡ committed w

  -- The work ran once, from the tables `s`, and then the message's rows were added.
  pub record Worked (fn : Option (TxWork env)) (m : Message Any) (topics : List String)
      (step : String) (phase : SagaType) (s t : Store Uuid Bytes Other) : Type 0 where
    pub ctx : Ctx
    pub tx : Tx
    pub before : World
    pub from_start : pending tx before ≡ s
    pub succeeded : (run_work env fn ctx tx before).0 ≡ ok tt
    pub added : Added pg m topics step phase (pending tx (run_work env fn ctx tx before).1) t

  -- `WriteTx` is atomic on PostgreSQL, with or without work of the user: after success the work
  -- ran once, from the committed tables, and what it left has been committed together with one
  -- new row for each topic, whose keys are new to the outbox that the work left; after an error
  -- the committed tables are as before, or that one commit took place. The work commits nothing
  -- by itself.
  pub write_tx-Worked :
      (d : SqlDialect) (ctx : Ctx) (m : Message Any) (topics : List String) (step : String)
      (phase : SagaType) (fn : Option (TxWork env)) (s : Store Uuid Bytes Other) (w : World)
      → d ≡ postgres
      → CommitsNothing fn
      → committed w ≡ s
      → Atomic pg s
          (λ _ t. Worked fn m topics step phase s t)
          (write_tx env d ctx m topics step phase fn)
          w
  unfolding write_tx
  write_tx-Worked d ctx m topics step phase fn s w hd contained h =
      Atomic-begin pg ctx _ h λ tx w₁ h₁ start.
        Atomic-bind pg
          (Within-call pg
            {G = λ _ q.
              ((run_work env fn ctx tx w₁).0 ≡ ok tt)
              × (q ≡ pending tx (run_work env fn ctx tx w₁).1)}
            (contained ctx tx w₁ ∙ h₁) (λ _ e. (e, refl)))
          λ _ w₂ h₂ (done, same).
            Atomic-bind pg (write_messages-Within pg d ctx m tx topics step phase s w₂ hd h₂)
              λ _ w₃ h₃ (rows, are_rows, fresh, appended). Atomic-last_commit pg tx _ h₃ record {
                ctx = ctx;
                tx = tx;
                before = w₁;
                from_start = start;
                succeeded = done;
                added =
                    subst (λ q. Added pg m topics step phase q (pending tx w₃)) same
                      (rows, are_rows, fresh, appended);
              }
