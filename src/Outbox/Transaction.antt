-- ===== src/Outbox/Transaction.antt =====
-- internal/outbox/writer.go: the effect of `WriteTx` on the tables.
use cliros.Prelude.{
  String, ◌≢◌, [], ◌∷◌, ◌++◌, map, Among, inl, inr, arith, ◌≡◌, refl, ◌∙◌, ap, subst, none, List,
}
use cliros.Message.{Message}
use cliros.Database.{SqlDialect, postgres}
use cliros.Env.{Env}
use cliros.Outbox.{SagaType}
use cliros.Outbox.Writer.{write_tx, run_work}
use cliros.Outbox.Rows.{IsRowOf, AreRowsOf, AreFresh, write_messages-Within}
use cliros.Store.{row_key, OutboxRow, Store, with_rows, Postgres}
use cliros.Store.Within.{Within}
use cliros.Store.Atomic.{Atomic, Atomic-begin, Atomic-bind, Atomic-last_commit}

module _ {env : Env} (pg : Postgres env) where
  open env use {World, Ctx, Tx, Uuid, Bytes, Any}
  open pg use {Other, committed, pending}

  -- The tables `t` are `s` with the rows of the message, one for each topic.
  abbrev pub Added :
      Message Any
      → List String
      → String
      → SagaType
      → Store Uuid Bytes Other
      → Store Uuid Bytes Other
      → Type 0
  Added m topics step phase s t =
      (rows : List (OutboxRow Uuid Bytes)) × AreRowsOf env m step phase topics rows
      × AreFresh rows s.outbox
      × (t ≡ with_rows rows s)

  run_nothing :
      (ctx : Ctx) (tx : Tx) (s : Store Uuid Bytes Other) (w : World)
      → committed w ≡ s
      → Within pg s tx (λ _ p. p ≡ pending tx w) (run_work env none ctx tx) w
  run_nothing ctx tx s w h = record { ends = (h, refl) }

  -- `WriteTx` without work of the user is atomic on PostgreSQL: after success the committed
  -- outbox has one new row for each topic, whose keys are new to it; after an error the committed
  -- tables are as before, or the commit added these rows and reported an error.
  pub write_tx-Atomic :
      (d : SqlDialect) (ctx : Ctx) (m : Message Any) (topics : List String) (step : String)
      (phase : SagaType) (s : Store Uuid Bytes Other) (w : World)
      → d ≡ postgres
      → committed w ≡ s
      → Atomic pg s
          (λ _ t. Added m topics step phase s t)
          (write_tx env d ctx m topics step phase none)
          w
  unfolding write_tx
  write_tx-Atomic d ctx m topics step phase s w hd h = Atomic-begin pg ctx _ h λ tx w₁ h₁ start.
      Atomic-bind pg (run_nothing ctx tx s w₁ h₁) λ _ w₂ h₂ same.
        Atomic-bind pg (write_messages-Within pg d ctx m tx topics step phase s w₂ hd h₂)
          λ _ w₃ h₃ (rows, are_rows, fresh, added). Atomic-last_commit pg tx _ h₃ (
            rows,
            are_rows,
            subst (λ q. AreFresh rows q.outbox) (same ∙ start) fresh,
            added ∙ ap (with_rows rows) (same ∙ start),
          )

  -- The rows of a saga for one topic, step and phase have one key.
  same_key :
      (m m' : Message Any) (step : String) (phase : SagaType) (topic : String)
      (row row' : OutboxRow Uuid Bytes)
      → m'.saga_id ≡ m.saga_id
      → IsRowOf env m step phase topic row
      → IsRowOf env m' step phase topic row'
      → row_key row ≡ row_key row'
  same_key m m' step phase topic row row' saga h h' =
      ground (arith, saga, h.id, h'.id, h.to_topic, h'.to_topic, h.in_phase, h'.in_phase)

  Among-keys :
      (xs ys : List (OutboxRow Uuid Bytes)) (row : OutboxRow Uuid Bytes)
      → Among (row_key row) (map row_key (xs ++ (row ∷ ys)))
  Among-keys [] ys row = inl refl
  Among-keys (x ∷ xs) ys row = inr (Among-keys xs ys row)

  -- The rows of one saga for the same topics, step and phase are not added twice.
  pub rows_once :
      (m m' : Message Any) (topics : List String) (step : String) (phase : SagaType)
      (before rows rows' : List (OutboxRow Uuid Bytes))
      → m'.saga_id ≡ m.saga_id
      → topics ≢ []
      → AreRowsOf env m step phase topics rows
      → AreRowsOf env m' step phase topics rows'
      → ¬ AreFresh rows' (before ++ rows)
  rows_once m m' [] step phase before rows rows' saga some_topic first second fresh =
      some_topic refl
  rows_once m m' (topic ∷ topics) step phase before [] rows' saga _ first second fresh = first
  rows_once m m' (topic ∷ topics) step phase before (row ∷ rows) [] saga _ first second fresh =
      second
  rows_once m m' (topic ∷ topics) step phase before (row ∷ rows) (row' ∷ rows') saga _ (is, _)
        (is', _) (fresh, _) =
      fresh (
        subst (λ k. Among k (map row_key (before ++ (row ∷ rows))))
          (same_key m m' step phase topic row row' saga is is') (Among-keys before rows row))

  -- The same message is not added twice.
  pub Added-once :
      (m : Message Any) (topics : List String) (step : String) (phase : SagaType)
      (s t t' : Store Uuid Bytes Other)
      → topics ≢ []
      → Added m topics step phase s t
      → ¬ Added m topics step phase t t'
  Added-once m topics step phase s t t' some_topic (rows, are, _, made) (rows', are', fresh, _) =
      rows_once m m topics step phase s.outbox rows rows' refl some_topic are are'
        (subst (λ q. AreFresh rows' q.outbox) made fresh)
