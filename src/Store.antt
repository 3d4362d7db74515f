-- ===== src/Store.antt =====
-- The tables of internal/outbox/migrations.go as a value, and what PostgreSQL and `database/sql`
-- promise of the statements that the library sends. The database is not part of the library: the
-- promises are the fields of `Postgres`, which theorems take as a hypothesis.
pub mod Within
pub mod Atomic
pub mod Keys
pub mod Queue
use cliros.Prelude.{ℕ, String, ◌≡◌, ◌⊎◌, true, Option, none, List, [], ◌∷◌, ◌++◌, map, Among}
use cliros.Prelude.Int.{ℤ}
use cliros.Errors.{Error, is_no_rows}
use cliros.Effect.{Result, ok, err}
use cliros.Database.{postgres, Query, uuid, text, time, blob}
use cliros.Env.{Env}
use cliros.Inbox.{postgres_claim}
use cliros.Outbox.Writer.{insert_query}

-- A row of the table `outbox`; `saga_type` is a text there.
pub record OutboxRow (U B : Type 0) : Type 0 where
  pub saga_id : U
  pub step_name : String
  pub topic : String
  pub saga_type : String
  pub created_at : ℕ
  pub scheduled_at : ℕ
  pub metadata : B
  pub payload : B
  pub attempts_counter : ℕ
  pub last_attempt : Option ℕ
  pub processed_at : Option ℕ

-- The tables `inbox`, by primary key, and `outbox`; `D` is whatever else the service stores.
pub record Store (U B D : Type 0) : Type 0 where
  pub inbox : List (U × String)
  pub outbox : List (OutboxRow U B)
  pub other : D

-- The row that the eight columns of the INSERT make, with the defaults of the migration.
abbrev pub new_row :
    {U B : Type 0}
    → U
    → (step topic saga_type : String) → (created scheduled : ℕ) → (meta pay : B) → OutboxRow U B
new_row u step topic saga_type created scheduled meta pay = record {
  saga_id = u;
  step_name = step;
  topic = topic;
  saga_type = saga_type;
  created_at = created;
  scheduled_at = scheduled;
  metadata = meta;
  payload = pay;
  attempts_counter = 0;
  last_attempt = none;
  processed_at = none;
}

-- The primary key of a row.
abbrev pub row_key : {U B : Type 0} → OutboxRow U B → U × String × String
row_key row = (row.saga_id, row.topic, row.saga_type)

abbrev pub with_claim : {U B D : Type 0} → U × String → Store U B D → Store U B D
with_claim k s = record s { inbox = k ∷ s.inbox }

abbrev pub with_rows : {U B D : Type 0} → List (OutboxRow U B) → Store U B D → Store U B D
with_rows rows s = record s { outbox = s.outbox ++ rows }

abbrev pub insert_args :
    {U B : Type 0}
    → U
    → (step topic saga_type : String) → (created scheduled : ℕ) → (meta pay : B) → Query U B
insert_args u step topic saga_type created scheduled meta pay = record {
  sql = insert_query postgres;
  args =
      uuid u
      ∷ text step
      ∷ text topic
      ∷ text saga_type
      ∷ time created
      ∷ time scheduled
      ∷ blob meta
      ∷ blob pay
      ∷ [];
}

-- `committed` is what the database holds for good, `pending tx` what it would hold if `tx`
-- committed. No other process commits in the meantime.
pub record Postgres (env : Env) : Type 1 where
  pub Other : Type 0
  pub committed : env.World → Store env.Uuid env.Bytes Other
  pub pending : env.Tx → env.World → Store env.Uuid env.Bytes Other
  -- A transaction starts from what is committed.
  pub begin_committed :
      (ctx : env.Ctx) (w : env.World) → committed (env.begin_tx ctx w).1 ≡ committed w
  pub begin_pending :
      (ctx : env.Ctx) (w : env.World) (tx : env.Tx)
      → (env.begin_tx ctx w).0 ≡ ok tx
      → pending tx (env.begin_tx ctx w).1 ≡ committed w
  pub rollback_committed :
      (tx : env.Tx) (w : env.World) → committed (env.rollback tx w) ≡ committed w
  -- A commit is atomic; after an error it may have taken place or not.
  pub commit_ok :
      (tx : env.Tx) (w : env.World)
      → (env.commit tx w).0 ≡ ok tt
      → committed (env.commit tx w).1 ≡ pending tx w
  pub commit_err :
      (tx : env.Tx) (w : env.World) (e : Error)
      → (env.commit tx w).0 ≡ err e
      → (committed (env.commit tx w).1 ≡ committed w)
        ⊎ (committed (env.commit tx w).1 ≡ pending tx w)
  -- Statements of a transaction stay inside it.
  pub exec_committed :
      (ctx : env.Ctx) (tx : env.Tx) (q : Query env.Uuid env.Bytes) (w : env.World)
      → committed (env.exec ctx tx q w).1 ≡ committed w
  pub query_row_committed :
      (ctx : env.Ctx) (tx : env.Tx) (q : Query env.Uuid env.Bytes) (w : env.World)
      → committed (env.query_row ctx tx q w).1 ≡ committed w
  -- The INSERT of the writer adds its row, if it succeeds.
  pub insert_ok :
      (ctx : env.Ctx) (tx : env.Tx) (u : env.Uuid) (step topic saga_type : String)
      (created scheduled : ℕ) (meta pay : env.Bytes) (w : env.World) (n : Result ℕ)
      → (env.exec ctx tx (insert_args u step topic saga_type created scheduled meta pay) w).0 ≡ ok n
      → pending tx
          (env.exec ctx tx (insert_args u step topic saga_type created scheduled meta pay) w).1
        ≡ with_rows (new_row u step topic saga_type created scheduled meta pay ∷ []) (pending tx w)
  -- The primary key of the table is (saga_id, topic, saga_type).
  pub insert_key :
      (ctx : env.Ctx) (tx : env.Tx) (u : env.Uuid) (step topic saga_type : String)
      (created scheduled : ℕ) (meta pay : env.Bytes) (w : env.World) (n : Result ℕ)
      → (env.exec ctx tx (insert_args u step topic saga_type created scheduled meta pay) w).0 ≡ ok n
      → ¬ Among (u, topic, saga_type) (map row_key (pending tx w).outbox)
  -- ON CONFLICT DO NOTHING RETURNING: a row comes back if and only if the key was new.
  pub claim_ok :
      (ctx : env.Ctx) (tx : env.Tx) (u : env.Uuid) (from_step : String) (w : env.World)
      (v : env.Uuid)
      → (env.query_row ctx tx (postgres_claim env postgres u from_step) w).0 ≡ ok v
      → ¬ Among (u, from_step) (pending tx w).inbox
  pub claim_pending :
      (ctx : env.Ctx) (tx : env.Tx) (u : env.Uuid) (from_step : String) (w : env.World)
      (v : env.Uuid)
      → (env.query_row ctx tx (postgres_claim env postgres u from_step) w).0 ≡ ok v
      → pending tx (env.query_row ctx tx (postgres_claim env postgres u from_step) w).1
        ≡ with_claim (u, from_step) (pending tx w)
  pub claim_no_rows :
      (ctx : env.Ctx) (tx : env.Tx) (u : env.Uuid) (from_step : String) (w : env.World) (e : Error)
      → (env.query_row ctx tx (postgres_claim env postgres u from_step) w).0 ≡ err e
      → is_no_rows e ≡ true
      → Among (u, from_step) (pending tx w).inbox
  -- Contexts, timers, the clock, fresh ids, spans and metrics are not the database.
  pub poll_outside : (ctx : env.Ctx) (w : env.World) → committed (env.poll ctx w).1 ≡ committed w
  pub await_outside :
      (ctx : env.Ctx) (d : ℤ) (w : env.World) → committed (env.await ctx d w).1 ≡ committed w
  pub now_committed : (w : env.World) → committed (env.now w).1 ≡ committed w
  pub now_pending : (tx : env.Tx) (w : env.World) → pending tx (env.now w).1 ≡ pending tx w
  pub new_v7_outside : (w : env.World) → committed (env.new_v7 w).1 ≡ committed w
  pub saga_started_outside : (w : env.World) → committed (env.saga_started_inc w) ≡ committed w
  pub start_span_outside :
      (ctx : env.Ctx) (tr : env.Tracer) (name kind : String) (attributes : List (String × String))
      (w : env.World)
      → committed (env.start_span ctx tr name kind attributes w).1 ≡ committed w
  pub record_error_outside :
      (span : env.Span) (e : Error) (w : env.World)
      → committed (env.record_error span e w) ≡ committed w
  pub set_error_status_outside :
      (span : env.Span) (e : Error) (w : env.World)
      → committed (env.set_error_status span e w) ≡ committed w
  pub end_span_outside :
      (span : env.Span) (w : env.World) → committed (env.end_span span w) ≡ committed w
  pub steps_total_outside :
      (step operation status : String) (w : env.World)
      → committed (env.steps_total_inc step operation status w) ≡ committed w
  pub step_duration_outside :
      (step operation : String) (d : ℕ) (w : env.World)
      → committed (env.step_duration_observe step operation d w) ≡ committed w
