-- ===== src/Store/Queue.antt =====
-- The outbox table as a queue: what PostgreSQL promises of the reader's two UPDATE statements.
use cliros.Prelude.{ℕ, suc, String, ◌≡◌, ◌⊎◌, some, List, [], ◌∷◌}
use cliros.Errors.{Error}
use cliros.Effect.{Result, ok}
use cliros.Message.{Message}
use cliros.Database.{postgres, Query, uuid, text, time}
use cliros.Env.{Env}
use cliros.Outbox.Reader.{update_on_success_query, update_on_err_query}
use cliros.Store.{OutboxRow, Store, row_key, Postgres}

-- Two lists whose elements are related one by one.
abbrev pub Pointwise : {A : Type 0} → (A → A → Type 0) → List A → List A → Type 0
Pointwise R [] [] = Unit
Pointwise R [] (y ∷ ys) = ⊥
Pointwise R (x ∷ xs) [] = ⊥
Pointwise R (x ∷ xs) (y ∷ ys) = R x y × Pointwise R xs ys

module _ {U B : Type 0} where
  abbrev pub success_args : U → (topic saga_type : String) → (at : ℕ) → Query U B
  success_args u topic saga_type at = record {
    sql = update_on_success_query postgres;
    args = time at ∷ uuid u ∷ text topic ∷ text saga_type ∷ [];
  }

  abbrev pub err_args : U → (topic saga_type : String) → (last next : ℕ) → Query U B
  err_args u topic saga_type last next = record {
    sql = update_on_err_query postgres;
    args = time last ∷ time next ∷ uuid u ∷ text topic ∷ text saga_type ∷ [];
  }

  -- `SET processed_at` of the rows with the key.
  abbrev pub Marks : U × String × String → ℕ → OutboxRow U B → OutboxRow U B → Type 0
  Marks k at row row' =
      ((row_key row ≡ k) × (row' ≡ record row { processed_at = some at })) ⊎ (row' ≡ row)

  -- `SET attempts_counter = attempts_counter + 1, last_attempt, scheduled_at` of them.
  abbrev pub Delays : U × String × String → (last next : ℕ) → OutboxRow U B → OutboxRow U B → Type 0
  Delays k last next row row' =
      ((row_key row ≡ k)
        × (row' ≡ record row {
          attempts_counter = suc row.attempts_counter;
          last_attempt = some last;
          scheduled_at = next;
        }))
      ⊎ (row' ≡ row)

-- An UPDATE of the outbox.
pub record Updates {U B D : Type 0} (R : OutboxRow U B → OutboxRow U B → Type 0) (s t : Store U B D)
    : Type 0 where
  pub rows : Pointwise R s.outbox t.outbox
  pub same_inbox : t.inbox ≡ s.inbox
  pub same_other : t.other ≡ s.other

-- Neither the broker nor the error channel is the database, a SELECT changes nothing, and an UPDATE
-- changes the rows that its WHERE finds.
pub record Queue {env : Env} (pg : Postgres env) : Type 0 where
  pub publish_outside :
      (ctx : env.Ctx) (topic : String) (m : Message env.Any) (w : env.World)
      → pg.committed (env.publish ctx topic m w).1 ≡ pg.committed w
  pub query_outside :
      (ctx : env.Ctx) (q : Query env.Uuid env.Bytes) (w : env.World)
      → pg.committed (env.query ctx q w).1 ≡ pg.committed w
  pub try_send_outside :
      (e : Error) (w : env.World) → pg.committed (env.try_send e w) ≡ pg.committed w
  pub mark_ok :
      (ctx : env.Ctx) (tx : env.Tx) (u : env.Uuid) (topic phase : String) (at n : ℕ) (w : env.World)
      → (env.exec ctx tx (success_args u topic phase at) w).0 ≡ ok (ok n)
      → Updates
          (Marks (u, topic, phase) at)
          (pg.pending tx w)
          (pg.pending tx (env.exec ctx tx (success_args u topic phase at) w).1)
  pub delay_ok :
      (ctx : env.Ctx) (tx : env.Tx) (u : env.Uuid) (topic phase : String) (last next : ℕ)
      (w : env.World) {n : Result ℕ}
      → (env.exec ctx tx (err_args u topic phase last next) w).0 ≡ ok n
      → Updates
          (Delays (u, topic, phase) last next)
          (pg.pending tx w)
          (pg.pending tx (env.exec ctx tx (err_args u topic phase last next) w).1)
