-- ===== src/Outbox/Marking.antt =====
-- internal/outbox/reader.go: the two updates, each a transaction.
use cliros.Prelude.{ℕ, String, ◌≡◌, refl, ◌∙◌, subst, ap}
use cliros.Effect.{Result, ok, err, Io, pure, ◌>>=◌, ◌>>◌, wrapping, deferring, on_error}
use cliros.Database.{postgres}
use cliros.Env.{Env}
use cliros.Outbox.{saga_text}
use cliros.Outbox.Writer.{Row}
use cliros.Outbox.Reader.{
  Reader, success_update, err_update, update_outbox_on_success, update_outbox_on_err,
}
use cliros.Store.{Store, Postgres}
use cliros.Store.Within.{Within-call}
use cliros.Store.Atomic.{Atomic, Atomic-bind, Atomic-begin, Atomic-commit, Atomic-last_commit}
use cliros.Store.Queue.{Queue, Updates, Marks, Delays}

on_error-id : {A : Type 0} (r : Result A) → on_error (λ x. x) r ≡ r
on_error-id (ok a) = refl
on_error-id (err x) = refl

-- A call whose error is returned as it is.
wrapping-id : {W A : Type 0} (m : Io W A) → wrapping (λ x. x) m ≡ m
unfolding wrapping
wrapping-id m = λ i w. (on_error-id (m w).0 i, (m w).1)

module _ {env : Env} {pg : Postgres env} (queue : Queue pg) where
  open env use {World, Ctx, Tx, Any, Uuid, Bytes, begin_tx, exec, commit, rollback, publish}
  open pg use {Other, committed, pending}

  -- The key of the row in the WHERE of the two updates.
  abbrev pub key_of : Row env → Uuid × String × String
  key_of m = (m.saga_id, m.topic, saga_text m.saga_type)

  -- A transaction and its commit, without words around their errors.
  begin-Atomic :
      {A : Type 0} {s : Store Uuid Bytes Other} {H : A → Store Uuid Bytes Other → Type 0}
      (ctx : Ctx) {f : Tx → Io World A} {w : World}
      → committed w ≡ s
      → ((tx : Tx) (w' : World) → committed w' ≡ s → pending tx w' ≡ s → Atomic pg s H (f tx) w')
      → Atomic pg s H (begin_tx ctx >>= λ tx. deferring (rollback tx) (f tx)) w
  begin-Atomic {A} {s} {H} ctx {f} {w} h rest =
      subst (λ (b : Io World Tx). Atomic pg s H (b >>= λ tx. deferring (rollback tx) (f tx)) w)
        (wrapping-id (begin_tx ctx)) (Atomic-begin pg ctx (λ x. x) h rest)

  commit-Atomic :
      {A : Type 0} {s : Store Uuid Bytes Other} {H : A → Store Uuid Bytes Other → Type 0} (tx : Tx)
      (a : A) {w : World}
      → committed w ≡ s
      → H a (pending tx w)
      → Atomic pg s H (commit tx >> pure a) w
  commit-Atomic {A} {s} {H} tx a {w} h good =
      subst (λ (c : Io World (Unit {0})). Atomic pg s H (c >> pure a) w) (wrapping-id (commit tx))
        (Atomic-commit pg tx (λ x. x) a h good)

  last_commit-Atomic :
      {s : Store Uuid Bytes Other} {H : Unit {0} → Store Uuid Bytes Other → Type 0} (tx : Tx)
      {w : World}
      → committed w ≡ s
      → H tt (pending tx w)
      → Atomic pg s H (commit tx) w
  last_commit-Atomic {s} {H} tx {w} h good =
      subst (λ (c : Io World (Unit {0})). Atomic pg s H c w) (wrapping-id (commit tx))
        (Atomic-last_commit pg tx (λ x. x) h good)

  success_exec :
      (r : Reader env) (ctx : Ctx) (tx : Tx) (m : Row env) (at n : ℕ) (w : World)
      → r.dialect ≡ postgres
      → (exec ctx tx (success_update env r m at) w).0 ≡ ok (ok n)
      → Updates
          (Marks (key_of m) at)
          (pending tx w)
          (pending tx (exec ctx tx (success_update env r m at) w).1)
  success_exec r ctx tx m at n w speaks done =
      rw speaks
        (queue.mark_ok ctx tx m.saga_id m.topic (saga_text m.saga_type) at n w (rw speaks at done))

  err_exec :
      (r : Reader env) (ctx : Ctx) (tx : Tx) (m : Row env) (last next : ℕ) (w : World)
      {n : Result ℕ}
      → r.dialect ≡ postgres
      → (exec ctx tx (err_update env r m last next) w).0 ≡ ok n
      → Updates
          (Delays (key_of m) last next)
          (pending tx w)
          (pending tx (exec ctx tx (err_update env r m last next) w).1)
  err_exec r ctx tx m last next w speaks done = rw speaks (
      queue.delay_ok ctx tx m.saga_id m.topic (saga_text m.saga_type) last next w
        (rw speaks at done))

  -- The two updates leave the tables as they are, or change the rows that they name.
  pub update_outbox_on_success-Atomic :
      (r : Reader env) (ctx : Ctx) (m : Row env) (at : ℕ) (s : Store Uuid Bytes Other) (w : World)
      → r.dialect ≡ postgres
      → committed w ≡ s
      → Atomic pg s
          (λ _ t. Updates (Marks (key_of m) at) s t)
          (update_outbox_on_success env r ctx m at)
          w
  unfolding update_outbox_on_success
  update_outbox_on_success-Atomic r ctx m at s w speaks h = begin-Atomic ctx h λ tx w₁ h₁ start.
      Atomic-bind pg
        (Within-call pg {G = λ res q. (n : ℕ) → res ≡ ok n → Updates (Marks (key_of m) at) s q}
          (pg.exec_committed ctx tx (success_update env r m at) w₁ ∙ h₁)
          (λ res e n is.
            subst
              (λ q.
                Updates (Marks (key_of m) at) q
                  (pending tx (exec ctx tx (success_update env r m at) w₁).1))
              start (success_exec r ctx tx m at n w₁ speaks (e ∙ ap ok is))))
        λ res w₂ h₂ updated.
          Atomic-bind pg (Within-call pg {G = λ _ q. Updates (Marks (key_of m) at) s q} h₂ updated)
            λ affected w₃ h₃ done. commit-Atomic tx affected h₃ done

  pub update_outbox_on_err-Atomic :
      (r : Reader env) (ctx : Ctx) (m : Row env) (last next : ℕ) (s : Store Uuid Bytes Other)
      (w : World)
      → r.dialect ≡ postgres
      → committed w ≡ s
      → Atomic pg s
          (λ _ t. Updates (Delays (key_of m) last next) s t)
          (update_outbox_on_err env r ctx m last next)
          w
  unfolding update_outbox_on_err
  update_outbox_on_err-Atomic r ctx m last next s w speaks h = begin-Atomic ctx h λ tx w₁ h₁ start.
      Atomic-bind pg
        (Within-call pg {G = λ _ q. Updates (Delays (key_of m) last next) s q}
          (pg.exec_committed ctx tx (err_update env r m last next) w₁ ∙ h₁)
          (λ res e.
            subst
              (λ q.
                Updates (Delays (key_of m) last next) q
                  (pending tx (exec ctx tx (err_update env r m last next) w₁).1))
              start (err_exec r ctx tx m last next w₁ speaks e)))
        λ _ w₂ h₂ updated. last_commit-Atomic tx h₂ updated
