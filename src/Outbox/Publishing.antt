-- ===== src/Outbox/Publishing.antt =====
-- internal/outbox/reader.go: the publication of a message and of a batch.
use cliros.Prelude.{
  ℕ, String, Bool-cases, ◌==◌, ◌≡◌, refl, ◌∙◌, sym, subst, inl, inr, Option, none, some, List, [],
  ◌∷◌, Among,
}
use cliros.Errors.{Error, wrap}
use cliros.Effect.{Result, ok, err}
use cliros.Effect.Rules.{Result-cases}
use cliros.Message.{Message}
use cliros.Database.{postgres}
use cliros.Env.{Env}
use cliros.Outbox.Writer.{Row}
use cliros.Outbox.Reader.{
  Reader, update_outbox_on_success, update_outbox_on_err, calculate_next_attempt, reported,
  handle_publish_error, after_update, handle_publish_success, after_publish, process_message,
  send_error, batch_select, tick, process_batch, from_outbox_to_saga_message,
}
use cliros.Outbox.Progress.{Moves, Moves-mono, Moves-refl, Moves-trans, Marks-Moves, Delays-Moves}
use cliros.Store.{Store, Postgres}
use cliros.Store.Atomic.{Settled}
use cliros.Store.Queue.{Queue, Updates, Marks, Delays}
use cliros.Outbox.Scan.{HasRoom, RespectsLimit, delivered, tick-HasRoom}
use cliros.Outbox.Marking.{key_of, update_outbox_on_success-Atomic, update_outbox_on_err-Atomic}

module _ {env : Env} {pg : Postgres env} (queue : Queue pg) where
  open env use {World, Ctx, Tx, Any, Uuid, Bytes, begin_tx, exec, commit, rollback, publish}
  open pg use {Other, committed, pending}

  -- The backoff policy of the reader does not touch the tables.
  abbrev pub IsQuietReader : Reader env → Type 0
  IsQuietReader r =
      (n : ℕ) (w : World)
      → committed (r.backoff.backoff_policy n r.backoff.backoff_min r.backoff.backoff_max w).1
        ≡ committed w

  -- The broker has taken the message of the row.
  abbrev pub IsPublished : Ctx → Row env → Type 0
  IsPublished ctx m =
      (out : Message Any) × (w : World) × (from_outbox_to_saga_message env m ≡ ok out)
      × ((publish ctx m.topic out w).0 ≡ none)

  -- The row can be turned into a message.
  abbrev pub IsReadable : Row env → Type 0
  IsReadable m = (out : Message Any) × (from_outbox_to_saga_message env m ≡ ok out)

  -- A report on the error channel leaves the tables alone.
  pub reported-committed :
      {A : Type 0} (label : String) (reply : Result A × World)
      → committed (reported env label reply) ≡ committed reply.1
  reported-committed label (ok a, w) = refl
  reported-committed label (err x, w) = queue.try_send_outside (wrap label x) w

  pub send_error-committed :
      (label : String) (failed : Option Error) (w : World)
      → committed (send_error env label failed w) ≡ committed w
  send_error-committed label none w = refl
  send_error-committed label (some x) w = queue.try_send_outside (wrap label x) w

  module _ (T P : Uuid × String × String → Type 0) where
    abbrev Moved : World → World → Type 0
    Moved w w' = Moves T P (committed w) (committed w')

    Settled-Moves :
        {A : Type 0} (H : A → Store Uuid Bytes Other → Type 0) {s : Store Uuid Bytes Other}
        (r : Result A) (w : World)
        → Settled pg s H r w
        → ((a : A) → H a (committed w) → Moves T P s (committed w))
        → Moves T P s (committed w)
    Settled-Moves H (ok a) w h moves = moves a h
    Settled-Moves H (err x) w (inl same) moves = Moves-refl same
    Settled-Moves H (err x) w (inr (a, h)) moves = moves a h

    handle_publish_error-Moves :
        (r : Reader env) (ctx : Ctx) (m : Row env) (w : World)
        → r.dialect ≡ postgres
        → IsQuietReader r
        → T (key_of queue m)
        → Moved w (handle_publish_error env r ctx m w)
    unfolding handle_publish_error calculate_next_attempt
    handle_publish_error-Moves r ctx m w speaks quiet touch =
        let (at, w₁) = env.now w in
        let (next, w₂) = calculate_next_attempt env r m w₁ in
        let (result, w₃) = update_outbox_on_err env r ctx m at next w₂ in
        let before : committed w₂ ≡ committed w =
          pg.now_committed
            (r.backoff.backoff_policy m.attempt_counter r.backoff.backoff_min r.backoff.backoff_max
              w₁).1
          ∙ quiet m.attempt_counter w₁
          ∙ pg.now_committed w in
        let done =
          (update_outbox_on_err-Atomic queue r ctx m at next (committed w) w₂ speaks before).ends in
        subst (λ t. Moves T P (committed w) t)
          (sym (reported-committed "outbox update on error" (result, w₃)))
          (Settled-Moves (λ _ t. Updates (Delays (key_of queue m) at next) (committed w) t) result
            w₃ done (λ _ h. Delays-Moves (key_of queue m) at next touch h))

    module _ (r : Reader env) (ctx : Ctx) (speaks : r.dialect ≡ postgres)
        (quiet : IsQuietReader r) where
      after_update-Moves :
          (m : Row env) (reply : Result ℕ) (w w₁ : World)
          → T (key_of queue m)
          → Moved w w₁
          → Moved w (after_update env r ctx m (reply, w₁))
      after_update-Moves m (err x) w w₁ touch before =
          Moves-trans before
            (Moves-refl (queue.try_send_outside (wrap "outbox update on success" x) w₁))
      after_update-Moves m (ok affected) w w₁ touch before = elim (Bool-cases (affected == 0)) [
        | inl e ↦
            simp e (Moves-trans before (handle_publish_error-Moves r ctx m w₁ speaks quiet touch))
        | inr e ↦ simp e before
      ]

      handle_publish_success-Moves :
          (m : Row env) (w : World)
          → T (key_of queue m)
          → P (key_of queue m)
          → Moved w (handle_publish_success env r ctx m w)
      unfolding handle_publish_success
      handle_publish_success-Moves m w touch mark =
          let (at, w₁) = env.now w in
          let (result, w₂) = update_outbox_on_success env r ctx m at w₁ in
          let done =
            (update_outbox_on_success-Atomic queue r ctx m at (committed w) w₁ speaks
              (pg.now_committed w)).ends in
          after_update-Moves m result w w₂ touch (
            Settled-Moves (λ _ t. Updates (Marks (key_of queue m) at) (committed w) t) result w₂
              done (λ _ h. Marks-Moves (key_of queue m) at touch mark h))

      after_publish-Moves :
          (m : Row env) (failed : Option Error) (w w₁ : World)
          → T (key_of queue m)
          → (failed ≡ none → P (key_of queue m))
          → committed w₁ ≡ committed w
          → Moved w (after_publish env r ctx m (failed, w₁)).1
      after_publish-Moves m none w w₁ touch mark same =
          Moves-trans (Moves-refl same) (handle_publish_success-Moves m w₁ touch (mark refl))
      after_publish-Moves m (some x) w w₁ touch mark same =
          let e = wrap "outbox publish" x in
          Moves-trans (Moves-refl (queue.try_send_outside e w₁ ∙ same))
            (handle_publish_error-Moves r ctx m (env.try_send e w₁) speaks quiet touch)

      process_message-Moves :
          (m : Row env) (w : World)
          → (IsReadable m → T (key_of queue m))
          → (IsPublished ctx m → P (key_of queue m))
          → Moved w (process_message env r ctx m w).1
      unfolding process_message
      process_message-Moves m w touch mark =
          elim (Result-cases (from_outbox_to_saga_message env m)) [
            | inl (out, e) ↦
                let (failed, w₁) = publish ctx m.topic out w in
                rw (process_message, e)
                  (after_publish-Moves m failed w w₁ (touch (out, e))
                    (λ done. mark (out, w, e, done)) (queue.publish_outside ctx m.topic out w))
            | inr (x, e) ↦ rw (process_message, e) (Moves-refl refl)
          ]

      batch-Moves :
          (ms : List (Row env)) (w : World)
          → ((m : Row env) → Among m ms → IsReadable m → T (key_of queue m))
          → ((m : Row env) → Among m ms → IsPublished ctx m → P (key_of queue m))
          → Moved w (process_batch env r ctx ms w)
      unfolding process_batch
      batch-Moves [] w touch mark = Moves-refl refl
      batch-Moves (m ∷ ms) w touch mark =
          let (failed, w₁) = process_message env r ctx m w in
          let w₂ = send_error env "outbox process batch" failed w₁ in
          Moves-trans (process_message-Moves m w (touch m (inl refl)) (mark m (inl refl))) (
            Moves-trans (Moves-refl (send_error-committed "outbox process batch" failed w₁))
              (batch-Moves ms w₂ (λ k there. touch k (inr there)) (λ k there. mark k (inr there))))

  -- A batch, whatever rows it has.
  pub process_batch-Moves :
      (r : Reader env) (ctx : Ctx) (ms : List (Row env)) (w : World)
      → r.dialect ≡ postgres
      → IsQuietReader r
      → Moves
          (λ k. (m : Row env) × Among m ms × (key_of queue m ≡ k) × IsReadable m)
          (λ k. (m : Row env) × Among m ms × (key_of queue m ≡ k) × IsPublished ctx m)
          (committed w)
          (committed (process_batch env r ctx ms w))
  process_batch-Moves r ctx ms w speaks quiet =
      batch-Moves (λ k. (m : Row env) × Among m ms × (key_of queue m ≡ k) × IsReadable m)
        (λ k. (m : Row env) × Among m ms × (key_of queue m ≡ k) × IsPublished ctx m) r ctx speaks
        quiet ms w (λ m there readable. (m, there, refl, readable))
        (λ m there done. (m, there, refl, done))

  -- The same of a tick: only rows that can be turned into messages are touched.
  pub tick-touches :
      (r : Reader env) (ctx : Ctx) (w : World)
      → r.dialect ≡ postgres
      → IsQuietReader r
      → HasRoom env r
      → RespectsLimit env r ctx w
      → let ms = delivered env (env.query ctx (batch_select env r) w).0 in
        Moves
          (λ k. (m : Row env) × Among m ms × (key_of queue m ≡ k) × IsReadable m)
          (λ k. (m : Row env) × Among m ms × (key_of queue m ≡ k) × IsPublished ctx m)
          (committed w)
          (committed (tick env r ctx w).1)
  tick-touches r ctx w speaks quiet room limit =
      let (reply, w₁) = env.query ctx (batch_select env r) w in
      let ms = delivered env reply in
      let (buffer, error, ticked, stays) = tick-HasRoom env r ctx w room limit in
      let w₂ = send_error env "outbox scan batch" error w₁ in
      let before : committed w₂ ≡ committed w =
        send_error-committed "outbox scan batch" error w₁
        ∙ queue.query_outside ctx (batch_select env r) w in
      rw ticked (Moves-trans (Moves-refl before) (process_batch-Moves r ctx ms w₂ speaks quiet))

  -- A tick of the reader marks a row of the outbox as processed only where it has read a row with
  -- that key and the broker has taken its message. It changes no row but those with a key that it
  -- has read, keeps their keys and their contents, forgets no attempt, and leaves the inbox and
  -- the rest of the store alone. The buffer has room for the batch and the SELECT respects its
  -- LIMIT; the reader speaks PostgreSQL, whose UPDATE changes only rows with the key of its WHERE
  -- and in the columns of its SET; the backoff policy, the broker and the error channel do not
  -- touch the tables.
  pub tick-Moves :
      (r : Reader env) (ctx : Ctx) (w : World)
      → r.dialect ≡ postgres
      → IsQuietReader r
      → HasRoom env r
      → RespectsLimit env r ctx w
      → let ms = delivered env (env.query ctx (batch_select env r) w).0 in
        Moves
          (λ k. (m : Row env) × Among m ms × (key_of queue m ≡ k))
          (λ k. (m : Row env) × Among m ms × (key_of queue m ≡ k) × IsPublished ctx m)
          (committed w)
          (committed (tick env r ctx w).1)
  tick-Moves r ctx w speaks quiet room limit =
      Moves-mono (λ k (m, there, is, _). (m, there, is)) (λ k h. h)
        (tick-touches r ctx w speaks quiet room limit)
