-- ===== src/Outbox/Attempts/Messages.antt =====
-- internal/outbox/reader.go: the attempts of the rows while one message is processed.
use cliros.Prelude.{
  ℕ, ◌≤◌, ◌<◌, ◌==◌, String, ◌≡◌, ◌∙◌, sym, subst, inl, inr, Option, none, some, List, ◌∷◌, Among,
  Each, Each-map, Bool-cases,
}
use cliros.Errors.{Error, wrap}
use cliros.Effect.{Result, ok, err}
use cliros.Effect.Rules.{Result-cases}
use cliros.Database.{postgres}
use cliros.Env.{Env}
use cliros.Outbox.Writer.{Row}
use cliros.Outbox.Reader.{
  Reader, update_outbox_on_success, update_outbox_on_err, calculate_next_attempt,
  handle_publish_error, after_update, handle_publish_success, after_publish, process_message,
  from_outbox_to_saga_message,
}
use cliros.Outbox.Progress.{Pointwise-Each}
use cliros.Outbox.Marking.{key_of, update_outbox_on_success-Atomic, update_outbox_on_err-Atomic}
use cliros.Outbox.Publishing.{IsQuietReader, reported-committed}
use cliros.Store.{OutboxRow, Store, row_key, Postgres}
use cliros.Store.Atomic.{Settled}
use cliros.Store.Queue.{Queue, Updates, Marks, Delays}

module _ {U B : Type 0} where
  -- A row whose attempts are within `n`, and below it where its key is still to be processed.
  abbrev pub Tries : ℕ → List (U × String × String) → OutboxRow U B → Type 0
  Tries n ks row = (row.attempts_counter ≤ n) × (Among (row_key row) ks → row.attempts_counter < n)

  Delays-Tries :
      (n : ℕ) {k : U × String × String} (ks : List (U × String × String)) {last next : ℕ}
      → ¬ Among k ks
      → (row row' : OutboxRow U B) → Delays k last next row row'
      → Tries n (k ∷ ks) row
      → Tries n ks row'
  Delays-Tries n {k} ks alone row row' (inl (is, made)) h =
      subst (Tries n ks) (sym made)
        (h.1 (inl is), λ there. absurd (alone (subst (λ x. Among x ks) is there)))
  Delays-Tries n {k} ks alone row row' (inr same) h =
      subst (Tries n ks) (sym same) (h.0, λ there. h.1 (inr there))

  Marks-Tries :
      (n : ℕ) {k : U × String × String} (ks : List (U × String × String)) {at : ℕ}
      → (row row' : OutboxRow U B) → Marks k at row row'
      → Tries n ks row
      → Tries n ks row'
  Marks-Tries n ks row row' (inl (is, made)) h = subst (Tries n ks) (sym made) h
  Marks-Tries n ks row row' (inr same) h = subst (Tries n ks) (sym same) h

module _ {env : Env} {pg : Postgres env} (queue : Queue pg) where
  open env use {World, Ctx, Uuid, Bytes, publish, query, now}
  open pg use {Other, committed}

  module _ (n : ℕ) where
    -- The rows of the tables while the rows with the keys are still to be processed.
    abbrev pub AreTried : List (Uuid × String × String) → World → Type 0
    AreTried ks w = Each (Tries n ks) (committed w).outbox

    pub AreTried-same :
        (ks : List (Uuid × String × String)) {w w' : World}
        → committed w' ≡ committed w
        → AreTried ks w
        → AreTried ks w'
    AreTried-same ks same h = subst (λ s. Each (Tries n ks) s.outbox) (sym same) h

    AreTried-less :
        (k : Uuid × String × String) (ks : List (Uuid × String × String)) (w : World)
        → AreTried (k ∷ ks) w
        → AreTried ks w
    AreTried-less k ks w h =
        Each-map (Tries n (k ∷ ks)) (λ row t. (t.0, λ there. t.1 (inr there))) (committed w).outbox
          h

    -- After an update of the rows, or after one whose commit failed.
    Settled-AreTried :
        {A : Type 0} {R : OutboxRow Uuid Bytes → OutboxRow Uuid Bytes → Type 0}
        (ks ks' : List (Uuid × String × String)) (s : Store Uuid Bytes Other) (reply : Result A)
        (w : World)
        → ((x y : OutboxRow Uuid Bytes) → R x y → Tries n ks x → Tries n ks' y)
        → Each (Tries n ks') s.outbox
        → Each (Tries n ks) s.outbox
        → Settled pg s (λ _ t. Updates R s t) reply w
        → AreTried ks' w
    Settled-AreTried ks ks' s (ok a) w f weak h updated =
        Pointwise-Each f s.outbox (committed w).outbox updated.rows h
    Settled-AreTried ks ks' s (err x) w f weak h (inl same) =
        subst (λ t. Each (Tries n ks') t.outbox) (sym same) weak
    Settled-AreTried ks ks' s (err x) w f weak h (inr (a, updated)) =
        Pointwise-Each f s.outbox (committed w).outbox updated.rows h

    module _ (r : Reader env) (ctx : Ctx) (speaks : r.dialect ≡ postgres)
        (quiet : IsQuietReader queue r) (m : Row env) (ks : List (Uuid × String × String))
        (alone : ¬ Among (key_of queue m) ks) where
      handle_publish_error-AreTried :
          (w : World)
          → AreTried (key_of queue m ∷ ks) w
          → AreTried ks (handle_publish_error env r ctx m w)
      unfolding handle_publish_error calculate_next_attempt
      handle_publish_error-AreTried w h =
          let (at, w₁) = now w in
          let (next, w₂) = calculate_next_attempt env r m w₁ in
          let (result, w₃) = update_outbox_on_err env r ctx m at next w₂ in
          let before : committed w₂ ≡ committed w =
            pg.now_committed
              (r.backoff.backoff_policy m.attempt_counter r.backoff.backoff_min
                r.backoff.backoff_max w₁).1
            ∙ quiet m.attempt_counter w₁
            ∙ pg.now_committed w in
          AreTried-same ks (reported-committed queue "outbox update on error" (result, w₃)) (
            Settled-AreTried (key_of queue m ∷ ks) ks (committed w) result w₃
              (Delays-Tries n ks alone) (AreTried-less (key_of queue m) ks w h) h
              (update_outbox_on_err-Atomic queue r ctx m at next (committed w) w₂ speaks
                before).ends)

      after_update-AreTried :
          (reply : Result ℕ) (w : World)
          → AreTried (key_of queue m ∷ ks) w
          → AreTried ks (after_update env r ctx m (reply, w))
      after_update-AreTried (err x) w h =
          AreTried-same ks (queue.try_send_outside (wrap "outbox update on success" x) w)
            (AreTried-less (key_of queue m) ks w h)
      after_update-AreTried (ok affected) w h = elim (Bool-cases (affected == 0)) [
        | inl e ↦ simp e (handle_publish_error-AreTried w h)
        | inr e ↦ simp e (AreTried-less (key_of queue m) ks w h)
      ]

      handle_publish_success-AreTried :
          (w : World)
          → AreTried (key_of queue m ∷ ks) w
          → AreTried ks (handle_publish_success env r ctx m w)
      unfolding handle_publish_success
      handle_publish_success-AreTried w h =
          let (at, w₁) = now w in
          let (result, w₂) = update_outbox_on_success env r ctx m at w₁ in
          let k = key_of queue m ∷ ks in
          after_update-AreTried result w₂ (
            Settled-AreTried k k (committed w) result w₂ (Marks-Tries n k) h h
              (update_outbox_on_success-Atomic queue r ctx m at (committed w) w₁ speaks
                (pg.now_committed w)).ends)

      after_publish-AreTried :
          (failed : Option Error) (w : World)
          → AreTried (key_of queue m ∷ ks) w
          → AreTried ks (after_publish env r ctx m (failed, w)).1
      after_publish-AreTried none w h = handle_publish_success-AreTried w h
      after_publish-AreTried (some x) w h =
          let e = wrap "outbox publish" x in
          handle_publish_error-AreTried (env.try_send e w)
            (AreTried-same (key_of queue m ∷ ks) (queue.try_send_outside e w) h)

      pub process_message-AreTried :
          (w : World)
          → AreTried (key_of queue m ∷ ks) w
          → AreTried ks (process_message env r ctx m w).1
      unfolding process_message
      process_message-AreTried w h = elim (Result-cases (from_outbox_to_saga_message env m)) [
        | inl (out, e) ↦
            let (failed, w₁) = publish ctx m.topic out w in
            rw (process_message, e)
              (after_publish-AreTried failed w₁
                (AreTried-same (key_of queue m ∷ ks) (queue.publish_outside ctx m.topic out w) h))
        | inr (x, e) ↦ rw (process_message, e) (AreTried-less (key_of queue m) ks w h)
      ]
