-- ===== src/Executor/Once.antt =====
-- internal/executor/executor.go, `runWithUserRetry`: the effect of repeated attempts on the tables.
use cliros.Prelude.{
  ℕ, String, ◌≡◌, sym, subst, ◌∙◌, ◌⊎◌, inl, inr, Option, none, some, List, Among, refl, arith,
}
use cliros.Errors.{Error}
use cliros.Effect.{Result, ok, err, Io, result_error}
use cliros.Message.{Message, MessageType, empty_message}
use cliros.Env.{Env, Action}
use cliros.Retry.{Retrier, retry}
use cliros.Retry.Rules.{Unmoved, Outcome, retry-Outcome}
use cliros.Outbox.{SagaType}
use cliros.Store.{Store, Postgres}
use cliros.Store.Atomic.{Settled, Atomic}
use cliros.Step.{Step}
use cliros.Executor.{StepExecutor, retry_infra, message_of}
use cliros.Executor.Attempt.{atomic_run}
use cliros.Executor.Atomicity.{IsContained, IsDeduplicating, Handled, atomic_run-Atomic}
use cliros.Executor.Runs.{
  assigning, unwrap_run, plain_run, run_with_infra_retry, run_with_user_retry,
}

module _ {env : Env} (pg : Postgres env) where
  open env use {World, Ctx, Uuid, Bytes, Any, parse_uuid}
  open pg use {Other, committed}

  -- A backoff policy that leaves the tables alone.
  abbrev pub IsQuiet : Retrier env → Type 0
  IsQuiet r =
      (n : ℕ) (w : World)
      → committed (r.backoff_policy n r.min_backoff r.max_backoff w).1 ≡ committed w

  abbrev pub IsQuiet? : Option (Retrier env) → Type 0
  IsQuiet? none = Unit
  IsQuiet? (some r) = IsQuiet r

  -- No attempt has had an effect yet, or one has.
  abbrev pub Started :
      {A : Type 0} → Store Uuid Bytes Other → (A → Store Uuid Bytes Other → Type 0) → World → Type 0
  Started {A} s H w = (committed w ≡ s) ⊎ ((a : A) × H a (committed w))

  pub Started-moved :
      {A : Type 0} (s : Store Uuid Bytes Other) (H : A → Store Uuid Bytes Other → Type 0)
      {w w' : World}
      → committed w' ≡ committed w
      → Started s H w
      → Started s H w'
  Started-moved s H same (inl still) = inl (same ∙ still)
  Started-moved s H same (inr (a, h)) = inr (a, subst (H a) (sym same) h)

  -- `m` may run again after attempts that failed.
  abbrev pub IsRepeatable :
      {A : Type 0}
      → Store Uuid Bytes Other
      → (A → Store Uuid Bytes Other → Type 0)
      → Io World A
      → Type 0
  IsRepeatable s H m = (w : World) → Started s H w → Settled pg s H (m w).0 (m w).1

  -- The key of `m` is in the inbox.
  abbrev pub IsClaimed : Message Any → Store Uuid Bytes Other → Type 0
  IsClaimed m t = (id : Uuid) × (parse_uuid m.saga_id ≡ ok id) × Among (id, m.from_step) t.inbox

  module _ {action : Action env} {name : String} {m : Message Any} {event : MessageType}
      {topics : List String} {phase : SagaType} {out : Message Any} {s t : Store Uuid Bytes Other}
      (h : Handled pg action name m event topics phase out s t) where
    pub Handled-IsClaimed : IsClaimed m t
    Handled-IsClaimed =
        (h.id, h.parsed, subst (λ keys. Among (h.id, m.from_step) keys) (sym h.claimed) (inl refl))

    -- A message whose key is claimed is not handled.
    pub not-IsClaimed : ¬ IsClaimed m s
    not-IsClaimed (id, parsed, there) =
        let same : h.id ≡ id = ground arith in
        h.fresh (subst (λ u. Among (u, m.from_step) s.inbox) (sym same) there)

  module _ (s : Store Uuid Bytes Other) (H : Message Any → Store Uuid Bytes Other → Type 0)
      (f : Ctx → Io World (Message Any)) (again : (ctx : Ctx) → IsRepeatable s H (f ctx)) where
    Settled-Outcome :
        (r : Result (Message Any)) (w : World)
        → Settled pg s H r w
        → Outcome
            (λ c w'. H c (committed w'))
            (λ _ w'. Started s H w')
            (result_error r)
            (message_of env r)
            w
    Settled-Outcome (ok m) w h = h
    Settled-Outcome (err e) w h = h

    Started-Unmoved : (r : Retrier env) → IsQuiet r → Unmoved env (Started s H) r
    Started-Unmoved r quiet = record {
      by_poll = λ ctx w. Started-moved s H (pg.poll_outside ctx w);
      by_await = λ ctx d w. Started-moved s H (pg.await_outside ctx d w);
      by_policy = λ n w. Started-moved s H (quiet n w);
    }

    unwrap_run-Settled :
        (failed : Option Error) (out : Message Any) (w : World)
        → Outcome (λ c w'. H c (committed w')) (λ _ w'. Started s H w') failed out w
        → Settled pg s H (unwrap_run env failed out) w
    unwrap_run-Settled none out w h = h
    unwrap_run-Settled (some e) out w h = h

    plain_run-Settled :
        (failed : Option Error) (out : Message Any) (w : World)
        → Outcome (λ c w'. H c (committed w')) (λ _ w'. Started s H w') failed out w
        → Settled pg s H (plain_run env failed out) w
    plain_run-Settled none out w h = h
    plain_run-Settled (some e) out w h = h

    retry-Started :
        (r : Retrier env) (ctx : Ctx) (c : Message Any) (w : World)
        → IsQuiet r
        → Started s H w
        → let (failed, out, w') = retry env r ctx (assigning env f) c w in
          Outcome (λ c' w₁. H c' (committed w₁)) (λ _ w₁. Started s H w₁) failed out w'
    retry-Started r ctx c w quiet h =
        retry-Outcome env r (assigning env f) ctx (λ c' w₁. H c' (committed w₁))
          (λ _ w₁. Started s H w₁) (λ _. Started-Unmoved r quiet)
          (λ c' w₁ h₁. Settled-Outcome (f ctx w₁).0 (f ctx w₁).1 (again ctx w₁ h₁)) c w h

    infra-Started :
        (r : Option (Retrier env)) (ctx : Ctx) (c : Message Any) (w : World)
        → IsQuiet? r
        → Started s H w
        → let (failed, out, w') = retry_infra env r ctx (assigning env f) c w in
          Outcome (λ c' w₁. H c' (committed w₁)) (λ _ w₁. Started s H w₁) failed out w'
    unfolding retry_infra
    infra-Started none ctx c w quiet h = Settled-Outcome (f ctx w).0 (f ctx w).1 (again ctx w h)
    infra-Started (some r) ctx c w quiet h = retry-Started r ctx c w quiet h

  -- What is atomic from every state of the tables, with an effect that does not come twice, may
  -- run again.
  pub exclusive-Repeatable :
      (H : Store Uuid Bytes Other → Message Any → Store Uuid Bytes Other → Type 0)
      (s : Store Uuid Bytes Other) (f : Io World (Message Any))
      → ((a b : Message Any) (t u : Store Uuid Bytes Other) → H s a t → ¬ H t b u)
      → ((s' : Store Uuid Bytes Other) (w : World)
          → committed w ≡ s'
          → Settled pg s' (H s') (f w).0 (f w).1)
      → IsRepeatable s (H s) f
  exclusive-Repeatable H s f once atomic w (inl still) = atomic s w still
  exclusive-Repeatable H s f once atomic w (inr (out, first)) =
      refused (f w).0 (f w).1 (atomic (committed w) w refl)
    where
      refused :
          (r : Result (Message Any)) (w' : World)
          → Settled pg (committed w) (H (committed w)) r w'
          → Settled pg s (H s) r w'
      refused (ok o) w' second = absurd (once out o (committed w) (committed w') first second)
      refused (err x) w' (inl same) = inr (out, subst (H s out) (sym same) first)
      refused (err x) w' (inr (o, second)) =
          absurd (once out o (committed w) (committed w') first second)

  module _ (stp : Step env) (m : Message Any) (action : Action env) (event : MessageType)
      (topics : List String) (phase : SagaType) (s : Store Uuid Bytes Other) where
    abbrev pub Effect : Message Any → Store Uuid Bytes Other → Type 0
    Effect = λ out t. Handled pg action stp.name m event topics phase out s t

    -- A message is not handled twice.
    pub Handled-Repeatable :
        (f : Io World (Message Any))
        → ((s' : Store Uuid Bytes Other) (w : World)
            → committed w ≡ s'
            → Settled pg s'
                (λ o t. Handled pg action stp.name m event topics phase o s' t)
                (f w).0
                (f w).1)
        → IsRepeatable s Effect f
    Handled-Repeatable f atomic =
        exclusive-Repeatable (λ s' o t. Handled pg action stp.name m event topics phase o s' t) s f
          (λ a b t u first second. not-IsClaimed second (Handled-IsClaimed first)) atomic

  -- The two loops round an attempt that may run again.
  module _ (e : StepExecutor env) (stp : Step env) (m : Message Any) (action : Action env)
      (event : MessageType) (topics : List String) (phase : SagaType) (s : Store Uuid Bytes Other)
      (H : Message Any → Store Uuid Bytes Other → Type 0)
      (once : (ctx : Ctx)
        → IsRepeatable s H (atomic_run env e ctx stp m action event topics phase)) where
    infra_run-Repeatable :
        (ctx : Ctx)
        → IsQuiet? e.infra_retrier
        → IsRepeatable s H (run_with_infra_retry env e ctx stp m action event topics phase)
    unfolding run_with_infra_retry
    infra_run-Repeatable ctx quiet w h =
        let run =
          retry_infra env e.infra_retrier ctx
            (assigning env λ inner. atomic_run env e inner stp m action event topics phase)
            empty_message w in
        unwrap_run-Settled s H _ once run.0 run.1 run.2
          (infra-Started s H _ once e.infra_retrier ctx empty_message w quiet h)

    pub user_run-Settled :
        (r : Option (Retrier env)) (ctx : Ctx) (w : World)
        → IsQuiet? e.infra_retrier
        → IsQuiet? r
        → committed w ≡ s
        → Atomic pg s H (run_with_user_retry env e ctx stp m action event topics phase r) w
    unfolding run_with_user_retry
    user_run-Settled none ctx w quiet _ h = record {
      ends = infra_run-Repeatable ctx quiet w (inl h);
    }
    user_run-Settled (some r) ctx w quiet user h =
        let again = λ (inner : Ctx). infra_run-Repeatable inner quiet in
        let run =
          retry env r ctx
            (assigning env
              λ inner. run_with_infra_retry env e inner stp m action event topics phase)
            empty_message w in
        record {
          ends =
              plain_run-Settled s H _ again run.0 run.1 run.2
                (retry-Started s H _ again r ctx empty_message w user (inl h));
        }

  -- Through both retry loops of `runWithUserRetry`: after success the delivery was handled
  -- exactly once (its key claimed, the action's changes made, one outbox row for each topic, in
  -- one commit); after an error the committed tables are as before, or it was handled exactly
  -- once although an error came back. The executor's writer and inbox speak PostgreSQL, the
  -- message names the step it comes from, the action commits nothing by itself and leaves the two
  -- tables alone, and the backoff policies commit nothing.
  pub user_run-Once :
      (e : StepExecutor env) (ctx : Ctx) (stp : Step env) (m : Message Any) (action : Action env)
      (event : MessageType) (topics : List String) (phase : SagaType) (r : Option (Retrier env))
      (w : World)
      → IsDeduplicating pg e m
      → IsContained pg action
      → IsQuiet? e.infra_retrier
      → IsQuiet? r
      → let (result, w') = run_with_user_retry env e ctx stp m action event topics phase r w in
        Settled pg
          (committed w)
          (λ out t. Handled pg action stp.name m event topics phase out (committed w) t)
          result
          w'
  user_run-Once e ctx stp m action event topics phase r w dedup contained infra user =
      (user_run-Settled e stp m action event topics phase (committed w)
        (Effect stp m action event topics phase (committed w))
        (λ inner.
          Handled-Repeatable stp m action event topics phase (committed w)
            (atomic_run env e inner stp m action event topics phase)
            λ s' w' h.
              (atomic_run-Atomic pg e inner stp m action event topics phase s' w' dedup contained
                h).ends)
        r ctx w infra user refl).ends
