-- ===== src/Executor/Nested.antt =====
-- internal/executor/executor.go, `runWithUserRetry`: how the two retry loops count an action's errors.
use cliros.Prelude.{
  ℕ, ◌+◌, ◌*◌, ◌<◌, String, ◌≡◌, refl, true, Option, none, some, List, arith, str_eq_iff,
}
use cliros.Errors.{Error, action_error, is_retryable, as_action_error}
use cliros.Effect.{ok, err, ◌>>=◌, wrapping, deferring, result_error}
use cliros.Message.{Message, MessageType, empty_message}
use cliros.Database.{SqlDialect}
use cliros.Env.{Env, Action}
use cliros.Retry.{Retrier, Work, retry}
use cliros.Retry.Count.{IsUncounted, IsLive, FailsIn, IsExhausted, retry_exhausts}
use cliros.Outbox.{SagaType}
use cliros.Step.{Step}
use cliros.Executor.{StepExecutor, retry_infra}
use cliros.Executor.Attempt.{claim_if_needed, attempt_in_tx, atomic_run}
use cliros.Executor.Runs.{assigning, unwrap_run, run_with_infra_retry, run_with_user_retry}

module _ (env : Env) (f : env.World → ℕ) where
  open env use {World, Ctx, Tx, Any, begin_tx, rollback}

  -- Transactions start, and every call of the action counts one and asks for another attempt.
  pub record IsBusy (action : Action env) (m : Message Any) : Type 0 where
    pub begins : (ctx : Ctx) (w : World) → (tx : Tx) × ((begin_tx ctx w).0 ≡ ok tx)
    pub begin_uncounted : (ctx : Ctx) (w : World) → f (begin_tx ctx w).1 ≡ f w
    pub rollback_uncounted : (tx : Tx) (w : World) → f (rollback tx w) ≡ f w
    pub counts : (ctx : Ctx) (tx : Tx) (w : World) → f (action ctx tx m w).1 ≡ f w + 1
    pub asks :
        (ctx : Ctx) (tx : Tx) (w : World)
        → (x : Error) × ((action ctx tx m w).0.1 ≡ some x) × (is_retryable x ≡ true)

-- What an attempt answers: the action's error in its wrapper.
abbrev IsActionError : Error → Type 0
IsActionError e = (x : Error) × (e ≡ action_error x) × (is_retryable x ≡ true)

action_error_retried : (e : Error) → IsActionError e → is_retryable e ≡ true
unfolding is_retryable
action_error_retried e (x, is_x, asks) = rw is_x asks

module _ {env : Env} {f : env.World → ℕ} (e : StepExecutor env) (stp : Step env)
    (m : Message env.Any) (action : Action env) (event : MessageType) (topics : List String)
    (phase : SagaType) (busy : IsBusy env f action m) (first : m.from_step ≡ "")
    (live : IsLive env) where
  open env use {World, Ctx, Tx, Any, begin_tx, rollback}

  unclaimed :
      (o : Option SqlDialect) (ctx : Ctx) (tx : Tx) (w : World)
      → claim_if_needed env o ctx tx m w ≡ (ok tt, w)
  unfolding claim_if_needed
  unclaimed none ctx tx w = refl
  unclaimed (some d) ctx tx w = ground (arith, str_eq_iff m.from_step "")

  attempt_ends :
      (ctx : Ctx) (w : World)
      → let w₁ = (begin_tx ctx w).1 in
        let (tx, started) = busy.begins ctx w in
        let (x, asked, retried) = busy.asks ctx tx w₁ in
        atomic_run env e ctx stp m action event topics phase w
        ≡ (err (action_error x), rollback tx (action ctx tx m w₁).1)
  unfolding atomic_run attempt_in_tx ◌>>=◌ wrapping deferring
  attempt_ends ctx w =
      let w₁ = (begin_tx ctx w).1 in
      let (tx, started) = busy.begins ctx w in
      let (x, asked, retried) = busy.asks ctx tx w₁ in
      ground (arith, started, asked, unclaimed e.inbox ctx tx w₁)

  attempt_counts :
      (ctx : Ctx) (w : World)
      → f (atomic_run env e ctx stp m action event topics phase w).1 ≡ f w + 1
  attempt_counts ctx w =
      let w₁ = (begin_tx ctx w).1 in
      let (tx, started) = busy.begins ctx w in
      rw (attempt_ends ctx w) (
        omega (
          arith,
          busy.begin_uncounted ctx w,
          busy.counts ctx tx w₁,
          busy.rollback_uncounted tx (action ctx tx m w₁).1,
        ))

  attempt_fails :
      (ctx : Ctx) (w : World)
      → FailsIn IsActionError
          (result_error (atomic_run env e ctx stp m action event topics phase w).0)
  attempt_fails ctx w =
      let (tx, started) = busy.begins ctx w in
      let (x, asked, retried) = busy.asks ctx tx (begin_tx ctx w).1 in
      rw (attempt_ends ctx w) (x, refl, retried)

  -- The error of the inner loop, as the outer loop sees it.
  abbrev IsRetried : Error → Type 0
  IsRetried = λ x. is_retryable x ≡ true

  unwrapped-IsRetried :
      (failed : Option Error) (out : Message Any)
      → IsExhausted IsActionError failed
      → FailsIn IsRetried (result_error (unwrap_run env failed out))
  unfolding as_action_error
  unwrapped-IsRetried none out h = absurd h
  unwrapped-IsRetried (some x) out (y, is_y, (z, is_z, asks)) = rw (is_y, is_z) asks

  module _ (inner outer : Retrier env) (by_inner : IsUncounted env f inner)
      (by_outer : IsUncounted env f outer) (inner_runs : 0 < inner.max_retries)
      (infra : e.infra_retrier ≡ some inner) where
    with_retrier :
        {C : Type 0} (o : Option (Retrier env)) (ctx : Ctx) (work : Work env C) (c : C) (w : World)
        → o ≡ some inner
        → retry_infra env o ctx work c w ≡ retry env inner ctx work c w
    unfolding retry_infra
    with_retrier o ctx work c w is = rw (is, retry_infra)

    inner_counts :
        (ctx : Ctx) (w : World)
        → let (r, w') = run_with_infra_retry env e ctx stp m action event topics phase w in
          (f w' ≡ f w + inner.max_retries * 1) × FailsIn IsRetried (result_error r)
    unfolding run_with_infra_retry
    inner_counts ctx w =
        let work =
          assigning env (λ (c : Ctx). atomic_run env e c stp m action event topics phase) in
        let run = retry env inner ctx work empty_message w in
        let (count, done) =
          retry_exhausts env f inner by_inner work ctx 1 IsActionError action_error_retried live
            (λ c w₁. attempt_counts ctx w₁) (λ c w₁. attempt_fails ctx w₁) empty_message w
            inner_runs in
        rw (with_retrier e.infra_retrier ctx work empty_message w infra)
          (count, unwrapped-IsRetried run.0 run.1 done)

    inner_assigns :
        (ctx : Ctx) (c : Message Any) (w : World)
        → FailsIn IsRetried
            (assigning env
              (λ inner'. run_with_infra_retry env e inner' stp m action event topics phase)
              ctx
              c
              w).0
    inner_assigns ctx c w = (inner_counts ctx w).1

    -- An action that always asks for another attempt is called once for each pair of a user
    -- attempt and an infrastructure attempt, so the product of the two `MaxRetries` times. Both
    -- are positive, the message comes from no step, the context is never cancelled, transactions
    -- start, and only the action changes the counter of its calls.
    pub nested_attempts :
        (ctx : Ctx) (w : World)
        → 0 < outer.max_retries
        → f (run_with_user_retry env e ctx stp m action event topics phase (some outer) w).1
          ≡ f w + outer.max_retries * inner.max_retries
    unfolding run_with_user_retry
    nested_attempts ctx w outer_runs =
        let work =
          assigning env
            (λ (c : Ctx). run_with_infra_retry env e c stp m action event topics phase) in
        let (count, _) =
          retry_exhausts env f outer by_outer work ctx inner.max_retries IsRetried (λ x h. h) live
            (λ c w₁. omega (arith, (inner_counts ctx w₁).0)) (inner_assigns ctx) empty_message w
            outer_runs in
        count
