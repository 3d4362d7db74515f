-- ===== src/Retry.antt =====
-- retry/retry.go: the retry loop. A closure that the loop runs may assign variables of its
-- caller: they are the state `C`, passed in and out of each run.
pub mod Rules
pub mod Count
mod Tests
use cliros.Prelude.{ℕ, zero, suc, Option, none, some, true, false}
use cliros.Prelude.Int.{ℤ}
use cliros.Errors.{Error, retryable, join, max_retries_exceeded, is_retryable}
use cliros.Env.{Env, BackoffPolicy}

-- `AsRetryable` and `NewRetryable`
unfoldable pub as_retryable : Error → Error
as_retryable e = retryable e

-- The error after the last attempt; `none` if there was no attempt.
abbrev pub exhausted : Option Error → Error
exhausted none = max_retries_exceeded
exhausted (some e) = join max_retries_exceeded e

module _ (env : Env) where
  open env use {World, Ctx, poll, await}

  -- `BackoffOptions` and `Retrier`
  pub record Retrier : Type 0 where
    pub backoff_policy : BackoffPolicy env
    pub min_backoff : ℤ
    pub max_backoff : ℤ
    pub max_retries : ℕ

  abbrev pub Work : Type 0 → Type 0
  Work C = Ctx → C → World → Option Error × C × World

  -- `sleep`
  unfoldable pub sleep : Ctx → ℤ → World → Option Error × World
  sleep ctx d w = await ctx d w

  module _ {C : Type 0} where
    -- The `for` loop of `retry`, with `left` for `r.MaxRetries - retries`.
    unfoldable pub retry_from :
        (left : ℕ)
        → Retrier
        → Ctx
        → Work C
        → ℕ
        → Option Error
        → C
        → World
        → Option Error × C × World
    unfolding sleep
    retry_from zero r ctx work retries last c w =
        let (done, w₁) = poll ctx w in
        elim done [ some e ↦ (some e, c, w₁) | none ↦ (some (exhausted last), c, w₁) ]
    retry_from (suc left) r ctx work retries last c w =
        let (done, w₁) = poll ctx w in
        elim done [
          | some e ↦ (some e, c, w₁)
          | none ↦
              let (failed, c₁, w₂) = work ctx c w₁ in
              elim failed [
                | none ↦ (none, c₁, w₂)
                | some e ↦ elim (is_retryable e) [
                  | false ↦ (some e, c₁, w₂)
                  | true ↦
                      let (pause, w₃) = r.backoff_policy retries r.min_backoff r.max_backoff w₂ in
                      let (woken, w₄) = sleep ctx pause w₃ in
                      elim woken [
                        | some stop ↦ (some stop, c₁, w₄)
                        | none ↦ retry_from left r ctx work (suc retries) (some e) c₁ w₄
                      ]
                ]
              ]
        ]

    -- `Retrier.Retry`
    unfoldable pub retry : Retrier → Ctx → Work C → C → World → Option Error × C × World
    unfolding retry_from
    retry r ctx work c w = retry_from r.max_retries r ctx work zero none c w
