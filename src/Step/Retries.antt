-- ===== src/Step/Retries.antt =====
-- step/step.go: how often `WithRetry` calls its handler.
use cliros.Prelude.{ℕ, ◌+◌, ◌*◌, ◌≤◌, Option, none, some}
use cliros.Errors.{Error}
use cliros.Message.{Message, empty_message}
use cliros.Env.{Env, ErrorHandler}
use cliros.Retry.{Retrier}
use cliros.Retry.Count.{IsUncounted, retry-count_le}
use cliros.Step.{keep_result, with_retry}

module _ (env : Env) (f : env.World → ℕ) (r : Retrier env) (uncounted : IsUncounted env f r)
    (handler : ErrorHandler env) (k : ℕ) where
  open env use {World, Ctx, Tx, Any}

  kept :
      (old : Message Any) (reply : (Message Any × Option Error) × World) (n : ℕ)
      → f reply.1 ≤ n
      → f (keep_result env old reply).2 ≤ n
  kept old ((m, none), w) n h = h
  kept old ((m, some x), w) n h = h

  pub with_retry-count_le :
      ((ctx : Ctx) (tx : Tx) (m : Message Any) (x : Error) (w : World)
        → f (handler ctx tx m x w).1 ≤ f w + k)
      → (ctx : Ctx) (tx : Tx) (m : Message Any) (x : Error) (w : World)
      → f (with_retry env r handler ctx tx m x w).1 ≤ f w + r.max_retries * k
  unfolding with_retry
  with_retry-count_le step ctx tx m x w =
      retry-count_le env f r uncounted
        (λ inner old w₁. keep_result env old (handler inner tx m x w₁)) ctx k
        (λ old w₁. kept old (handler ctx tx m x w₁) (f w₁ + k) (step ctx tx m x w₁)) empty_message w
