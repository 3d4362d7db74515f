-- ===== src/Retry/Rules.antt =====
-- The invariant rule of the retry loop.
use cliros.Prelude.{ℕ, zero, suc, Option, none, some, arith}
use cliros.Prelude.Int.{ℤ}
use cliros.Errors.{Error}
use cliros.Env.{Env}
use cliros.Retry.{Retrier, Work, retry_from, retry}

module _ (env : Env) where
  open env use {World, Ctx, poll, await}

  -- Waiting and looking at the context leave `I` alone.
  pub record Unmoved (I : World → Type 0) (r : Retrier env) : Type 0 where
    pub by_poll : (ctx : Ctx) (w : World) → I w → I (poll ctx w).1
    pub by_await : (ctx : Ctx) (d : ℤ) (w : World) → I w → I (await ctx d w).1
    pub by_policy :
        (n : ℕ) (w : World) → I w → I (r.backoff_policy n r.min_backoff r.max_backoff w).1

-- `Good` after success, `I` after an error.
abbrev pub Outcome :
    {W C : Type 0} → (C → W → Type 0) → (C → W → Type 0) → Option Error → C → W → Type 0
Outcome Good I none c w = Good c w
Outcome Good I (some e) c w = I c w

module _ (env : Env) {C : Type 0} (r : Retrier env) (work : Work env C) (ctx : env.Ctx)
    (Good I : C → env.World → Type 0) (unmoved : (c : C) → Unmoved env (I c) r)
    (run : (c : C) (w : env.World)
      → I c w
      → let (failed, c', w') = work ctx c w in Outcome Good I failed c' w') where
  open env use {World, poll, await}

  retry_from-Outcome :
      (left n : ℕ) (last : Option Error) (c : C) (w : World)
      → I c w
      → let (failed, c', w') = retry_from env left r ctx work n last c w in
        Outcome Good I failed c' w'
  unfolding retry_from
  retry_from-Outcome zero n last c w h = ground (arith, (unmoved c).by_poll ctx w h)
  retry_from-Outcome (suc left) n last c w h =
      let w₁ = (poll ctx w).1 in
      let (failed, c₁, w₂) = work ctx c w₁ in
      let (pause, w₃) = r.backoff_policy n r.min_backoff r.max_backoff w₂ in
      let w₄ = (await ctx pause w₃).1 in
      ground (
        arith,
        (unmoved c).by_poll ctx w h,
        run c w₁,
        (unmoved c₁).by_policy n w₂,
        (unmoved c₁).by_await ctx pause w₃,
        retry_from-Outcome left (suc n) failed c₁ w₄,
      )

  -- If every attempt from `I` ends in `Good` or in an error and `I`, so does the whole loop.
  pub retry-Outcome :
      (c : C) (w : World)
      → I c w
      → let (failed, c', w') = retry env r ctx work c w in Outcome Good I failed c' w'
  unfolding retry
  retry-Outcome c w h = retry_from-Outcome r.max_retries zero none c w h
