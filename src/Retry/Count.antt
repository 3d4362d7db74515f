-- ===== src/Retry/Count.antt =====
-- How often the loop runs its work, and what it answers.
use cliros.Prelude.{ℕ, zero, suc, ◌+◌, ◌*◌, ◌≤◌, ◌<◌, ◌≡◌, refl, Option, none, some, true, arith}
use cliros.Prelude.Int.{ℤ}
use cliros.Errors.{Error, is_retryable, max_retries_exceeded, join}
use cliros.Env.{Env}
use cliros.Retry.{Retrier, Work, exhausted, retry_from, retry}

module _ (env : Env) (f : env.World → ℕ) where
  open env use {World, Ctx, poll, await}

  -- Looking at the context and waiting do not count.
  pub record IsUncounted (r : Retrier env) : Type 0 where
    pub by_poll : (ctx : Ctx) (w : World) → f (poll ctx w).1 ≡ f w
    pub by_await : (ctx : Ctx) (d : ℤ) (w : World) → f (await ctx d w).1 ≡ f w
    pub by_policy :
        (n : ℕ) (w : World) → f (r.backoff_policy n r.min_backoff r.max_backoff w).1 ≡ f w

-- The context is never cancelled.
pub record IsLive (env : Env) : Type 0 where
  pub polled : (ctx : env.Ctx) (w : env.World) → (env.poll ctx w).0 ≡ none
  pub awaited : (ctx : env.Ctx) (d : ℤ) (w : env.World) → (env.await ctx d w).0 ≡ none

-- `errors.Is(err, ErrMaxRetriesExceeded)` with a last error in `K`.
abbrev pub IsExhausted : (Error → Type 0) → Option Error → Type 0
IsExhausted K none = ⊥
IsExhausted K (some x) = (e : Error) × (x ≡ join max_retries_exceeded e) × K e

-- A run of the work that ends in an error of `K`.
abbrev pub FailsIn : (Error → Type 0) → Option Error → Type 0
FailsIn K none = ⊥
FailsIn K (some e) = K e

module _ (env : Env) (f : env.World → ℕ) (r : Retrier env) (uncounted : IsUncounted env f r)
    {C : Type 0} (work : Work env C) (ctx : env.Ctx) (k : ℕ) where
  open env use {World, poll, await}

  module _ (step : (c : C) (w : World) → f (work ctx c w).2 ≤ f w + k) where
    retry_from-count_le :
        (left n : ℕ) (last : Option Error) (c : C) (w : World)
        → f (retry_from env left r ctx work n last c w).2 ≤ f w + left * k
    unfolding retry_from
    retry_from-count_le zero n last c w = ground (arith, uncounted.by_poll ctx w)
    retry_from-count_le (suc left) n last c w =
        let w₁ = (poll ctx w).1 in
        let (failed, c₁, w₂) = work ctx c w₁ in
        let (pause, w₃) = r.backoff_policy n r.min_backoff r.max_backoff w₂ in
        let w₄ = (await ctx pause w₃).1 in
        ground (
          arith,
          uncounted.by_poll ctx w,
          step c w₁,
          uncounted.by_policy n w₂,
          uncounted.by_await ctx pause w₃,
          retry_from-count_le left (suc n) failed c₁ w₄,
        )

  -- However the runs of the work and the context end the loop, a counter to which each run adds
  -- at most `k` grows by at most `MaxRetries * k`. Neither the context nor the backoff policy
  -- changes the counter.
  pub retry-count_le :
      ((c : C) (w : World) → f (work ctx c w).2 ≤ f w + k)
      → (c : C) (w : World) → f (retry env r ctx work c w).2 ≤ f w + r.max_retries * k
  unfolding retry
  retry-count_le step c w = retry_from-count_le step r.max_retries zero none c w

  module _ (K : Error → Type 0) (retried : (e : Error) → K e → is_retryable e ≡ true)
      (live : IsLive env) (step : (c : C) (w : World) → f (work ctx c w).2 ≡ f w + k)
      (fails : (c : C) (w : World) → FailsIn K (work ctx c w).0) where
    failing : (failed : Option Error) → FailsIn K failed → (e : Error) × (failed ≡ some e) × K e
    failing none h = absurd h
    failing (some e) h = (e, refl, h)

    -- A failing attempt is followed by the rest of the loop.
    again :
        (left n : ℕ) (last : Option Error) (c : C) (w : World)
        → let (failed, c₁, w₂) = work ctx c (poll ctx w).1 in
          let (pause, w₃) = r.backoff_policy n r.min_backoff r.max_backoff w₂ in
          retry_from env (suc left) r ctx work n last c w
          ≡ retry_from env left r ctx work (suc n) failed c₁ (await ctx pause w₃).1
    unfolding retry_from
    again left n last c w =
        let w₁ = (poll ctx w).1 in
        let (failed, c₁, w₂) = work ctx c w₁ in
        let (pause, w₃) = r.backoff_policy n r.min_backoff r.max_backoff w₂ in
        let (x, is_x, in_k) = failing failed (fails c w₁) in
        ground (arith, live.polled ctx w, is_x, retried x in_k, live.awaited ctx pause w₃)

    ended :
        (n : ℕ) (last : Option Error) (c : C) (w : World)
        → retry_from env zero r ctx work n last c w ≡ (some (exhausted last), c, (poll ctx w).1)
    unfolding retry_from
    ended n last c w = ground (arith, live.polled ctx w)

    retry_from-count_eq :
        (left n : ℕ) (last : Option Error) (c : C) (w : World)
        → f (retry_from env left r ctx work n last c w).2 ≡ f w + left * k
    unfolding retry_from
    retry_from-count_eq zero n last c w = ground (arith, uncounted.by_poll ctx w)
    retry_from-count_eq (suc left) n last c w =
        let w₁ = (poll ctx w).1 in
        let (failed, c₁, w₂) = work ctx c w₁ in
        let (pause, w₃) = r.backoff_policy n r.min_backoff r.max_backoff w₂ in
        let w₄ = (await ctx pause w₃).1 in
        rw (again left n last c w) (
          omega (
            arith,
            uncounted.by_poll ctx w,
            step c w₁,
            uncounted.by_policy n w₂,
            uncounted.by_await ctx pause w₃,
            retry_from-count_eq left (suc n) failed c₁ w₄,
          ))

    retry_from-IsExhausted :
        (left n : ℕ) (last : Option Error) (c : C) (w : World)
        → FailsIn K last
        → IsExhausted K (retry_from env left r ctx work n last c w).0
    retry_from-IsExhausted left n none c w h = absurd h
    retry_from-IsExhausted zero n (some e) c w h = rw (ended n (some e) c w) (e, refl, h)
    retry_from-IsExhausted (suc left) n (some e) c w h =
        let w₁ = (poll ctx w).1 in
        let (failed, c₁, w₂) = work ctx c w₁ in
        let (pause, w₃) = r.backoff_policy n r.min_backoff r.max_backoff w₂ in
        rw (again left n (some e) c w)
          (retry_from-IsExhausted left (suc n) failed c₁ (await ctx pause w₃).1 (fails c w₁))

    retry-IsExhausted :
        (left : ℕ) (c : C) (w : World)
        → 0 < left
        → IsExhausted K (retry_from env left r ctx work zero none c w).0
    retry-IsExhausted zero c w h = elim h [ ]
    retry-IsExhausted (suc left) c w h =
        let w₁ = (poll ctx w).1 in
        let (failed, c₁, w₂) = work ctx c w₁ in
        let (pause, w₃) = r.backoff_policy zero r.min_backoff r.max_backoff w₂ in
        rw (again left zero none c w)
          (retry_from-IsExhausted left 1 failed c₁ (await ctx pause w₃).1 (fails c w₁))

    -- Work that fails each time with a retryable error is run `MaxRetries` times exactly, and the
    -- answer joins `ErrMaxRetriesExceeded` with an error of the work. The context is never
    -- cancelled, `MaxRetries` is positive, each run of the work adds `k` to a counter, and
    -- neither the context nor the backoff policy changes the counter.
    pub retry_exhausts :
        (c : C) (w : World)
        → 0 < r.max_retries
        → let (failed, _, w') = retry env r ctx work c w in
          (f w' ≡ f w + r.max_retries * k) × IsExhausted K failed
    unfolding retry
    retry_exhausts c w h =
        (retry_from-count_eq r.max_retries zero none c w, retry-IsExhausted r.max_retries c w h)
