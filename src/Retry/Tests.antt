-- ===== src/Retry/Tests.antt =====
-- The theorems on the retry loop at concrete inputs.
use cliros.Prelude.{◌≡◌, refl, ℕ, ◌+◌, ◌*◌, true, some, arith}
use cliros.Errors.{leaf, retryable, is_retryable}
use cliros.Retry.{Work, retry}
use cliros.Retry.Count.{retry_exhausts, IsExhausted, IsUncounted}
use cliros.Demo.{demo}
use cliros.Demo.Saga.{retrier, doubting}

-- Work that takes a unit of time and asks for another attempt.
abbrev waiting : Work demo ℕ
waiting ctx c w = (some (retryable (leaf "busy")), c + 1, record w { clock = w.clock + 1 })

clock-IsUncounted : IsUncounted demo (λ w. w.clock) (retrier 3)
clock-IsUncounted = record {
  by_poll = λ ctx w. refl;
  by_await = λ ctx d w. refl;
  by_policy = λ n w. refl;
}

retry_exhausts_example :
    let (failed, _, w') = retry demo (retrier 3) tt waiting 0 (doubting 0) in
    (w'.clock ≡ 0 + 3 * 1) × IsExhausted (λ e. is_retryable e ≡ true) failed
unfolding is_retryable
retry_exhausts_example =
    retry_exhausts demo (λ w. w.clock) (retrier 3) clock-IsUncounted waiting tt 1
      (λ e. is_retryable e ≡ true) (λ e h. h)
      record { polled = λ ctx w. refl; awaited = λ ctx d w. refl } (λ c w. refl) (λ c w. refl) 0
      (doubting 0) (omega arith)
