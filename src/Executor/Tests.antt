-- ===== src/Executor/Tests.antt =====
-- Runs of the executor in the small world, and its theorems at concrete inputs.
use cliros.Prelude.{◌≡◌, refl, ℕ, ◌+◌, ◌*◌, inl, none, some, [], ◌∷◌, arith}
use cliros.Errors.{leaf, retryable, is_retryable, is_no_rows}
use cliros.Effect.{◌>>=◌, wrapping, deferring}
use cliros.Message.{MessageType, complete, failed}
use cliros.Retry.{retry}
use cliros.Inbox.{claim, postgres_error}
use cliros.Outbox.{execute, saga_text}
use cliros.Outbox.Writer.{from_saga_to_outbox_message, insert_row, write, write_messages}
use cliros.Store.{with_claim}
use cliros.Store.Atomic.{Settled, Atomic}
use cliros.Tracing.{inject_trace_context}
use cliros.Executor.{retry_infra}
use cliros.Executor.Attempt.{claim_if_needed, addressed, send_if_routed, attempt_in_tx, atomic_run}
use cliros.Executor.Atomicity.{Handled, atomic_run-Atomic}
use cliros.Executor.Once.{IsClaimed, user_run-Once}
use cliros.Executor.Redelivery.{IsRefused, user_run-IsRefused, compensate_step-IsRefused}
use cliros.Executor.Nested.{IsBusy, nested_attempts}
use cliros.Executor.Phases.{compensate_step}
use cliros.Retry.Count.{IsUncounted}
use cliros.Executor.Runs.{run_with_infra_retry, run_with_user_retry}
use cliros.Demo.{DemoWorld, exec_demo, query_row_demo, demo}
use cliros.Demo.Laws.{demo_postgres}
use cliros.Demo.Saga.{
  empty_tables, busy, incoming, book, step_of, executor, retrier, doubting, book-IsContained,
  executor-IsDeduplicating,
}

atomic_run-Atomic_example :
    let m = incoming complete "order" in
    Atomic demo_postgres empty_tables
      (λ out t.
        Handled demo_postgres book "booking" m complete ("paid" ∷ []) execute out empty_tables t)
      (atomic_run demo executor tt (step_of book none) m book complete ("paid" ∷ []) execute)
      (doubting 0)
atomic_run-Atomic_example =
    atomic_run-Atomic demo_postgres executor tt (step_of book none) (incoming complete "order") book
      complete ("paid" ∷ []) execute empty_tables (doubting 0) (executor-IsDeduplicating complete)
      book-IsContained refl

-- The first commit takes place and reports an error; the retry finds the claim.
user_run-Once_example :
    let m = incoming complete "order" in
    let (result, w') =
      run_with_user_retry demo executor tt
        (step_of book none)
        m
        book
        complete
        ("paid" ∷ [])
        execute
        (some (retrier 2))
        (doubting 1) in
    Settled demo_postgres
      (doubting 1).main
      (λ out t.
        Handled demo_postgres book "booking" m complete
          ("paid" ∷ [])
          execute
          out
          (doubting 1).main
          t)
      result
      w'
user_run-Once_example =
    user_run-Once demo_postgres executor tt (step_of book none) (incoming complete "order") book
      complete ("paid" ∷ []) execute (some (retrier 2)) (doubting 1)
      (executor-IsDeduplicating complete) book-IsContained (λ n w. refl) (λ n w. refl)

booked_once :
    (run_with_user_retry demo executor tt
      (step_of book none)
      (incoming complete "order")
      book
      complete
      ("paid" ∷ [])
      execute
      (some (retrier 2))
      (doubting 1)).1.main.other
    ≡ 1
unfolding run_with_user_retry run_with_infra_retry retry_infra retry atomic_run attempt_in_tx
    claim_if_needed send_if_routed addressed inject_trace_context claim write_messages write
    insert_row from_saga_to_outbox_message saga_text exec_demo query_row_demo is_retryable
    postgres_error is_no_rows ◌>>=◌ wrapping deferring
booked_once = refl

-- The delivery was handled before.
abbrev handled_before : DemoWorld
handled_before = record (doubting 0) { main = with_claim ("saga-1", "order") empty_tables }

before-IsClaimed :
    (type : MessageType)
    → IsClaimed demo_postgres (incoming type "order") (with_claim ("saga-1", "order") empty_tables)
before-IsClaimed type = ("saga-1", refl, inl refl)

user_run-IsRefused_example :
    let (result, w') =
      run_with_user_retry demo executor tt
        (step_of book none)
        (incoming complete "order")
        book
        complete
        ("paid" ∷ [])
        execute
        (some (retrier 2))
        handled_before in
    IsRefused demo_postgres (with_claim ("saga-1", "order") empty_tables) result w'
user_run-IsRefused_example =
    user_run-IsRefused demo_postgres executor tt (step_of book none) (incoming complete "order")
      book complete ("paid" ∷ []) execute (some (retrier 2)) handled_before
      (executor-IsDeduplicating complete) book-IsContained (λ n w. refl) (λ n w. refl)
      (before-IsClaimed complete)

compensate_step-IsRefused_example :
    let (result, w') =
      compensate_step demo executor tt
        (step_of book none)
        (incoming failed "order")
        handled_before in
    IsRefused demo_postgres (with_claim ("saga-1", "order") empty_tables) result w'
compensate_step-IsRefused_example =
    compensate_step-IsRefused demo_postgres executor tt (step_of book none)
      (incoming failed "order") handled_before (executor-IsDeduplicating failed) book-IsContained
      (λ n w. refl) (λ n w. refl) refl (before-IsClaimed failed)

clock-IsUncounted : (n : ℕ) → IsUncounted demo (λ w. w.clock) (retrier n)
clock-IsUncounted n = record {
  by_poll = λ ctx w. refl;
  by_await = λ ctx d w. refl;
  by_policy = λ k w. refl;
}

busy-IsBusy : IsBusy demo (λ w. w.clock) busy (incoming complete "")
unfolding is_retryable
busy-IsBusy = record {
  begins = λ ctx w. (tt, refl);
  begin_uncounted = λ ctx w. refl;
  rollback_uncounted = λ tx w. refl;
  counts = λ ctx tx w. refl;
  asks = λ ctx tx w. (retryable (leaf "busy"), refl, refl);
}

-- Two user attempts of three infrastructure attempts each.
nested_attempts_example :
    (run_with_user_retry demo executor tt
      (step_of busy none)
      (incoming complete "")
      busy
      complete
      ("paid" ∷ [])
      execute
      (some (retrier 2))
      (doubting 0)).1.clock
    ≡ 0 + 2 * 3
nested_attempts_example =
    nested_attempts executor (step_of busy none) (incoming complete "") busy complete ("paid" ∷ [])
      execute busy-IsBusy refl record { polled = λ ctx w. refl; awaited = λ ctx d w. refl }
      (retrier 3) (retrier 2) (clock-IsUncounted 3) (clock-IsUncounted 2) (omega arith) refl tt
      (doubting 0) (omega arith)
