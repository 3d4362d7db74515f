-- ===== src/Executor/RecoveryTests.antt =====
-- The executor with an error handler, in the small world.
use cliros.Prelude.{refl, none, some, [], ◌∷◌}
use cliros.Errors.{leaf}
use cliros.Message.{complete, failed}
use cliros.Outbox.{execute}
use cliros.Executor.Handler.{Recovers, run_error_handler-Recovers}
use cliros.Executor.Execution.{Executes, execute_step-Executes}
use cliros.Executor.Undoing.{Undoes, compensate_step-Undoes}
use cliros.Executor.Phases.{execute_step, compensate_step}
use cliros.Executor.Runs.{run_error_handler}
use cliros.Demo.{demo}
use cliros.Demo.Laws.{demo_postgres}
use cliros.Demo.Saga.{
  empty_tables, incoming, book, refuse, salvage, step_of, executor, doubting, book-IsContained,
  refuse-IsContained, salvage-IsContained, only_salvage, executor-IsDeduplicating,
}

run_error_handler-Recovers_example :
    let (reply, w') =
      run_error_handler demo executor tt
        (step_of refuse (some salvage))
        (incoming complete "order")
        (leaf "out of stock")
        salvage
        complete
        ("paid" ∷ [])
        execute
        (doubting 1) in
    Recovers demo_postgres
      (step_of refuse (some salvage))
      (incoming complete "order")
      (leaf "out of stock")
      salvage
      complete
      ("paid" ∷ [])
      execute
      empty_tables
      reply
      w'
run_error_handler-Recovers_example =
    run_error_handler-Recovers demo_postgres executor (step_of refuse (some salvage))
      (incoming complete "order") (leaf "out of stock") salvage complete ("paid" ∷ []) execute
      (executor-IsDeduplicating complete) salvage-IsContained empty_tables tt (doubting 1)
      (λ n w. refl) refl

-- The action refuses the message, the error handler saves it, and a commit reports an error.
execute_step-Executes_example :
    let (r, w') =
      execute_step demo executor tt
        (step_of refuse (some salvage))
        (incoming complete "order")
        (doubting 1) in
    Executes demo_postgres
      (step_of refuse (some salvage))
      (incoming complete "order")
      executor
      empty_tables
      w'.main
      r
execute_step-Executes_example =
    execute_step-Executes demo_postgres executor (step_of refuse (some salvage))
      (incoming complete "order") (executor-IsDeduplicating complete) (λ n w. refl) tt (doubting 1)
      refuse-IsContained only_salvage (λ n w. refl)

compensate_step-Undoes_example :
    let (r, w') =
      compensate_step demo executor tt (step_of book none) (incoming failed "order") (doubting 1) in
    Undoes demo_postgres (step_of book none) (incoming failed "order") empty_tables r w'.main
compensate_step-Undoes_example =
    compensate_step-Undoes demo_postgres executor (step_of book none) (incoming failed "order")
      (executor-IsDeduplicating failed) (λ n w. refl) tt (doubting 1) book-IsContained (λ h is. cc)
      (λ n w. refl)
