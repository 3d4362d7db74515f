-- ===== src/Controller/Tests.antt =====
-- The theorems on deliveries and sagas at concrete inputs.
use cliros.Prelude.{◌≡◌, refl, true, none, [], ◌∷◌}
use cliros.Errors.{leaf, is_retryable, as_action_error}
use cliros.Effect.{◌>>=◌, wrapping, deferring}
use cliros.Message.{empty_message, complete}
use cliros.Retry.{retry}
use cliros.Step.{Step}
use cliros.Executor.{retry_infra}
use cliros.Executor.Attempt.{claim_if_needed, attempt_in_tx, atomic_run}
use cliros.Executor.Runs.{run_with_infra_retry, run_with_user_retry}
use cliros.Executor.Phases.{execute_step}
use cliros.Controller.{Controller, run_steps}
use cliros.Controller.Sagas.{run_steps-after_failure}
use cliros.Database.{postgres}
use cliros.Demo.{demo}
use cliros.Demo.Saga.{reader, incoming, book, refuse, step_of, executor, doubting}

abbrev pub controller : Controller demo
controller = record {
  executor = executor;
  reader = reader;
  dialect = postgres;
  metrics = true;
  tracing_enabled = true;
  tracer = none;
  tracer_name = "saga";
}

-- It refuses every message, and tells nobody.
abbrev refusing : Step demo
refusing = record (step_of refuse none) {
  routing = record { next_step_topics = []; error_topics = [] };
}

run_steps-after_failure_example :
    run_steps demo controller tt
      (refusing ∷ step_of book none ∷ [])
      (incoming complete "")
      (doubting 0)
    ≡ run_steps demo controller tt
        (step_of book none ∷ [])
        empty_message
        (execute_step demo executor tt refusing (incoming complete "") (doubting 0)).1
unfolding run_with_user_retry run_with_infra_retry retry_infra retry atomic_run attempt_in_tx
    claim_if_needed is_retryable as_action_error ◌>>=◌ wrapping deferring
run_steps-after_failure_example =
    run_steps-after_failure controller tt refusing (step_of book none ∷ []) (incoming complete "")
      (doubting 0) (leaf "out of stock") refl refl (λ ctx w. refl)
