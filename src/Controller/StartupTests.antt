-- ===== src/Controller/StartupTests.antt =====
-- A controller made of a configuration, in the small world.
use cliros.Prelude.{◌≡◌, refl, true, none, some, [], ◌∷◌, length}
use cliros.Prelude.Int.{pos, ltb_ℤ}
use cliros.Effect.{ok}
use cliros.Database.{postgres, new_db_context, new_db_context_with_db}
use cliros.Outbox.Reader.{Reader, polling, polling_interval}
use cliros.Executor
use cliros.Controller.{Controller}
use cliros.Controller.Startup.{Config, new, reader_of, executor_of, tracer_name_of}
use cliros.Controller.Made.{succeeds, is_complete, succeeds-new, new-polling}
use cliros.Demo.{demo}
use cliros.Demo.Due.{demo-RespectsLimit}
use cliros.Demo.Saga.{booked_row, retrier, doubting}
use cliros.Demo.Whole.{whole}

-- Only what has no default.
abbrev config : Config demo
config = record {
  subscriber = true;
  publisher = true;
  db = some (new_db_context postgres);
  infra_retry = some (retrier 3);
  poll_interval = pos 0;
  batch_size = pos 0;
  backoff_policy = none;
  backoff_min = pos 0;
  backoff_max = pos 0;
  metrics = true;
  tracing = some (record { tracer = none; tracer_name = "" });
}

abbrev made : Controller demo
made = record {
  executor = record {
    writer = postgres;
    inbox = some postgres;
    infra_retrier = some (retrier 3);
    metrics = true;
    tracing_enabled = true;
    tracer_name = "saga";
    tracer = none;
  };
  reader = reader_of demo whole booked_row config (record { db = true; dialect = postgres });
  dialect = postgres;
  metrics = true;
  tracing_enabled = true;
  tracer = none;
  tracer_name = "saga";
}

new-made : new demo whole booked_row (some config) ≡ ok made
unfolding new executor_of Executor.new tracer_name_of new_db_context new_db_context_with_db
new-made = refl

succeeds-new_example :
    succeeds (new demo whole booked_row (some config)) ≡ is_complete demo (some config)
succeeds-new_example = succeeds-new demo whole booked_row (some config)

new-polling_example :
    (ltb_ℤ (pos 0) (polling_interval demo made.reader) ≡ true)
    × ((r : Reader demo) × ((polling demo made.reader tt
            ((λ w. w) ∷ (λ w. doubting 1) ∷ [])
            (doubting 0)).0
          ≡ some r)
        × (length r.buffer ≡ length made.reader.buffer))
new-polling_example =
    new-polling demo whole booked_row config made tt ((λ w. w) ∷ (λ w. doubting 1) ∷ [])
      (doubting 0) new-made demo-RespectsLimit
