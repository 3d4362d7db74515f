-- ===== src/Demo/Saga.antt =====
-- A step, an executor and messages in the small world.
use cliros.Prelude.{
  ℕ, ◌+◌, ◌≡◌, refl, subst, arith, str_eq_iff, String, true, Option, none, some, [], ◌∷◌,
}
use cliros.Prelude.Int.{pos}
use cliros.Errors.{leaf, retryable}
use cliros.Message.{Message, MessageType, complete}
use cliros.Database.{postgres}
use cliros.Env.{Action, ErrorHandler}
use cliros.Retry.{Retrier}
use cliros.Outbox.{execute}
use cliros.Outbox.Writer.{Row}
use cliros.Outbox.Reader.{Reader, new_reader}
use cliros.Step.{Step}
use cliros.Executor.{StepExecutor}
use cliros.Executor.Atomicity.{IsContained, IsDeduplicating}
use cliros.Executor.Handler.{IsContainedHandler}
use cliros.Demo.{Tables, DemoWorld, of_payload, of_meta, demo}
use cliros.Demo.Laws.{demo_postgres}

abbrev pub incoming : MessageType → String → Message ℕ
incoming type from = record {
  meta = record {
    message_type = type;
    from_step = from;
    saga_id = "saga-1";
    traceparent = "";
    tracestate = "";
  };
  payload = ("amount", 5) ∷ [];
}

-- The action counts one in the service's own table.
abbrev pub book : Action demo
book ctx tx m w = (
  (record m { payload = ("booked", 1) ∷ [] }, none),
  record w { work = record w.work { other = w.work.other + 1 } },
)

-- An action that refuses every message.
abbrev pub refuse : Action demo
refuse ctx tx m w = ((m, some (leaf "out of stock")), w)

-- An error handler that counts one in the service's own table.
abbrev pub salvage : ErrorHandler demo
salvage ctx tx m x w = book ctx tx m w

-- An action that takes a unit of time and always asks for another attempt.
abbrev pub busy : Action demo
busy ctx tx m w = ((m, some (retryable (leaf "busy"))), record w { clock = w.clock + 1 })

abbrev pub retrier : ℕ → Retrier demo
retrier n = record {
  backoff_policy = λ retries lo hi w. (lo, w);
  min_backoff = pos 1;
  max_backoff = pos 8;
  max_retries = n;
}

abbrev pub step_of : Action demo → Option (ErrorHandler demo) → Step demo
step_of action handler = record {
  name = "booking";
  execute = action;
  compensate = action;
  routing = record { next_step_topics = "paid" ∷ "audit" ∷ []; error_topics = "undo" ∷ [] };
  retry_policy = some (retrier 2);
  on_error = handler;
  on_compensate_error = none;
}

abbrev pub executor : StepExecutor demo
executor = record {
  writer = postgres;
  inbox = some postgres;
  infra_retrier = some (retrier 3);
  metrics = true;
  tracing_enabled = true;
  tracer_name = "saga";
  tracer = none;
}

abbrev pub empty_tables : Tables
empty_tables = record { inbox = []; outbox = []; other = 0 }

-- The next `n` commits take place and report an error.
abbrev pub doubting : ℕ → DemoWorld
doubting n = record { main = empty_tables; work = empty_tables; clock = 0; doubts = n; sent = [] }

pub book-IsContained : IsContained demo_postgres book
book-IsContained = record {
  commits_nothing = λ ctx tx m w. refl;
  keeps_inbox = λ ctx tx m w. refl;
  keeps_outbox = λ ctx tx m w. refl;
}

pub refuse-IsContained : IsContained demo_postgres refuse
refuse-IsContained = record {
  commits_nothing = λ ctx tx m w. refl;
  keeps_inbox = λ ctx tx m w. refl;
  keeps_outbox = λ ctx tx m w. refl;
}

pub salvage-IsContained : IsContainedHandler demo_postgres salvage
salvage-IsContained x = book-IsContained

pub only_salvage :
    (h : ErrorHandler demo) → some salvage ≡ some h → IsContainedHandler demo_postgres h
only_salvage h is =
    subst
      (λ (o : Option (ErrorHandler demo)). elim o as (λ _. Type 0) [
        | none ↦ Unit
        | some k ↦ IsContainedHandler demo_postgres k
      ])
      is salvage-IsContained

pub executor-IsDeduplicating :
    (type : MessageType) → IsDeduplicating demo_postgres executor (incoming type "order")
executor-IsDeduplicating type = record {
  writes_postgres = refl;
  claims_postgres = refl;
  from_a_step = λ e. ground (arith, str_eq_iff "order" "");
}

abbrev pub booked_row : Row demo
booked_row = record {
  saga_id = "saga-1";
  step_name = "booking";
  topic = "paid";
  saga_type = execute;
  created_at = 0;
  scheduled_at = 0;
  metadata = of_meta (incoming complete "order").meta;
  payload = of_payload (("amount", 5) ∷ []);
  attempt_counter = 0;
  last_attempt = none;
  processed_at = none;
}

abbrev pub reader : Reader demo
reader =
    new_reader demo postgres record { interval = pos 5; batch_size = pos 1; max_attempts = pos 5 }
      record {
        backoff_policy = (retrier 3).backoff_policy;
        backoff_min = pos 1;
        backoff_max = pos 8;
      }
      booked_row
