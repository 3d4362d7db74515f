-- ===== src/Kafka/Running.antt =====
-- examples/kafka-pubsub/kafka.go: the calls of `Run` and `Close` and the goroutines of `Run`, atomic
-- operation by atomic operation.
pub mod Counted
mod Tests
pub mod Returns
pub mod Stopped
pub mod Closing
use cliros.Prelude.{
  ℕ, suc, ◌+◌, ◌-◌, ◌==◌, String, Bool, true, false, Option, none, some, List, [], ◌∷◌, ◌++◌, map,
  if◌then◌else◌,
}
use cliros.Errors.{Error}
use cliros.Env.{Env}
use cliros.Nats.{Handler}
use cliros.Kafka.{Sarama, Kafka, subscribe}

-- The context of a call of `Run`: `ctx`, which may be done, or `consumerCtx` where it is nil.
pub record RunCtx : Type 0 where
  pub given : Bool
  pub expired : Bool

-- The goroutine of `Run`: before its `select`, inside `Consume`, or returned.
pub data Worker : Type 0 where
  selecting consuming : RunCtx → List String → Worker
  returned : Worker

-- The next operation of a call of `Run`: the topics under the lock, `consumerWg.Add` with `go`.
pub data RunCall : Type 0 where
  collecting : RunCtx → RunCall
  adding : RunCtx → List String → RunCall
  run_done : RunCall

-- The next operation of a call of `Close`: the flag and `consumerCancel` under the lock, the wait,
-- and the two that close the group and the producer. A call that finds the flag set is skipped.
pub data CloseCall : Type 0 where
  locking waiting closing_group closing_producer close_done close_skipped : CloseCall

module _ {env : Env} (sarama : Sarama env) where
  -- What the calls share: the client, whether `consumerCtx` is done, the count of the wait group,
  -- how many calls of `Consume` have begun, and whether the group and the producer are closed.
  pub record Shared : Type 0 where
    pub kafka : Kafka sarama
    pub cancelled : Bool
    pub pending : ℕ
    pub consumes : ℕ
    pub group_closed : Bool
    pub producer_closed : Bool

  -- `runCtx.Done()`
  abbrev pub run_ctx_done : RunCtx → Shared → Bool
  run_ctx_done ctx l = if ctx.given then ctx.expired else l.cancelled

  -- The keys of `handlers`, in the order of `range`.
  abbrev pub topics_of : Kafka sarama → List String
  topics_of k = map (λ entry. entry.0) k.handlers

  -- An operation of `Run`, with the goroutine that it starts.
  unfoldable pub run_step : RunCall → Shared → RunCall × Option Worker × Shared
  run_step (collecting ctx) l = elim (topics_of l.kafka) [
    | [] ↦ (run_done, none, l)
    | topic ∷ topics ↦ (adding ctx (topic ∷ topics), none, l)
  ]
  run_step (adding ctx topics) l =
      (run_done, some (selecting ctx topics), record l { pending = suc l.pending })
  run_step run_done l = (run_done, none, l)

  -- `consumerWg.Done()`
  abbrev pub leave : Shared → Worker × Shared
  leave l = (returned, record l { pending = l.pending - 1 })

  -- An operation of the goroutine; `reply` is what `Consume` returns.
  unfoldable pub worker_step : Option Error → Worker → Shared → Worker × Shared
  worker_step reply (selecting ctx topics) l =
      if l.cancelled
      then leave l
      else if run_ctx_done ctx l
      then leave l
      else (consuming ctx topics, record l { consumes = suc l.consumes })
  worker_step reply (consuming ctx topics) l = elim reply [
    | none ↦ (selecting ctx topics, l)
    | some x ↦ leave l
  ]
  worker_step reply returned l = (returned, l)

  -- An operation of `Close`.
  unfoldable pub close_step : CloseCall → Shared → CloseCall × Shared
  close_step locking l =
      if l.kafka.closed
      then (close_skipped, l)
      else (waiting, record l { kafka = record l.kafka { closed = true }; cancelled = true })
  close_step waiting l = if l.pending == 0 then (closing_group, l) else (waiting, l)
  close_step closing_group l = (closing_producer, record l { group_closed = true })
  close_step closing_producer l = (close_done, record l { producer_closed = true })
  close_step close_done l = (close_done, l)
  close_step close_skipped l = (close_skipped, l)

  -- A client with the calls that have been made, in any number of goroutines, and the goroutines
  -- that `Run` has started.
  pub record System : Type 0 where
    pub shared : Shared
    pub runs : List RunCall
    pub workers : List Worker
    pub closes : List CloseCall

  abbrev pub started : Option Worker → List Worker → List Worker
  started none ws = ws
  started (some w) ws = w ∷ ws

  -- The context of a goroutine is done.
  abbrev pub expire : Worker → Worker
  expire (selecting ctx topics) = selecting (record ctx { expired = true }) topics
  expire (consuming ctx topics) = consuming (record ctx { expired = true }) topics
  expire returned = returned

  -- One atomic operation, of any call or goroutine.
  pub data Step : System → System → Type 0 where
    subscribes :
        (s : System) (ctx : env.Ctx) (topic : String) (handler : Handler env)
        → Step s (record s {
          shared = record s.shared {
            kafka = (subscribe sarama s.shared.kafka ctx topic handler).1;
          };
        })
    run_called : (s : System) (ctx : RunCtx) → Step s (record s { runs = collecting ctx ∷ s.runs })
    run_runs :
        (l : Shared) (front back : List RunCall) (at : RunCall) (ws : List Worker)
        (closes : List CloseCall)
        → Step
            (record { shared = l; runs = front ++ (at ∷ back); workers = ws; closes = closes })
            (record {
              shared = (run_step at l).2;
              runs = front ++ ((run_step at l).0 ∷ back);
              workers = started (run_step at l).1 ws;
              closes = closes;
            })
    worker_runs :
        (l : Shared) (runs : List RunCall) (front back : List Worker) (at : Worker)
        (reply : Option Error) (closes : List CloseCall)
        → Step
            (record { shared = l; runs = runs; workers = front ++ (at ∷ back); closes = closes })
            (record {
              shared = (worker_step reply at l).1;
              runs = runs;
              workers = front ++ ((worker_step reply at l).0 ∷ back);
              closes = closes;
            })
    worker_expires :
        (l : Shared) (runs : List RunCall) (front back : List Worker) (at : Worker)
        (closes : List CloseCall)
        → Step
            (record { shared = l; runs = runs; workers = front ++ (at ∷ back); closes = closes })
            (record {
              shared = l;
              runs = runs;
              workers = front ++ (expire at ∷ back);
              closes = closes;
            })
    close_called : (s : System) → Step s (record s { closes = locking ∷ s.closes })
    close_runs :
        (l : Shared) (runs : List RunCall) (ws : List Worker) (front back : List CloseCall)
        (at : CloseCall)
        → Step
            (record { shared = l; runs = runs; workers = ws; closes = front ++ (at ∷ back) })
            (record {
              shared = (close_step at l).1;
              runs = runs;
              workers = ws;
              closes = front ++ ((close_step at l).0 ∷ back);
            })

  -- A client that `NewKafka` has made.
  abbrev pub unused : Kafka sarama → System
  unused k = record {
    shared = record {
      kafka = k;
      cancelled = false;
      pending = 0;
      consumes = 0;
      group_closed = false;
      producer_closed = false;
    };
    runs = [];
    workers = [];
    closes = [];
  }
