-- ===== src/Kafka/Running/Stopped.antt =====
-- examples/kafka-pubsub/kafka.go: any sequence of steps of a client's calls and goroutines.
use cliros.Prelude.{
  ◌≡◌, refl, ap, ◌∙◌, true, false, List, ◌∷◌, ◌++◌, arith, Run, stays, moves, Each-at, Each-put,
  Each-map,
}
use cliros.Env.{Env}
use cliros.Kafka.{Sarama, Kafka}
use cliros.Kafka.Running.Counted.{live, Run-IsCounted}
use cliros.Kafka.Running.{
  Worker, Shared, System, Step, subscribes, run_called, run_runs, worker_runs, worker_expires,
  close_called, close_runs, close_step, expire, unused,
}
use cliros.Kafka.Running.Closing.{
  IsIdle, AreIdle, HasDone, HasClosed, Stops, HasDone-Stops, run_step-Keeps, worker_step-Keeps,
  expire-IsIdle, IsSafe, IsSafe-Keeps, close_step-Keeps, close_step-HasDone, close_step-quiet,
}

module _ {env : Env} (sarama : Sarama env) where
  Stops-same : {l l' : Shared sarama} {ws : List Worker} → l' ≡ l → Stops sarama l l' ws ws
  Stops-same same = record {
    cancel = λ h. ap (λ (k : Shared sarama). k.cancelled) same ∙ h;
    idle = λ h i. i;
    begun = λ h. ap (λ (k : Shared sarama). k.consumes) same;
  }

  expire-Stops :
      (l : Shared sarama) (front back : List Worker) (at : Worker)
      → Stops sarama l l (front ++ (at ∷ back)) (front ++ (expire sarama at ∷ back))
  expire-Stops l front back at = record {
    cancel = λ h. h;
    idle = λ h i.
        Each-put IsIdle front at (expire sarama at) back
          (expire-IsIdle sarama at (Each-at IsIdle front at back i)) i;
    begun = λ h. refl;
  }

  -- Every step is such a change.
  pub Step-Stops :
      (s t : System sarama) → Step sarama s t → Stops sarama s.shared t.shared s.workers t.workers
  Step-Stops s t (subscribes _ ctx topic handler) = record {
    cancel = λ h. h;
    idle = λ h i. i;
    begun = λ h. refl;
  }
  Step-Stops s t (run_called _ ctx) = Stops-same refl
  Step-Stops s t (run_runs l front back at ws closes) = (run_step-Keeps sarama at l ws).stops
  Step-Stops s t (worker_runs l runs front back at reply closes) =
      (worker_step-Keeps sarama reply l front back at).stops
  Step-Stops s t (worker_expires l runs front back at closes) = expire-Stops l front back at
  Step-Stops s t (close_called _) = Stops-same refl
  Step-Stops s t (close_runs l runs ws front back at) =
      let (cancel, begun) = close_step-Keeps sarama at l ws in
      record { cancel = cancel; idle = λ h i. i; begun = λ h. begun }

  Step-IsSafe :
      (s t : System sarama)
      → Step sarama s t
      → s.shared.pending ≡ live s.workers
      → IsSafe sarama s
      → IsSafe sarama t
  Step-IsSafe s t (subscribes _ ctx topic handler) counted h =
      IsSafe-Keeps sarama
        record {
          stops = Step-Stops _ _ (subscribes s ctx topic handler);
          same_group = refl;
          same_producer = refl;
        }
        refl h
  Step-IsSafe s t (run_called _ ctx) counted h = record { done = h.done; quiet = h.quiet }
  Step-IsSafe s t (run_runs l front back at ws closes) counted h =
      IsSafe-Keeps sarama (run_step-Keeps sarama at l ws) refl h
  Step-IsSafe s t (worker_runs l runs front back at reply closes) counted h =
      IsSafe-Keeps sarama (worker_step-Keeps sarama reply l front back at) refl h
  Step-IsSafe s t (worker_expires l runs front back at closes) counted h =
      IsSafe-Keeps sarama
        record { stops = expire-Stops l front back at; same_group = refl; same_producer = refl }
        refl h
  Step-IsSafe s t (close_called _) counted h = record { done = (tt, h.done); quiet = h.quiet }
  Step-IsSafe s t (close_runs l runs ws front back at) counted h = record {
    done =
        Each-put (HasDone sarama (close_step sarama at l).1 ws) front at (close_step sarama at l).0
          back
          (close_step-HasDone sarama at l ws counted
            (Each-at (HasDone sarama l ws) front at back h.done))
          (Each-map (HasDone sarama l ws)
            (HasDone-Stops sarama (Step-Stops _ _ (close_runs l runs ws front back at)))
            (front ++ (at ∷ back)) h.done);
    quiet =
        close_step-quiet sarama at l ws (Each-at (HasDone sarama l ws) front at back h.done)
          h.quiet;
  }

  pub Run-IsSafe :
      {k : Kafka sarama} {s : System sarama}
      → k.closed ≡ false
      → Run (Step sarama) (unused sarama k) s
      → IsSafe sarama s
  Run-IsSafe fresh stays = record { done = tt; quiet = λ closed. ground (arith, closed) }
  Run-IsSafe fresh (moves before step) =
      Step-IsSafe _ _ step (Run-IsCounted sarama before) (Run-IsSafe fresh before)

  -- Once `consumerCtx` is done, no step begins a `Consume`.
  pub cancelled_stops :
      {s t : System sarama}
      → s.shared.cancelled ≡ true
      → AreIdle s.workers
      → Run (Step sarama) s t
      → (t.shared.cancelled ≡ true) × AreIdle t.workers × (t.shared.consumes ≡ s.shared.consumes)
  cancelled_stops shut idle stays = (shut, idle, refl)
  cancelled_stops shut idle (moves before step) =
      let (still, quiet, same) = cancelled_stops shut idle before in
      let k = Step-Stops _ _ step in (k.cancel still, k.idle still quiet, k.begun still ∙ same)

  -- Once a call of `Close` has closed the consumer group or the producer of a client that
  -- `NewKafka` has made, no goroutine of `Run` is inside `Consume`, and none ever begins one
  -- again, whatever calls of `Subscribe`, `Run` and `Close` come before, between and after.
  pub closed_alone :
      {k : Kafka sarama} {s t : System sarama}
      → k.closed ≡ false
      → Run (Step sarama) (unused sarama k) s
      → HasClosed sarama s.shared
      → Run (Step sarama) s t
      → AreIdle t.workers × (t.shared.consumes ≡ s.shared.consumes)
  closed_alone fresh reached closed later =
      let (shut, idle) = (Run-IsSafe fresh reached).quiet closed in
      let (still, quiet, same) = cancelled_stops shut idle later in (quiet, same)
