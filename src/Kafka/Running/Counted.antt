-- ===== src/Kafka/Running/Counted.antt =====
-- examples/kafka-pubsub/kafka.go: the wait group and the goroutines that it counts.
use cliros.Prelude.{ℕ, ◌+◌, ◌≡◌, refl, sym, ◌∙◌, Option, List, [], ◌∷◌, ◌++◌, arith, Run, Run-keeps}
use cliros.Errors.{Error}
use cliros.Env.{Env}
use cliros.Kafka.{Sarama, Kafka}
use cliros.Kafka.Running.{
  Worker, selecting, consuming, returned, RunCall, collecting, adding, run_done, CloseCall, Shared,
  System, Step, subscribes, run_called, run_runs, worker_runs, worker_expires, close_called,
  close_runs, run_step, worker_step, close_step, started, expire, unused,
}

-- The goroutines that have not returned.
abbrev pub one_live : Worker → ℕ
one_live (selecting ctx topics) = 1
one_live (consuming ctx topics) = 1
one_live returned = 0

abbrev pub live : List Worker → ℕ
live [] = 0
live (w ∷ ws) = one_live w + live ws

live-append :
    (front : List Worker) (w : Worker) (back : List Worker)
    → live (front ++ (w ∷ back)) ≡ one_live w + (live front + live back)
live-append [] w back = omega arith
live-append (v ∷ front) w back = omega (arith, live-append front w back)

module _ {env : Env} (sarama : Sarama env) where
  -- The count is that of the goroutines that have not returned.
  abbrev pub IsCounted : System sarama → Type 0
  IsCounted s = s.shared.pending ≡ live s.workers

  run_step-live :
      (at : RunCall) (l : Shared sarama) (ws : List Worker)
      → l.pending ≡ live ws
      → (run_step sarama at l).2.pending ≡ live (started sarama (run_step sarama at l).1 ws)
  unfolding run_step
  run_step-live (collecting ctx) l ws h = ground (arith, h)
  run_step-live (adding ctx topics) l ws h = omega (arith, h)
  run_step-live run_done l ws h = h

  worker_step-live :
      (reply : Option Error) (at : Worker) (l : Shared sarama) (rest : ℕ)
      → l.pending ≡ one_live at + rest
      → (worker_step sarama reply at l).1.pending
        ≡ one_live (worker_step sarama reply at l).0 + rest
  unfolding worker_step
  worker_step-live reply (selecting ctx topics) l rest h = ground (arith, h)
  worker_step-live reply (consuming ctx topics) l rest h = ground (arith, h)
  worker_step-live reply returned l rest h = h

  expire-live : (at : Worker) → one_live (expire sarama at) ≡ one_live at
  expire-live (selecting ctx topics) = refl
  expire-live (consuming ctx topics) = refl
  expire-live returned = refl

  close_step-pending :
      (at : CloseCall) (l : Shared sarama) → (close_step sarama at l).1.pending ≡ l.pending
  unfolding close_step
  close_step-pending at l = ground arith

  pub Step-IsCounted : (s t : System sarama) → Step sarama s t → IsCounted s → IsCounted t
  Step-IsCounted s t (subscribes _ ctx topic handler) h = h
  Step-IsCounted s t (run_called _ ctx) h = h
  Step-IsCounted s t (run_runs l front back at ws closes) h = run_step-live at l ws h
  Step-IsCounted s t (worker_runs l runs front back at reply closes) h =
      worker_step-live reply at l (live front + live back) (h ∙ live-append front at back)
      ∙ sym (live-append front (worker_step sarama reply at l).0 back)
  Step-IsCounted s t (worker_expires l runs front back at closes) h = omega (
    arith,
    h,
    live-append front at back,
    live-append front (expire sarama at) back,
    expire-live at,
  )
  Step-IsCounted s t (close_called _) h = h
  Step-IsCounted s t (close_runs l runs ws front back at) h = close_step-pending at l ∙ h

  -- The wait group counts the goroutines of `Run` that have not returned.
  pub Run-IsCounted :
      {k : Kafka sarama} {s : System sarama} → Run (Step sarama) (unused sarama k) s → IsCounted s
  Run-IsCounted reached = Run-keeps IsCounted Step-IsCounted reached refl
