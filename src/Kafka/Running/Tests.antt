-- ===== src/Kafka/Running/Tests.antt =====
-- A client with one handler: `Run`, a `Close` while its goroutine is inside `Consume`, and another
-- `Run` after the group has been closed.
use cliros.Prelude.{ℕ, String, ◌≡◌, refl, true, false, inl, none, List, [], ◌∷◌, Run, stays, moves}
use cliros.Kafka.{Kafka}
use cliros.Kafka.Tests.{demo_sarama, accepts}
use cliros.Kafka.Running.{
  RunCtx, selecting, consuming, returned, collecting, run_done, waiting, closing_producer,
  close_done, Shared, System, Step, run_called, run_runs, worker_runs, close_called, close_runs,
  run_step, worker_step, close_step, unused,
}
use cliros.Kafka.Running.Closing.{AreIdle}
use cliros.Kafka.Running.Stopped.{closed_alone}
use cliros.Kafka.Running.Returns.{with_call, close_ends}

abbrev client : Kafka demo_sarama
client = record {
  producer = tt;
  consumer_group = tt;
  handlers = ("orders", accepts) ∷ [];
  closed = false;
}

-- A context of the caller, which is not done.
abbrev ctx : RunCtx
ctx = record { given = true; expired = false }

abbrev topics : List String
topics = "orders" ∷ []

-- The flags after `Close` has cancelled, with the count of the wait group.
abbrev cancelled : ℕ → Shared demo_sarama
cancelled n = record {
  kafka = record client { closed = true };
  cancelled = true;
  pending = n;
  consumes = 1;
  group_closed = false;
  producer_closed = false;
}

abbrev inside : System demo_sarama
inside =
    with_call demo_sarama (run_done ∷ []) [] [] (cancelled 1) (consuming ctx topics ∷ []) waiting

to_inside : Run (Step demo_sarama) (unused demo_sarama client) inside
unfolding run_step worker_step close_step
to_inside =
    moves
      (moves
        (moves
          (moves (moves (moves stays (run_called _ ctx)) (run_runs _ [] [] (collecting ctx) [] []))
            (run_runs _ [] [] _ [] []))
          (worker_runs _ _ [] [] (selecting ctx topics) none []))
        (close_called _))
      (close_runs _ _ _ [] [] _)

close_ends_example :
    (l' : Shared demo_sarama) × (l'.kafka ≡ record client { closed = true })
    × (l'.consumes ≡ 1)
    × (l'.group_closed ≡ true)
    × (l'.producer_closed ≡ true)
    × Run
        (Step demo_sarama)
        inside
        (with_call demo_sarama (run_done ∷ []) [] [] l' (returned ∷ []) close_done)
close_ends_example =
    close_ends demo_sarama (run_done ∷ []) [] [] (cancelled 1) (consuming ctx topics ∷ []) refl
      to_inside

-- The group is closed.
abbrev after_group : System demo_sarama
after_group =
    with_call demo_sarama (run_done ∷ []) [] [] (record (cancelled 0) { group_closed = true })
      (returned ∷ []) closing_producer

to_after_group : Run (Step demo_sarama) (unused demo_sarama client) after_group
unfolding worker_step close_step
to_after_group =
    moves
      (moves
        (moves (moves to_inside (worker_runs _ _ [] [] (consuming ctx topics) none _))
          (worker_runs _ _ [] [] (selecting ctx topics) none _))
        (close_runs _ _ _ [] [] waiting))
      (close_runs _ _ _ [] [] _)

-- Another call of `Run`, whose goroutine returns at once.
abbrev run_again : System demo_sarama
run_again = record after_group {
  runs = run_done ∷ run_done ∷ [];
  workers = returned ∷ returned ∷ [];
}

to_run_again : Run (Step demo_sarama) after_group run_again
unfolding run_step worker_step
to_run_again =
    moves
      (moves
        (moves (moves stays (run_called _ ctx))
          (run_runs _ [] (run_done ∷ []) (collecting ctx) (returned ∷ []) _))
        (run_runs _ [] (run_done ∷ []) _ (returned ∷ []) _))
      (worker_runs _ _ [] (returned ∷ []) (selecting ctx topics) none _)

closed_alone_example :
    AreIdle run_again.workers × (run_again.shared.consumes ≡ after_group.shared.consumes)
closed_alone_example = closed_alone demo_sarama refl to_after_group (inl refl) to_run_again
