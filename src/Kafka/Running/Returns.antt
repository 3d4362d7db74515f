-- ===== src/Kafka/Running/Returns.antt =====
-- examples/kafka-pubsub/kafka.go: a call of `Close` that waits for the goroutines of `Run`.
use cliros.Prelude.{
  ◌-◌, String, ◌≡◌, refl, ◌∙◌, subst, true, false, none, List, [], ◌∷◌, ◌++◌, arith, Run, stays,
  moves, Run-trans, Each-at,
}
use mathlib.Core.List.{append_assoc}
use cliros.Env.{Env}
use cliros.Kafka.{Sarama, Kafka}
use cliros.Kafka.Running.Counted.{live, Run-IsCounted}
use cliros.Kafka.Running.Closing.{HasDone}
use cliros.Kafka.Running.Stopped.{Run-IsSafe}
use cliros.Kafka.Running.{
  RunCtx, Worker, selecting, consuming, returned, RunCall, CloseCall, waiting, closing_group,
  closing_producer, close_done, Shared, System, Step, worker_runs, close_runs, worker_step,
  close_step, unused,
}

-- The goroutines once all have returned.
abbrev pub all_returned : List Worker → List Worker
all_returned [] = []
all_returned (w ∷ ws) = returned ∷ all_returned ws

live-all_returned : (ws : List Worker) → live (all_returned ws) ≡ 0
live-all_returned [] = refl
live-all_returned (w ∷ ws) = omega (arith, live-all_returned ws)

module _ {env : Env} (sarama : Sarama env) (runs : List RunCall) (closes : List CloseCall) where
  abbrev at_workers : Shared sarama → List Worker → System sarama
  at_workers l ws = record { shared = l; runs = runs; workers = ws; closes = closes }

  -- What a goroutine's return leaves of the shared state.
  abbrev Returned : Shared sarama → Shared sarama → Type 0
  Returned l l' = (l'.cancelled ≡ true) × (l'.kafka ≡ l.kafka) × (l'.consumes ≡ l.consumes)

  selecting_returns :
      (l : Shared sarama) (front back : List Worker) (ctx : RunCtx) (topics : List String)
      → l.cancelled ≡ true
      → Step sarama
          (at_workers l (front ++ (selecting ctx topics ∷ back)))
          (at_workers (record l { pending = l.pending - 1 }) (front ++ (returned ∷ back)))
  unfolding worker_step
  selecting_returns l front back ctx topics shut =
      let left : worker_step sarama none (selecting ctx topics) l
          ≡ (returned, record l { pending = l.pending - 1 }) =
        simp shut refl in
      subst
        (λ (after : Worker × Shared sarama).
          Step sarama (at_workers l (front ++ (selecting ctx topics ∷ back)))
            (at_workers after.1 (front ++ (after.0 ∷ back))))
        left (worker_runs l runs front back (selecting ctx topics) none closes)

  -- A goroutine of a cancelled client returns, where the `Consume` that it is inside returns.
  one_returns :
      (l : Shared sarama) (front back : List Worker) (w : Worker)
      → l.cancelled ≡ true
      → (l' : Shared sarama) × Returned l l'
        × Run
            (Step sarama)
            (at_workers l (front ++ (w ∷ back)))
            (at_workers l' (front ++ (returned ∷ back)))
  unfolding worker_step
  one_returns l front back (selecting ctx topics) shut = (
    record l { pending = l.pending - 1 },
    (shut, refl, refl),
    moves stays (selecting_returns l front back ctx topics shut),
  )
  one_returns l front back (consuming ctx topics) shut = (
    record l { pending = l.pending - 1 },
    (shut, refl, refl),
    moves (moves stays (worker_runs l runs front back (consuming ctx topics) none closes))
        (selecting_returns l front back ctx topics shut),
  )
  one_returns l front back returned shut = (l, (shut, refl, refl), stays)

  -- All of them do, one after the other.
  pub all_return :
      (l : Shared sarama) (front ws : List Worker)
      → l.cancelled ≡ true
      → (l' : Shared sarama) × Returned l l'
        × Run (Step sarama) (at_workers l (front ++ ws)) (at_workers l' (front ++ all_returned ws))
  all_return l front [] shut = (l, (shut, refl, refl), stays)
  all_return l front (w ∷ ws) shut =
      let (l₁, (shut₁, same_kafka, same), first) = one_returns l front ws w shut in
      let (l₂, (shut₂, same_kafka₂, same₂), rest) =
        all_return l₁ (front ++ (returned ∷ [])) ws shut₁ in
      let moved : Run (Step sarama) (at_workers l₁ (front ++ (returned ∷ ws)))
          (at_workers l₂ (front ++ (returned ∷ all_returned ws))) =
        subst
          (λ (p : List Worker × List Worker).
            Run (Step sarama) (at_workers l₁ p.0) (at_workers l₂ p.1))
          (λ i. (
            append_assoc front (returned ∷ []) ws i,
            append_assoc front (returned ∷ []) (all_returned ws) i,
          ))
          rest in
      (l₂, (shut₂, same_kafka₂ ∙ same_kafka, same₂ ∙ same), Run-trans first moved)

module _ {env : Env} (sarama : Sarama env) (runs : List RunCall) (front back : List CloseCall) where
  -- One of the calls of `Close` waits, or has returned.
  abbrev pub with_call : Shared sarama → List Worker → CloseCall → System sarama
  with_call l ws at = record {
    shared = l;
    runs = runs;
    workers = ws;
    closes = front ++ (at ∷ back);
  }

  closed_both : Shared sarama → Shared sarama
  closed_both l = record l { group_closed = true; producer_closed = true }

  wait_ends :
      (l : Shared sarama) (ws : List Worker)
      → l.pending ≡ 0
      → Run (Step sarama) (with_call l ws waiting) (with_call (closed_both l) ws close_done)
  unfolding close_step closed_both
  wait_ends l ws none_left =
      let passes : close_step sarama waiting l ≡ (closing_group, l) = simp none_left refl in
      let first =
        subst
          (λ (after : CloseCall × Shared sarama).
            Step sarama (with_call l ws waiting) (with_call after.1 ws after.0))
          passes (close_runs l runs ws front back waiting) in
      moves (moves (moves stays first) (close_runs l runs ws front back closing_group))
        (close_runs (record l { group_closed = true }) runs ws front back closing_producer)

  -- A call of `Close` that waits for the goroutines of `Run` can always return, where each
  -- `Consume` that they are inside returns: from each state with such a call that is reached from
  -- a client that `NewKafka` has made, a state is reached in which all goroutines have returned,
  -- no other `Consume` has begun, the group and the producer are closed, that call has returned,
  -- and the client's handlers and the other calls are as before.
  pub close_ends :
      {k : Kafka sarama} (l : Shared sarama) (ws : List Worker)
      → k.closed ≡ false
      → Run (Step sarama) (unused sarama k) (with_call l ws waiting)
      → (l' : Shared sarama) × (l'.kafka ≡ l.kafka)
        × (l'.consumes ≡ l.consumes)
        × (l'.group_closed ≡ true)
        × (l'.producer_closed ≡ true)
        × Run (Step sarama) (with_call l ws waiting) (with_call l' (all_returned ws) close_done)
  unfolding closed_both
  close_ends l ws fresh reached =
      let shut =
        Each-at (HasDone sarama l ws) front waiting back (Run-IsSafe sarama fresh reached).done in
      let (l₁, (shut₁, same_kafka, same), left) =
        all_return sarama runs (front ++ (waiting ∷ back)) l [] ws shut in
      let none_left = Run-IsCounted sarama (Run-trans reached left) ∙ live-all_returned ws in
      (
        closed_both l₁,
        same_kafka,
        same,
        refl,
        refl,
        Run-trans left (wait_ends l₁ (all_returned ws) none_left),
      )
