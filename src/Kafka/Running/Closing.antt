-- ===== src/Kafka/Running/Closing.antt =====
-- examples/kafka-pubsub/kafka.go: what `Close` leaves of the goroutines of `Run`.
use cliros.Prelude.{
  ◌==◌, ◌≡◌, refl, ◌∙◌, sym, true, ◌⊎◌, Bool-cases, inl, inr, Option, List, [], ◌∷◌, ◌++◌, arith,
  Each, Each-at, Each-put, Each-map,
}
use cliros.Errors.{Error}
use cliros.Env.{Env}
use cliros.Kafka.{Sarama}
use cliros.Kafka.Running.Counted.{live}
use cliros.Kafka.Running.{
  Worker, selecting, consuming, returned, RunCall, collecting, adding, run_done, CloseCall, locking,
  waiting, closing_group, closing_producer, close_done, close_skipped, Shared, System, run_step,
  worker_step, close_step, started, expire,
}

-- No goroutine is inside `Consume`.
abbrev pub IsIdle : Worker → Type 0
IsIdle (selecting ctx topics) = Unit
IsIdle (consuming ctx topics) = ⊥
IsIdle returned = Unit

abbrev pub AreIdle : List Worker → Type 0
AreIdle = Each IsIdle

none_live : (ws : List Worker) → live ws ≡ 0 → AreIdle ws
none_live [] h = tt
none_live (selecting ctx topics ∷ ws) h = (tt, none_live ws (omega (arith, h)))
none_live (consuming ctx topics ∷ ws) h = absurd (omega (arith, h))
none_live (returned ∷ ws) h = (tt, none_live ws (omega (arith, h)))

module _ {env : Env} (sarama : Sarama env) where
  open env use {Ctx}

  -- What a call of `Close` has done by itself.
  abbrev pub HasDone : Shared sarama → List Worker → CloseCall → Type 0
  HasDone l ws locking = Unit
  HasDone l ws waiting = l.cancelled ≡ true
  HasDone l ws closing_group = (l.cancelled ≡ true) × AreIdle ws
  HasDone l ws closing_producer = (l.cancelled ≡ true) × AreIdle ws
  HasDone l ws close_done = (l.cancelled ≡ true) × AreIdle ws
  HasDone l ws close_skipped = Unit

  -- The group or the producer is closed.
  abbrev pub HasClosed : Shared sarama → Type 0
  HasClosed l = (l.group_closed ≡ true) ⊎ (l.producer_closed ≡ true)

  -- A change after which a client that is cancelled and idle still is, with no `Consume` begun.
  pub record Stops (l l' : Shared sarama) (ws ws' : List Worker) : Type 0 where
    pub cancel : l.cancelled ≡ true → l'.cancelled ≡ true
    pub idle : l.cancelled ≡ true → AreIdle ws → AreIdle ws'
    pub begun : l.cancelled ≡ true → l'.consumes ≡ l.consumes

  -- Such a change that closes neither the group nor the producer.
  pub record Keeps (l l' : Shared sarama) (ws ws' : List Worker) : Type 0 where
    pub stops : Stops l l' ws ws'
    pub same_group : l'.group_closed ≡ l.group_closed
    pub same_producer : l'.producer_closed ≡ l.producer_closed

  pub HasDone-Stops :
      {l l' : Shared sarama} {ws ws' : List Worker} (k : Stops l l' ws ws') (at : CloseCall)
      → HasDone l ws at
      → HasDone l' ws' at
  HasDone-Stops k locking h = tt
  HasDone-Stops k waiting h = k.cancel h
  HasDone-Stops k closing_group h = (k.cancel h.0, k.idle h.0 h.1)
  HasDone-Stops k closing_producer h = (k.cancel h.0, k.idle h.0 h.1)
  HasDone-Stops k close_done h = (k.cancel h.0, k.idle h.0 h.1)
  HasDone-Stops k close_skipped h = tt

  pub run_step-Keeps :
      (at : RunCall) (l : Shared sarama) (ws : List Worker)
      → Keeps l (run_step sarama at l).2 ws (started sarama (run_step sarama at l).1 ws)
  unfolding run_step
  run_step-Keeps (collecting ctx) l ws = ground arith
  run_step-Keeps (adding ctx topics) l ws = record {
    stops = record { cancel = λ h. h; idle = λ h i. (tt, i); begun = λ h. refl };
    same_group = refl;
    same_producer = refl;
  }
  run_step-Keeps run_done l ws = record {
    stops = record { cancel = λ h. h; idle = λ h i. i; begun = λ h. refl };
    same_group = refl;
    same_producer = refl;
  }

  worker_step-shared :
      (reply : Option Error) (at : Worker) (l : Shared sarama)
      → let l' = (worker_step sarama reply at l).1 in
        (l'.cancelled ≡ l.cancelled)
        × (l'.group_closed ≡ l.group_closed)
        × (l'.producer_closed ≡ l.producer_closed)
  unfolding worker_step
  worker_step-shared reply at l = ground arith

  worker_step-stopped :
      (reply : Option Error) (at : Worker) (l : Shared sarama)
      → l.cancelled ≡ true
      → (worker_step sarama reply at l).1.consumes ≡ l.consumes
  unfolding worker_step
  worker_step-stopped reply at l h = ground (arith, h)

  worker_step-IsIdle :
      (reply : Option Error) (at : Worker) (l : Shared sarama)
      → l.cancelled ≡ true
      → IsIdle at
      → IsIdle (worker_step sarama reply at l).0
  unfolding worker_step
  worker_step-IsIdle reply (selecting ctx topics) l h i = simp h tt
  worker_step-IsIdle reply (consuming ctx topics) l h i = elim i [ ]
  worker_step-IsIdle reply returned l h i = tt

  pub worker_step-Keeps :
      (reply : Option Error) (l : Shared sarama) (front back : List Worker) (at : Worker)
      → Keeps l
          (worker_step sarama reply at l).1
          (front ++ (at ∷ back))
          (front ++ ((worker_step sarama reply at l).0 ∷ back))
  worker_step-Keeps reply l front back at =
      let (cancel, group, producer) = worker_step-shared reply at l in
      record {
        stops = record {
          cancel = λ h. cancel ∙ h;
          idle = λ h i.
              Each-put IsIdle front at (worker_step sarama reply at l).0 back
                (worker_step-IsIdle reply at l h (Each-at IsIdle front at back i)) i;
          begun = λ h. worker_step-stopped reply at l h;
        };
        same_group = group;
        same_producer = producer;
      }

  pub expire-IsIdle : (at : Worker) → IsIdle at → IsIdle (expire sarama at)
  expire-IsIdle (selecting ctx topics) i = tt
  expire-IsIdle (consuming ctx topics) i = i
  expire-IsIdle returned i = tt

  -- The calls of `Close` have done what they have passed, and a closed group or producer is that
  -- of a cancelled client with no goroutine inside `Consume`.
  pub record IsSafe (s : System sarama) : Type 0 where
    pub done : Each (HasDone s.shared s.workers) s.closes
    pub quiet : HasClosed s.shared → (s.shared.cancelled ≡ true) × AreIdle s.workers

  pub IsSafe-Keeps :
      {s t : System sarama}
      → Keeps s.shared t.shared s.workers t.workers
      → t.closes ≡ s.closes
      → IsSafe s
      → IsSafe t
  IsSafe-Keeps {s} {t} k same h = record {
    done = rw same (Each-map (HasDone s.shared s.workers) (HasDone-Stops k.stops) s.closes h.done);
    quiet = λ closed.
        let (stopped, idle) = h.quiet (elim closed [
          | inl e ↦ inl (sym k.same_group ∙ e)
          | inr e ↦ inr (sym k.same_producer ∙ e)
        ]) in
        (k.stops.cancel stopped, k.stops.idle stopped idle);
  }

  pub close_step-Keeps :
      (at : CloseCall) (l : Shared sarama) (ws : List Worker)
      → let l' = (close_step sarama at l).1 in
        (l.cancelled ≡ true → l'.cancelled ≡ true) × (l'.consumes ≡ l.consumes)
  unfolding close_step
  close_step-Keeps at l ws = ground arith

  pub close_step-HasDone :
      (at : CloseCall) (l : Shared sarama) (ws : List Worker)
      → l.pending ≡ live ws
      → HasDone l ws at
      → HasDone (close_step sarama at l).1 ws (close_step sarama at l).0
  unfolding close_step
  close_step-HasDone locking l ws counted h = elim (Bool-cases l.kafka.closed) [
    | inl e ↦ simp e tt
    | inr e ↦ simp e refl
  ]
  close_step-HasDone waiting l ws counted h = elim (Bool-cases (l.pending == 0)) [
    | inl e ↦ simp e ((h, none_live ws (ground (arith, e, counted))))
    | inr e ↦ simp e h
  ]
  close_step-HasDone closing_group l ws counted h = h
  close_step-HasDone closing_producer l ws counted h = h
  close_step-HasDone close_done l ws counted h = h
  close_step-HasDone close_skipped l ws counted h = h

  pub close_step-quiet :
      (at : CloseCall) (l : Shared sarama) (ws : List Worker)
      → HasDone l ws at
      → (HasClosed l → (l.cancelled ≡ true) × AreIdle ws)
      → HasClosed (close_step sarama at l).1
      → ((close_step sarama at l).1.cancelled ≡ true) × AreIdle ws
  unfolding close_step
  close_step-quiet locking l ws h quiet = elim (Bool-cases l.kafka.closed) [
    | inl e ↦ simp e quiet
    | inr e ↦ simp e (λ closed. (refl, (quiet closed).1))
  ]
  close_step-quiet waiting l ws h quiet = elim (Bool-cases (l.pending == 0)) [
    | inl e ↦ simp e quiet
    | inr e ↦ simp e quiet
  ]
  close_step-quiet closing_group l ws h quiet = λ closed. h
  close_step-quiet closing_producer l ws h quiet = λ closed. h
  close_step-quiet close_done l ws h quiet = quiet
  close_step-quiet close_skipped l ws h quiet = quiet
