-- ===== src/Outbox/Lifecycle/Shutdown.antt =====
-- internal/outbox/reader.go: what `Close` waits for.
use cliros.Prelude.{
  ℕ, zero, suc, ◌≤◌, ◌==◌, ◌≡◌, refl, subst, true, List, ◌∷◌, ◌++◌, arith, Bool-cases, inl, inr,
  Each, Each-at, Each-put, Each-map,
}
use cliros.Outbox.Lifecycle.{
  Lifecycle, StartCall, start_step, CloseCall, swap_closed, cancel_ctx, wait_group, close_done,
  close_skipped, close_step, System, Step, start_called, start_runs, close_called, close_runs,
  user_context_ends, polling_returns, Reaches, here, next, unused, is_started, is_closed,
}
use cliros.Outbox.Lifecycle.Launches.{launched_once}
use cliros.Outbox.Lifecycle.Quiet.{AreOutside, Reaches-IsQuiet}

-- What a call of `Close` has done by itself.
abbrev HasDone : Lifecycle → CloseCall → Type 0
HasDone l swap_closed = Unit
HasDone l cancel_ctx = l.closed ≡ true
HasDone l wait_group = (l.closed ≡ true) × (l.cancelled ≡ true)
HasDone l close_done = (l.closed ≡ true) × (l.cancelled ≡ true)
HasDone l close_skipped = l.closed ≡ true

-- No operation takes a flag back.
record Grows (l k : Lifecycle) : Type 0 where
  shut : l.closed ≡ true → k.closed ≡ true
  cancel : l.cancelled ≡ true → k.cancelled ≡ true

HasDone-Grows : {l k : Lifecycle} → Grows l k → (at : CloseCall) → HasDone l at → HasDone k at
HasDone-Grows g swap_closed h = tt
HasDone-Grows g cancel_ctx h = g.shut h
HasDone-Grows g wait_group h = (g.shut h.0, g.cancel h.1)
HasDone-Grows g close_done h = (g.shut h.0, g.cancel h.1)
HasDone-Grows g close_skipped h = g.shut h

start_step-Grows : (at : StartCall) (l : Lifecycle) → Grows l (start_step at l).1
unfolding start_step is_started is_closed
start_step-Grows at l = record { shut = λ h. ground (arith, h); cancel = λ h. ground (arith, h) }

close_step-Grows : (at : CloseCall) (l : Lifecycle) → Grows l (close_step at l).1
unfolding close_step is_closed
close_step-Grows at l = record { shut = λ h. ground (arith, h); cancel = λ h. ground (arith, h) }

close_step-HasDone :
    (at : CloseCall) (l : Lifecycle)
    → HasDone l at
    → HasDone (close_step at l).1 (close_step at l).0
unfolding close_step is_closed
close_step-HasDone swap_closed l h = elim (Bool-cases l.closed) [
  | inl e ↦ simp e refl
  | inr e ↦ simp e refl
]
close_step-HasDone cancel_ctx l h = (h, refl)
close_step-HasDone wait_group l h = elim (Bool-cases (l.running == 0)) [
  | inl e ↦ simp e h
  | inr e ↦ simp e h
]
close_step-HasDone close_done l h = h
close_step-HasDone close_skipped l h = h

AreDone : System → Type 0
AreDone s = Each (HasDone s.lifecycle) s.closes

Step-AreDone : {s t : System} → Step s t → AreDone s → AreDone t
unfolding AreDone
Step-AreDone (start_called s) h = h
Step-AreDone (start_runs l front back at closes) h =
    Each-map (HasDone l) (HasDone-Grows (start_step-Grows at l)) closes h
Step-AreDone (close_called s) h = (tt, h)
Step-AreDone (close_runs l front back at starts) h =
    Each-put (HasDone (close_step at l).1) front at (close_step at l).0 back
      (close_step-HasDone at l (Each-at (HasDone l) front at back h))
      (Each-map (HasDone l) (HasDone-Grows (close_step-Grows at l)) (front ++ (at ∷ back)) h)
Step-AreDone (user_context_ends l starts closes) h =
    Each-map (HasDone l)
      (HasDone-Grows {l = l} {k = record l { user_done = true }}
        record { shut = λ h. h; cancel = λ h. h })
      closes h
Step-AreDone (polling_returns l n starts closes e _) h =
    Each-map (HasDone l)
      (HasDone-Grows {l = l} {k = record l { running = n }}
        record { shut = λ h. h; cancel = λ h. h })
      closes h

Reaches-AreDone : {s : System} → Reaches unused s → AreDone s
unfolding AreDone
Reaches-AreDone here = tt
Reaches-AreDone (next before st) = Step-AreDone st (Reaches-AreDone before)

module _ (l : Lifecycle) (starts : List StartCall) (front back : List CloseCall) where
  -- One of the calls of `Close` is at `wg.Wait`, or has returned from it.
  abbrev pub with_waiting : System
  with_waiting = record { lifecycle = l; starts = starts; closes = front ++ (wait_group ∷ back) }

  abbrev pub with_returned : System
  with_returned = record { lifecycle = l; starts = starts; closes = front ++ (close_done ∷ back) }

  waiting-HasDone : Reaches unused with_waiting → HasDone l wait_group
  unfolding AreDone
  waiting-HasDone reached = Each-at (HasDone l) front wait_group back (Reaches-AreDone reached)

  -- After the wait of a call of `Close` has returned, no polling goroutine ever runs, whatever
  -- calls of `Start` and `Close` follow. The state is reached from an unused reader, and when the
  -- wait returns no call of `Start` is between its load of `closed` and its `wg.Go`.
  pub quiet_after_close :
      {t : System}
      → Reaches unused with_waiting
      → (close_step wait_group l).0 ≡ close_done
      → AreOutside starts
      → Reaches with_waiting t
      → t.lifecycle.running ≡ 0
  unfolding close_step
  quiet_after_close reached returned outside later =
      (Reaches-IsQuiet later record {
        shut = (waiting-HasDone reached).0;
        none_running = ground (arith, returned);
        outside = outside;
      }).none_running

  wait_returns : l.running ≡ 0 → Step with_waiting with_returned
  unfolding close_step
  wait_returns e =
      let stops : close_step wait_group l ≡ (close_done, l) = simp e refl in
      subst
        (λ (after : CloseCall × Lifecycle).
          Step with_waiting
            (record { lifecycle = after.1; starts = starts; closes = front ++ (after.0 ∷ back) }))
        stops (close_runs l front back wait_group starts)

module _ (starts : List StartCall) (front back : List CloseCall) where
  abbrev pub returned_without_poller : Lifecycle → System
  returned_without_poller l = with_returned (record l { running = 0 }) starts front back

  pub returns :
      (l : Lifecycle) (n : ℕ)
      → l.running ≡ n
      → n ≤ 1
      → l.cancelled ≡ true
      → Reaches (with_waiting l starts front back) (returned_without_poller l)
  returns l zero e le stopped = next here (
      subst
        (λ k.
          Step (with_waiting l starts front back)
            (with_returned (record l { running = k }) starts front back))
        e (wait_returns l starts front back e))
  returns l (suc n) e le stopped =
      let k = record l { running = 0 } in
      next
        (next here (
          polling_returns l 0 starts (front ++ (wait_group ∷ back)) (ground (arith, e, le))
            (inl stopped)))
        (wait_returns k starts front back refl)

  -- A call of `Close` that waits can always return: from each state with such a call that is
  -- reached from an unused reader, a state is reached in which that call has returned, no
  -- goroutine runs, and the flags and the other calls are as before. A polling goroutine returns
  -- only where the reader's context or the caller's is done.
  pub close_can_return :
      (l : Lifecycle)
      → Reaches unused (with_waiting l starts front back)
      → Reaches (with_waiting l starts front back) (returned_without_poller l)
  close_can_return l reached =
      let (counted, once) = launched_once reached in
      returns l l.running refl (ground (arith, counted, once))
        (waiting-HasDone l starts front back reached).1
