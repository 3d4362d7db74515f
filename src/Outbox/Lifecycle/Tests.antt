-- ===== src/Outbox/Lifecycle/Tests.antt =====
-- Two calls of `Start` and one of `Close`, in two orders.
use cliros.Prelude.{◌≡◌, refl, ◌≤◌, true, inl, [], ◌∷◌}
use cliros.Outbox.Lifecycle.{
  Lifecycle, fresh, load_closed, start_done, start_step, start, swap_closed, wait_group, close_done,
  close_step, System, start_called, start_runs, close_called, close_runs, polling_returns, Reaches,
  here, next, unused, is_started, is_closed, swap_started, launch, cancel_ctx,
}
use cliros.Outbox.Lifecycle.Launches.{launched_once}
use cliros.Outbox.Lifecycle.Shutdown.{
  with_waiting, quiet_after_close, close_can_return, returned_without_poller,
}

-- A reader that polls.
abbrev polls : Lifecycle
polls = record fresh { started = true; running = 1; launched = 1 }

start_runs_poller : start fresh ≡ polls
unfolding start start_step is_closed is_started
start_runs_poller = refl

-- `Close` has cancelled the context and waits.
abbrev closing : Lifecycle
closing = record polls { closed = true; cancelled = true }

abbrev waits : System
waits = record { lifecycle = closing; starts = start_done ∷ []; closes = wait_group ∷ [] }

waits-Reaches : Reaches unused waits
unfolding start_step close_step is_closed is_started
waits-Reaches =
    next
      (next
        (next
          (next
            (next (next (next here (start_called unused)) (start_runs fresh [] [] load_closed []))
              (start_runs fresh [] [] swap_started []))
            (start_runs (record fresh { started = true }) [] [] launch []))
          (close_called (record { lifecycle = polls; starts = start_done ∷ []; closes = [] })))
        (close_runs polls [] [] swap_closed (start_done ∷ [])))
      (close_runs (record polls { closed = true }) [] [] cancel_ctx (start_done ∷ []))

launched_once_example : (1 ≤ 1) × (1 ≤ 1)
launched_once_example = launched_once waits-Reaches

close_can_return_example :
    Reaches
      (with_waiting closing (start_done ∷ []) [] [])
      (returned_without_poller (start_done ∷ []) [] [] closing)
close_can_return_example = close_can_return (start_done ∷ []) [] [] closing waits-Reaches

-- The polling goroutine has returned, and another call of `Start` is made after `Close`.
abbrev ended : Lifecycle
ended = record closing { running = 0 }

abbrev late : System
late = record { lifecycle = ended; starts = start_done ∷ []; closes = close_done ∷ [] }

late-Reaches :
    Reaches
      (with_waiting ended (start_done ∷ []) [] [])
      (record late { starts = start_done ∷ start_done ∷ [] })
unfolding start_step close_step is_closed
late-Reaches =
    next
      (next (next here (close_runs ended [] [] wait_group (start_done ∷ []))) (start_called late))
      (start_runs ended [] (start_done ∷ []) load_closed (close_done ∷ []))

quiet_after_close_example : ended.running ≡ 0
unfolding close_step
quiet_after_close_example =
    quiet_after_close ended (start_done ∷ []) [] []
      (next waits-Reaches
        (polling_returns closing 0 (start_done ∷ []) (wait_group ∷ []) refl (inl refl)))
      refl (tt, tt) late-Reaches
