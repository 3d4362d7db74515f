-- ===== src/Outbox/Lifecycle.antt =====
-- internal/outbox/reader.go: the calls of `Start` and `Close`, atomic operation by atomic operation.
pub mod Launches
pub mod Quiet
pub mod Shutdown
pub mod Calls
mod Tests
use cliros.Prelude.{
  ℕ, suc, ◌+◌, ◌==◌, ◌≡◌, ◌⊎◌, Bool, true, false, List, [], ◌∷◌, ◌++◌, if◌then◌else◌,
}

-- The state that the calls share: the two flags, the reader's context, the context that `Start`
-- was given, the goroutines that the wait group counts, and how many it has ever been given.
pub record Lifecycle : Type 0 where
  pub started : Bool
  pub closed : Bool
  pub cancelled : Bool
  pub user_done : Bool
  pub running : ℕ
  pub launched : ℕ

abbrev pub fresh : Lifecycle
fresh = record {
  started = false;
  closed = false;
  cancelled = false;
  user_done = false;
  running = 0;
  launched = 0;
}

-- `IsStarted` and `IsClosed`
unfoldable pub is_started : Lifecycle → Bool
is_started l = l.started

unfoldable pub is_closed : Lifecycle → Bool
is_closed l = l.closed

-- The next operation of a call of `Start`: the load of `closed`, the swap of `started`, `wg.Go`.
pub data StartCall : Type 0 where
  load_closed swap_started launch start_done : StartCall

unfoldable pub start_step : StartCall → Lifecycle → StartCall × Lifecycle
unfolding is_closed is_started
start_step load_closed l = if is_closed l then (start_done, l) else (swap_started, l)
start_step swap_started l =
    if is_started l then (start_done, l) else (launch, record l { started = true })
start_step launch l = (start_done, record l { running = suc l.running; launched = suc l.launched })
start_step start_done l = (start_done, l)

-- The next operation of a call of `Close`: the swap of `closed`, `cancelCtx`, `wg.Wait`. A call
-- that finds the flag set is skipped.
pub data CloseCall : Type 0 where
  swap_closed cancel_ctx wait_group close_done close_skipped : CloseCall

unfoldable pub close_step : CloseCall → Lifecycle → CloseCall × Lifecycle
unfolding is_closed
close_step swap_closed l =
    if is_closed l then (close_skipped, l) else (cancel_ctx, record l { closed = true })
close_step cancel_ctx l = (wait_group, record l { cancelled = true })
close_step wait_group l = if l.running == 0 then (close_done, l) else (wait_group, l)
close_step close_done l = (close_done, l)
close_step close_skipped l = (close_skipped, l)

-- `Start` and `Close` of a call that no other one interrupts.
unfoldable pub start : Lifecycle → Lifecycle
unfolding start_step
start l =
    let (at₁, l₁) = start_step load_closed l in
    let (at₂, l₂) = start_step at₁ l₁ in let (at₃, l₃) = start_step at₂ l₂ in l₃

-- `Close`, which waits until the goroutines it has cancelled have returned.
unfoldable pub shut : Lifecycle → Lifecycle
unfolding is_closed
shut l = if is_closed l then l else record l { closed = true; cancelled = true; running = 0 }

-- A reader with the calls of `Start` and `Close` that have been made, in any number of goroutines.
pub record System : Type 0 where
  pub lifecycle : Lifecycle
  pub starts : List StartCall
  pub closes : List CloseCall

abbrev pub unused : System
unused = record { lifecycle = fresh; starts = []; closes = [] }

-- One atomic operation, of any call; or the caller's context ends; or `polling` returns, whose
-- `select` has found one of the two contexts done.
pub data Step : System → System → Type 0 where
  start_called : (s : System) → Step s (record s { starts = load_closed ∷ s.starts })
  start_runs :
      (l : Lifecycle) (front back : List StartCall) (at : StartCall) (closes : List CloseCall)
      → Step
          (record { lifecycle = l; starts = front ++ (at ∷ back); closes = closes })
          (record {
            lifecycle = (start_step at l).1;
            starts = front ++ ((start_step at l).0 ∷ back);
            closes = closes;
          })
  close_called : (s : System) → Step s (record s { closes = swap_closed ∷ s.closes })
  close_runs :
      (l : Lifecycle) (front back : List CloseCall) (at : CloseCall) (starts : List StartCall)
      → Step
          (record { lifecycle = l; starts = starts; closes = front ++ (at ∷ back) })
          (record {
            lifecycle = (close_step at l).1;
            starts = starts;
            closes = front ++ ((close_step at l).0 ∷ back);
          })
  user_context_ends :
      (l : Lifecycle) (starts : List StartCall) (closes : List CloseCall)
      → Step
          (record { lifecycle = l; starts = starts; closes = closes })
          (record { lifecycle = record l { user_done = true }; starts = starts; closes = closes })
  polling_returns :
      (l : Lifecycle) (n : ℕ) (starts : List StartCall) (closes : List CloseCall)
      → l.running ≡ suc n
      → (l.cancelled ≡ true) ⊎ (l.user_done ≡ true)
      → Step
          (record { lifecycle = l; starts = starts; closes = closes })
          (record { lifecycle = record l { running = n }; starts = starts; closes = closes })

pub data Reaches (s : System) : System → Type 0 where
  here : Reaches s s
  next : {t u : System} → Reaches s t → Step t u → Reaches s u
