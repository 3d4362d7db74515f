-- ===== src/Outbox/Lifecycle/Launches.antt =====
-- internal/outbox/reader.go: how many polling goroutines there may be.
use cliros.Prelude.{ℕ, ◌+◌, ◌≤◌, ◌≡◌, refl, List, [], ◌∷◌, ◌++◌, arith, if◌then◌else◌}
use cliros.Outbox.Lifecycle.{
  Lifecycle, StartCall, load_closed, swap_started, launch, start_done, start_step, CloseCall,
  close_step, System, Step, start_called, start_runs, close_called, close_runs, user_context_ends,
  polling_returns, Reaches, here, next, unused, is_started, is_closed,
}

abbrev about_to_launch : StartCall → ℕ
about_to_launch launch = 1
about_to_launch load_closed = 0
about_to_launch swap_started = 0
about_to_launch start_done = 0

-- The calls of `Start` that are about to call `wg.Go`.
unfoldable pub launches : List StartCall → ℕ
launches [] = 0
launches (at ∷ calls) = about_to_launch at + launches calls

launches-append :
    (front : List StartCall) (at : StartCall) (back : List StartCall)
    → launches (front ++ (at ∷ back)) ≡ about_to_launch at + launches (front ++ back)
unfolding launches
launches-append [] at back = refl
launches-append (x ∷ front) at back = ground (arith, launches-append front at back)

-- The flag `started` is the right to launch, and it is given once.
pub record IsSound (l : Lifecycle) (calls : List StartCall) : Type 0 where
  pub given : launches calls + l.launched ≤ (if l.started then 1 else 0)
  pub counted : l.running ≤ l.launched

start_step-IsSound :
    (l : Lifecycle) (front back : List StartCall) (at : StartCall)
    → IsSound l (front ++ (at ∷ back))
    → IsSound (start_step at l).1 (front ++ ((start_step at l).0 ∷ back))
unfolding start_step is_started is_closed
start_step-IsSound l front back load_closed h = record {
  given = ground (
    arith,
    h.given,
    launches-append front load_closed back,
    launches-append front swap_started back,
    launches-append front start_done back,
  );
  counted = ground (arith, h.counted);
}
start_step-IsSound l front back swap_started h = record {
  given = ground (
    arith,
    h.given,
    launches-append front swap_started back,
    launches-append front launch back,
    launches-append front start_done back,
  );
  counted = ground (arith, h.counted);
}
start_step-IsSound l front back launch h = record {
  given =
      ground
        (arith, h.given, launches-append front launch back, launches-append front start_done back);
  counted = ground (arith, h.counted);
}
start_step-IsSound l front back start_done h = h

close_step_counts :
    (at : CloseCall) (l : Lifecycle)
    → ((close_step at l).1.started ≡ l.started)
      × ((close_step at l).1.running ≡ l.running)
      × ((close_step at l).1.launched ≡ l.launched)
unfolding close_step is_closed
close_step_counts at l = ground arith

close_step-IsSound :
    (at : CloseCall) (l : Lifecycle) (calls : List StartCall)
    → IsSound l calls
    → IsSound (close_step at l).1 calls
close_step-IsSound at l calls h =
    let (same_started, same_running, same_launched) = close_step_counts at l in
    record {
      given = rw (same_started, same_launched) h.given;
      counted = rw (same_running, same_launched) h.counted;
    }

Step-IsSound :
    {s t : System} → Step s t → IsSound s.lifecycle s.starts → IsSound t.lifecycle t.starts
unfolding launches
Step-IsSound (start_called s) h = record { given = ground (arith, h.given); counted = h.counted }
Step-IsSound (start_runs l front back at closes) h = start_step-IsSound l front back at h
Step-IsSound (close_called s) h = h
Step-IsSound (close_runs l front back at starts) h = close_step-IsSound at l starts h
Step-IsSound (user_context_ends l starts closes) h = record { given = h.given; counted = h.counted }
Step-IsSound (polling_returns l n starts closes e _) h = record {
  given = h.given;
  counted = ground (arith, e, h.counted);
}

pub Reaches-IsSound : {s : System} → Reaches unused s → IsSound s.lifecycle s.starts
unfolding launches
Reaches-IsSound here = record { given = omega arith; counted = omega arith }
Reaches-IsSound (next before st) = Step-IsSound st (Reaches-IsSound before)

-- However the operations of any number of calls of `Start` and `Close` interleave, at most one
-- polling goroutine is ever launched, and no more run than have been launched.
pub launched_once :
    {s : System}
    → Reaches unused s
    → (s.lifecycle.running ≤ s.lifecycle.launched) × (s.lifecycle.launched ≤ 1)
launched_once {s} reached = let h = Reaches-IsSound reached in (h.counted, ground (arith, h.given))
