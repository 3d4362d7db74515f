-- ===== src/Outbox/Lifecycle/Quiet.antt =====
-- internal/outbox/reader.go: the reader after `Close`.
use cliros.Prelude.{◌≡◌, refl, true, List, arith, Each, Each-at, Each-put}
use cliros.Outbox.Lifecycle.{
  Lifecycle, StartCall, load_closed, swap_started, launch, start_done, start_step, CloseCall,
  close_step, System, Step, start_called, start_runs, close_called, close_runs, user_context_ends,
  polling_returns, Reaches, here, next, is_closed,
}

-- A call of `Start` that is not between its load of `closed` and its `wg.Go`.
abbrev pub IsOutside : StartCall → Type 0
IsOutside load_closed = Unit
IsOutside start_done = Unit
IsOutside swap_started = ⊥
IsOutside launch = ⊥

abbrev pub AreOutside : List StartCall → Type 0
AreOutside = Each IsOutside

-- The reader is closed, no goroutine polls, and no call of `Start` is past its load.
pub record IsQuiet (s : System) : Type 0 where
  pub shut : s.lifecycle.closed ≡ true
  pub none_running : s.lifecycle.running ≡ 0
  pub outside : AreOutside s.starts

start_step-quiet :
    (l : Lifecycle) (at : StartCall)
    → l.closed ≡ true
    → IsOutside at
    → (IsOutside (start_step at l).0) × ((start_step at l).1 ≡ l)
unfolding start_step is_closed
start_step-quiet l load_closed shut o = simp shut (tt, refl)
start_step-quiet l swap_started shut o = elim o [ ]
start_step-quiet l launch shut o = elim o [ ]
start_step-quiet l start_done shut o = (tt, refl)

close_step-quiet :
    (l : Lifecycle) (at : CloseCall)
    → l.closed ≡ true
    → ((close_step at l).1.closed ≡ true) × ((close_step at l).1.running ≡ l.running)
unfolding close_step is_closed
close_step-quiet l at shut = ground (arith, shut)

Step-IsQuiet : {s t : System} → Step s t → IsQuiet s → IsQuiet t
Step-IsQuiet (start_called s) h = record {
  shut = h.shut;
  none_running = h.none_running;
  outside = (tt, h.outside);
}
Step-IsQuiet (start_runs l front back at closes) h =
    let (out, same) = start_step-quiet l at h.shut (Each-at IsOutside front at back h.outside) in
    record {
      shut = rw same h.shut;
      none_running = rw same h.none_running;
      outside = Each-put IsOutside front at (start_step at l).0 back out h.outside;
    }
Step-IsQuiet (close_called s) h = record {
  shut = h.shut;
  none_running = h.none_running;
  outside = h.outside;
}
Step-IsQuiet (close_runs l front back at starts) h =
    let (shut, same) = close_step-quiet l at h.shut in
    record { shut = shut; none_running = rw same h.none_running; outside = h.outside }
Step-IsQuiet (user_context_ends l starts closes) h = record {
  shut = h.shut;
  none_running = h.none_running;
  outside = h.outside;
}
Step-IsQuiet (polling_returns l n starts closes e _) h = record {
  shut = h.shut;
  none_running = ground (arith, e, h.none_running);
  outside = h.outside;
}

pub Reaches-IsQuiet : {s t : System} → Reaches s t → IsQuiet s → IsQuiet t
Reaches-IsQuiet here h = h
Reaches-IsQuiet (next before st) h = Step-IsQuiet st (Reaches-IsQuiet before h)
