-- ===== src/Controller/DeliveryTests.antt =====
-- Deliveries in the small world, one after the other.
use cliros.Prelude.{refl, inl, some}
use cliros.Message.{MessageType, complete, failed}
use cliros.Store.{with_claim}
use cliros.Store.Keys.{Keeps}
use cliros.Controller.{receive}
use cliros.Controller.Deliveries.{
  IsServed, IsIgnored, History, now, delivered, History-Keeps, IsClaimed-ever,
}
use cliros.Controller.Tests.{controller}
use cliros.Demo.{DemoWorld, demo}
use cliros.Demo.Laws.{demo_postgres}
use cliros.Demo.Saga.{
  empty_tables, incoming, refuse, salvage, step_of, doubting, refuse-IsContained, only_salvage,
  executor-IsDeduplicating,
}

pub saving-IsServed :
    (type : MessageType)
    → IsServed demo_postgres controller (step_of refuse (some salvage)) (incoming type "order")
saving-IsServed type = record {
  dedup = executor-IsDeduplicating type;
  infra = λ n w. refl;
  user = λ n w. refl;
  action = refuse-IsContained;
  undo = refuse-IsContained;
  handler = only_salvage;
  undo_handler = λ h is. cc;
}

-- The execute message, and then the failed message of the same origin.
abbrev twice : DemoWorld → DemoWorld
twice w =
    (receive demo controller (step_of refuse (some salvage)) tt (incoming failed "order")
      (receive demo controller (step_of refuse (some salvage)) tt (incoming complete "order")
        w).1).1

twice-History : (w : DemoWorld) → History demo_postgres controller w (twice w)
twice-History w =
    delivered (step_of refuse (some salvage)) tt (incoming failed "order") (saving-IsServed failed)
      (delivered (step_of refuse (some salvage)) tt (incoming complete "order")
        (saving-IsServed complete) now)

History-Keeps_example : Keeps empty_tables (twice (doubting 1)).main
History-Keeps_example = History-Keeps demo_postgres (twice-History (doubting 1))

abbrev handled_before : DemoWorld
handled_before = record (doubting 0) { main = with_claim ("saga-1", "order") empty_tables }

IsClaimed-ever_example :
    IsIgnored demo_postgres
      (step_of refuse (some salvage))
      (incoming complete "order")
      (twice handled_before).main
      (receive demo controller
        (step_of refuse (some salvage))
        tt
        (incoming complete "order")
        (twice handled_before)).1.main
IsClaimed-ever_example =
    IsClaimed-ever demo_postgres (step_of refuse (some salvage)) tt (incoming complete "order")
      (twice-History handled_before) ("saga-1", refl, inl refl) (saving-IsServed complete)
