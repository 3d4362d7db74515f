-- ===== src/Outbox/Attempts/Tests.antt =====
-- A table with a row that has used its last attempt but one, and one that has used them all.
use cliros.Prelude.{ℕ, String, ◌+◌, ◌≤◌, ◌≡◌, refl, ap, str_eq_iff, inl, inr, [], ◌∷◌, arith}
use cliros.Outbox.Attempts.{IsBounded, tick-leaves_exhausted, polling-IsBounded}
use cliros.Outbox.Reader.{new_reader, tick, polling}
use cliros.Message.{complete}
use cliros.Store.{OutboxRow, new_row}
use cliros.Store.Queue.{Pointwise}
use cliros.Demo.{DemoWorld, Json, of_payload, of_meta, demo}
use cliros.Demo.Due.{demo-SelectsDue, demo-RespectsLimit, reader-HasRoom}
use cliros.Demo.Queue.{demo_queue}
use cliros.Demo.Saga.{reader, incoming, empty_tables, doubting}

abbrev tried : String → ℕ → OutboxRow String Json
tried id n =
    record (new_row id "booking" "paid" "execute" 0 0 (of_meta (incoming complete "order").meta)
      (of_payload [])) { attempts_counter = n }

abbrev nearly : DemoWorld
nearly = record (doubting 0) {
  main = record empty_tables { outbox = tried "saga-1" 4 ∷ tried "saga-2" 5 ∷ [] };
}

nearly-IsBounded : IsBounded 5 nearly.main
nearly-IsBounded = record {
  keys = (
    λ there. elim there [
      | inl same ↦
          ground
            (arith, ap (λ (k : String × String × String). k.0) same, str_eq_iff "saga-1" "saga-2")
      | inr nowhere ↦ nowhere
    ],
    ((λ there. there), tt),
  );
  tries = (omega arith, (omega arith, tt));
}

-- Between the two ticks only the clock moves.
polling-IsBounded_example :
    IsBounded 5
      (polling demo reader tt
        ((λ w. w) ∷ (λ w. record w { clock = w.clock + 1 }) ∷ [])
        nearly).1.main
unfolding new_reader
polling-IsBounded_example =
    polling-IsBounded demo_queue tt (λ r w speaks. demo-RespectsLimit r w)
      (λ r w speaks. demo-SelectsDue r w) reader
      ((λ w. w) ∷ (λ w. record w { clock = w.clock + 1 }) ∷ []) nearly refl (λ n w. refl)
      reader-HasRoom ((λ w h. h), ((λ w h. h), tt)) nearly-IsBounded

tick-leaves_exhausted_example :
    Pointwise
      (λ row row'. 5 ≤ row.attempts_counter → row' ≡ row)
      nearly.main.outbox
      (tick demo reader tt nearly).1.main.outbox
unfolding new_reader
tick-leaves_exhausted_example =
    tick-leaves_exhausted demo_queue reader tt refl (λ n w. refl) nearly reader-HasRoom
      (demo-RespectsLimit reader nearly) (demo-SelectsDue reader nearly) nearly-IsBounded.keys
