-- ===== src/Outbox/Tests.antt =====
-- The theorems on the outbox at concrete inputs.
use cliros.Prelude.{◌+◌, Among, ◌≡◌, refl, String, some, List, [], ◌∷◌, arith}
use cliros.Prelude.Int.{pos}
use cliros.Effect.{ok, ◌>>=◌, wrapping}
use cliros.Message.{failed, complete, with_origin}
use cliros.Database.{postgres}
use cliros.Outbox.{compensate, execute, saga_type_of}
use cliros.Outbox.Work.{Worked, write_tx-Worked}
use cliros.Outbox.Writer.{TxWork, Row, from_saga_to_outbox_message, write_messages, write_tx}
use cliros.Outbox.Rows.{AreRowsOf, AreFresh, write_messages-Within}
use cliros.Outbox.Reader.{
  Reader, new_reader, scan_batch, batch_select, tick, from_outbox_to_saga_message,
}
use cliros.Outbox.Scan.{HasRoom, Reads, new_reader-HasRoom, delivered, scan_batch-Reads}
use cliros.Outbox.Progress.{Moves}
use cliros.Outbox.Marking.{key_of}
use cliros.Outbox.Publishing.{IsPublished, tick-Moves}
use cliros.Demo.Queue.{demo_queue}
use cliros.Demo.Due.{demo-RespectsLimit, reader-HasRoom}
use cliros.Outbox.Delivery.{reader_after_writer}
use cliros.Outbox.Unreadable.{IsUnreadable, tick-leaves-IsUnreadable}
use cliros.Store.Queue.{Pointwise}
use cliros.Store.{OutboxRow, row_key, with_rows, new_row}
use cliros.Store.Within.{Within}
use cliros.Store.Atomic.{Atomic}
use cliros.Demo.{DemoWorld, Json, of_payload, of_meta, demo}
use cliros.Demo.Laws.{demo_postgres}
use cliros.Demo.Saga.{booked_row, reader, incoming, empty_tables, doubting}

write_messages-Within_example :
    Within demo_postgres empty_tables tt
      (λ _ p.
        (rows : List (OutboxRow String Json)) × AreRowsOf demo
          (incoming complete "order")
          "booking"
          execute
          ("paid" ∷ "audit" ∷ [])
          rows
        × AreFresh rows []
        × (p ≡ with_rows rows empty_tables))
      (write_messages demo postgres tt
        (incoming complete "order")
        tt
        ("paid" ∷ "audit" ∷ [])
        "booking"
        execute)
      (doubting 0)
write_messages-Within_example =
    write_messages-Within demo_postgres postgres tt (incoming complete "order") tt
      ("paid" ∷ "audit" ∷ []) "booking" execute empty_tables (doubting 0) refl refl

-- Work that counts one in the service's own table.
abbrev count : TxWork demo
count ctx tx w = (ok tt, record w { work = record w.work { other = w.work.other + 1 } })

write_tx-Worked_example :
    Atomic demo_postgres empty_tables
      (λ _ t.
        Worked demo_postgres
          (some count)
          (incoming failed "booking")
          ("undo" ∷ [])
          "booking"
          compensate
          empty_tables
          t)
      (write_tx demo postgres tt
        (incoming failed "booking")
        ("undo" ∷ [])
        "booking"
        compensate
        (some count))
      (doubting 1)
write_tx-Worked_example =
    write_tx-Worked demo_postgres postgres tt (incoming failed "booking") ("undo" ∷ []) "booking"
      compensate (some count) empty_tables (doubting 1) refl (λ ctx tx w. refl) refl

reader_after_writer_example :
    from_outbox_to_saga_message demo booked_row
    ≡ ok (with_origin complete "booking" (incoming complete "order"))
unfolding from_saga_to_outbox_message ◌>>=◌ wrapping
reader_after_writer_example =
    reader_after_writer demo (incoming complete "order") "paid" "booking" execute booked_row
      (doubting 0) (record (doubting 0) { clock = 1 })
      record {
        meta_bytes = λ b e. refl;
        meta_back = λ b e. ground arith;
        payload_back = λ b e. ground arith;
      }
      refl

-- Two rows are due.
abbrev due : DemoWorld
due = record (doubting 0) {
  main = record empty_tables {
    outbox =
        new_row "saga-1" "booking" "paid" "execute" 0 0 (of_meta (incoming complete "order").meta)
          (of_payload (("amount", 5) ∷ []))
        ∷ new_row "saga-2" "booking" "paid" "execute" 0 0 (of_meta (incoming complete "order").meta)
            (of_payload (("amount", 7) ∷ []))
        ∷ [];
  };
}

scan_batch-Reads_example : Reads demo 0 [] (booked_row ∷ []) 1 (scan_batch demo reader tt due).0
unfolding new_reader saga_type_of
scan_batch-Reads_example =
    scan_batch-Reads demo reader tt due reader-HasRoom (demo-RespectsLimit reader due)

-- The first row's payload is not JSON; it is read together with two that are published.
abbrev poison : OutboxRow String Json
poison =
    new_row "saga-3" "booking" "paid" "execute" 0 0 (of_meta (incoming complete "order").meta)
      (of_meta (incoming complete "order").meta)

abbrev poisoned : DemoWorld
poisoned = record due { main = with_rows due.main.outbox (with_rows (poison ∷ []) empty_tables) }

-- A reader that takes three rows at a time.
abbrev wide : Reader demo
wide =
    new_reader demo postgres record { interval = pos 5; batch_size = pos 3; max_attempts = pos 5 }
      reader.backoff booked_row

wide-HasRoom : HasRoom demo wide
wide-HasRoom = new_reader-HasRoom demo _ _ _ _

tick-leaves-IsUnreadable_example :
    Pointwise
      (λ row row'.
        ((m : Row demo)
          → Among m (delivered demo (demo.query tt (batch_select demo wide) poisoned).0)
          → key_of demo_queue m ≡ row_key row
          → IsUnreadable demo_queue m)
        → row' ≡ row)
      poisoned.main.outbox
      (tick demo wide tt poisoned).1.main.outbox
unfolding new_reader
tick-leaves-IsUnreadable_example =
    tick-leaves-IsUnreadable demo_queue wide tt poisoned refl (λ n w. refl) wide-HasRoom
      (demo-RespectsLimit wide poisoned)

-- The row that is read is published and marked.
tick-Moves_example :
    Moves
      (λ k. (m : Row demo) × Among m (booked_row ∷ []) × (key_of demo_queue m ≡ k))
      (λ k.
        (m : Row demo) × Among m (booked_row ∷ [])
        × (key_of demo_queue m ≡ k)
        × IsPublished demo_queue tt m)
      due.main
      (tick demo reader tt due).1.main
unfolding new_reader saga_type_of
tick-Moves_example =
    tick-Moves demo_queue reader tt due refl (λ n w. refl) reader-HasRoom
      (demo-RespectsLimit reader due)
