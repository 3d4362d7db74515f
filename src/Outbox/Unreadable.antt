-- ===== src/Outbox/Unreadable.antt =====
-- internal/outbox/reader.go, `processMessage`: rows that cannot be turned into messages.
use cliros.Prelude.{◌≡◌, Among, inl, inr}
use cliros.Errors.{Error}
use cliros.Effect.{err}
use cliros.Database.{postgres}
use cliros.Env.{Env}
use cliros.Outbox.Writer.{Row}
use cliros.Outbox.Reader.{Reader, batch_select, tick, from_outbox_to_saga_message}
use cliros.Outbox.Marking.{key_of}
use cliros.Outbox.Progress.{Pointwise-Among}
use cliros.Outbox.Publishing.{IsQuietReader, tick-touches}
use cliros.Outbox.Scan.{HasRoom, RespectsLimit, delivered}
use cliros.Store.{row_key, Postgres}
use cliros.Store.Queue.{Queue, Pointwise}

module _ {env : Env} {pg : Postgres env} (queue : Queue pg) where
  open env use {World, Ctx, Uuid, Bytes, query}
  open pg use {committed}

  -- The row cannot be turned into a message.
  abbrev pub IsUnreadable : Row env → Type 0
  IsUnreadable m = (x : Error) × (from_outbox_to_saga_message env m ≡ err x)

  -- A tick leaves a row of the outbox that cannot be turned into a message exactly as it is,
  -- whatever other rows it reads: it counts no attempt of it, moves it to no later time and does
  -- not mark it, so that the row stays due. No row that is read with its key can be turned into a
  -- message, the buffer has room for the batch, the SELECT respects its LIMIT, and the reader
  -- speaks PostgreSQL; the backoff policy, the broker and the error channel do not touch the
  -- tables.
  pub tick-leaves-IsUnreadable :
      (r : Reader env) (ctx : Ctx) (w : World)
      → r.dialect ≡ postgres
      → IsQuietReader queue r
      → HasRoom env r
      → RespectsLimit env r ctx w
      → let ms = delivered env (query ctx (batch_select env r) w).0 in
        Pointwise
          (λ row row'.
            ((m : Row env) → Among m ms → key_of queue m ≡ row_key row → IsUnreadable m)
            → row' ≡ row)
          (committed w).outbox
          (committed (tick env r ctx w).1).outbox
  tick-leaves-IsUnreadable r ctx w speaks quiet room limit =
      Pointwise-Among (committed w).outbox (committed (tick env r ctx w).1).outbox
        (λ row row' there moved unreadable. elim moved.touched [
          | inl same ↦ same
          | inr (m, read, is, (out, made)) ↦ let (x, failed) = unreadable m read is in absurd cc
        ])
        (tick-touches queue r ctx w speaks quiet room limit).rows
