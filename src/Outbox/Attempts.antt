-- ===== src/Outbox/Attempts.antt =====
-- internal/outbox/reader.go: the attempts that the reader counts of a row, over all its ticks.
pub mod Messages
mod Tests
use cliros.Prelude.{
  ℕ, suc, ◌≤◌, ◌<◌, ◌==◌, String, ◌≡◌, refl, ◌∙◌, sym, ap, subst, inl, inr, Option, none, some,
  List, [], ◌∷◌, map, Among, Among-map_back, IsDistinct, IsDistinct-map, Each, Each-map, Each-Among,
  Each-all, Bool-cases, arith,
}
use cliros.Prelude.Int.{pos_part}
use cliros.Database.{postgres}
use cliros.Env.{Env}
use cliros.Outbox.Writer.{Row}
use cliros.Outbox.Reader.{
  Reader, positive_or, default_max_attempts, process_message, process_batch, send_error,
  batch_select, tick, polling,
}
use cliros.Outbox.Progress.{Moves, RowMoves, Pointwise-Each, Pointwise-Among}
use cliros.Outbox.Scan.{HasRoom, RespectsLimit, delivered, tick-HasRoom}
use cliros.Outbox.Polling.{polling-next}
use cliros.Outbox.Marking.{key_of}
use cliros.Outbox.Publishing.{IsQuietReader, IsPublished, tick-Moves, send_error-committed}
use cliros.Outbox.Attempts.Messages.{Tries, AreTried, AreTried-same, process_message-AreTried}
use cliros.Store.{OutboxRow, Store, row_key, Postgres}
use cliros.Store.Queue.{Queue, Pointwise, Updates}

module _ {U B : Type 0} where
  -- The table has one row for a key, and no row has more attempts than `n`.
  pub record IsBounded {D : Type 0} (n : ℕ) (s : Store U B D) : Type 0 where
    pub keys : IsDistinct (map row_key s.outbox)
    pub tries : Each (λ row. row.attempts_counter ≤ n) s.outbox

  Pointwise-keys :
      (T P : U × String × String → Type 0) (xs ys : List (OutboxRow U B))
      → Pointwise (RowMoves T P) xs ys
      → map row_key ys ≡ map row_key xs
  Pointwise-keys T P [] [] h = refl
  Pointwise-keys T P [] (y ∷ ys) h = absurd h
  Pointwise-keys T P (x ∷ xs) [] h = absurd h
  Pointwise-keys T P (x ∷ xs) (y ∷ ys) h = λ i. h.0.key i ∷ Pointwise-keys T P xs ys h.1 i

module _ {env : Env} {pg : Postgres env} (queue : Queue pg) where
  open env use {World, Ctx, Uuid, Bytes, query}
  open pg use {Other, committed}

  -- The largest count of the WHERE of the reader's SELECT.
  abbrev pub most : Reader env → ℕ
  most r = pos_part (positive_or default_max_attempts r.polling.max_attempts)

  -- PostgreSQL's WHERE: each row that the SELECT answers is a row of the table whose attempts are
  -- below its argument, and where the table has one row for a key, so has the answer.
  pub record SelectsDue (r : Reader env) (ctx : Ctx) (w : World) : Type 0 where
    pub below :
        (m : Row env)
        → Among m (delivered env (query ctx (batch_select env r) w).0)
        → (row : OutboxRow Uuid Bytes) × Among row (committed w).outbox
          × (row_key row ≡ key_of queue m)
          × (row.attempts_counter < most r)
    pub once :
        IsDistinct (map row_key (committed w).outbox)
        → IsDistinct (map (key_of queue) (delivered env (query ctx (batch_select env r) w).0))

  module _ (r : Reader env) (ctx : Ctx) (speaks : r.dialect ≡ postgres)
      (quiet : IsQuietReader queue r) where
    batch-AreTried :
        (n : ℕ) (ms : List (Row env)) (w : World)
        → IsDistinct (map (key_of queue) ms)
        → AreTried queue n (map (key_of queue) ms) w
        → AreTried queue n [] (process_batch env r ctx ms w)
    unfolding process_batch
    batch-AreTried n [] w once h = h
    batch-AreTried n (m ∷ ms) w once h =
        let ks = map (key_of queue) ms in
        let (failed, w₁) = process_message env r ctx m w in
        let w₂ = send_error env "outbox process batch" failed w₁ in
        batch-AreTried n ms w₂ once.1 (
          AreTried-same queue n ks (send_error-committed queue "outbox process batch" failed w₁)
            (process_message-AreTried queue n r ctx speaks quiet m ks once.0 w h))

    -- A row with the key of one that is read has an attempt left.
    read_below :
        (w : World)
        → SelectsDue r ctx w
        → IsDistinct (map row_key (committed w).outbox)
        → (m : Row env) (row : OutboxRow Uuid Bytes)
        → Among m (delivered env (query ctx (batch_select env r) w).0)
        → Among row (committed w).outbox
        → key_of queue m ≡ row_key row
        → row.attempts_counter < most r
    read_below w selects keys m row read there is =
        let (found, at, same, below) = selects.below m read in
        let one = IsDistinct-map row_key (committed w).outbox found row keys at there (same ∙ is) in
        subst (λ x. x.attempts_counter < most r) one below

    -- The rows that are read have an attempt left.
    due-AreTried :
        (w : World)
        → SelectsDue r ctx w
        → IsBounded (most r) (committed w)
        → AreTried queue
            (most r)
            (map (key_of queue) (delivered env (query ctx (batch_select env r) w).0))
            w
    due-AreTried w selects h =
        let ms = delivered env (query ctx (batch_select env r) w).0 in
        Each-all (Tries (most r) (map (key_of queue) ms)) (committed w).outbox λ row there. (
          Each-Among (λ row. row.attempts_counter ≤ most r) (committed w).outbox row h.tries there,
          λ chosen.
              let (m, read, is) = Among-map_back (key_of queue) (row_key row) ms chosen in
              read_below w selects h.keys m row read there (sym is),
        )

    -- A tick keeps the attempts of every row within the maximum.
    pub tick-IsBounded :
        (w : World)
        → HasRoom env r
        → RespectsLimit env r ctx w
        → SelectsDue r ctx w
        → IsBounded (most r) (committed w)
        → IsBounded (most r) (committed (tick env r ctx w).1)
    tick-IsBounded w room limit selects h =
        let (reply, w₁) = query ctx (batch_select env r) w in
        let ms = delivered env reply in
        let (buffer, error, ticked, stays) = tick-HasRoom env r ctx w room limit in
        let w₂ = send_error env "outbox scan batch" error w₁ in
        let before : committed w₂ ≡ committed w =
          send_error-committed queue "outbox scan batch" error w₁
          ∙ queue.query_outside ctx (batch_select env r) w in
        let moved = tick-Moves queue r ctx w speaks quiet room limit in
        record {
          keys =
              subst IsDistinct
                (sym (
                  Pointwise-keys _ _ (committed w).outbox (committed (tick env r ctx w).1).outbox
                    moved.rows))
                h.keys;
          tries = rw ticked (
              Each-map (Tries (most r) []) (λ row t. t.0)
                (committed (process_batch env r ctx ms w₂)).outbox
                (batch-AreTried (most r) ms w₂ (selects.once h.keys) (
                  AreTried-same queue (most r) (map (key_of queue) ms) before
                    (due-AreTried w selects h))));
        }

    -- A tick leaves a row that has no attempt left as it is: it does not count another attempt of
    -- it, does not move it to a later time and does not mark it as processed. The table has one
    -- row for a key, the buffer has room for the batch, the SELECT respects its WHERE and its
    -- LIMIT, and the reader speaks PostgreSQL.
    pub tick-leaves_exhausted :
        (w : World)
        → HasRoom env r
        → RespectsLimit env r ctx w
        → SelectsDue r ctx w
        → IsDistinct (map row_key (committed w).outbox)
        → Pointwise
            (λ row row'. most r ≤ row.attempts_counter → row' ≡ row)
            (committed w).outbox
            (committed (tick env r ctx w).1).outbox
    tick-leaves_exhausted w room limit selects keys =
        Pointwise-Among (committed w).outbox (committed (tick env r ctx w).1).outbox
          (λ row row' there moved exhausted. elim moved.touched [
            | inl same ↦ same
            | inr (m, read, is) ↦
                absurd (omega (arith, exhausted, read_below w selects keys m row read there is))
          ])
          (tick-Moves queue r ctx w speaks quiet room limit).rows

  module _ (ctx : Ctx) where
    -- However often the reader ticks, no row of the outbox is ever given more attempts than the
    -- reader's maximum, and the table keeps one row for a key. This holds of the first table,
    -- what other processes do between the ticks keeps it, and during a tick they leave the tables
    -- alone. The buffer has room for the batch, the SELECT respects its WHERE and its LIMIT, and
    -- the reader speaks PostgreSQL; the backoff policy, the broker and the error channel do not
    -- touch the tables.
    pub polling-IsBounded :
        ((r : Reader env) (w : World) → r.dialect ≡ postgres → RespectsLimit env r ctx w)
        → ((r : Reader env) (w : World) → r.dialect ≡ postgres → SelectsDue r ctx w)
        → (r : Reader env) (pauses : List (World → World)) (w : World) → r.dialect ≡ postgres
        → IsQuietReader queue r
        → HasRoom env r
        → Each
            (λ pause.
              (w₁ : World)
              → IsBounded (most r) (committed w₁)
              → IsBounded (most r) (committed (pause w₁)))
            pauses
        → IsBounded (most r) (committed w)
        → IsBounded (most r) (committed (polling env r ctx pauses w).1)
    unfolding polling
    polling-IsBounded limit selects r [] w speaks quiet room keep h = h
    polling-IsBounded limit selects r (pause ∷ pauses) w speaks quiet room keep h =
        let (buffer, error, ticked, stays) =
          tick-HasRoom env r ctx (pause w) room (limit r (pause w) speaks) in
        let next = record r { buffer = buffer } in
        let w' = (tick env r ctx (pause w)).1 in
        let before : IsBounded (most r) (committed w') =
          tick-IsBounded r ctx speaks quiet (pause w) room (limit r (pause w) speaks)
            (selects r (pause w) speaks) (keep.0 w h) in
        subst (λ (out : Option (Reader env) × World). IsBounded (most r) (committed out.1))
          (sym (polling-next env ctx r next pause pauses w w' (rw ticked refl)))
          (polling-IsBounded limit selects next pauses w' speaks quiet stays keep.1 before)
