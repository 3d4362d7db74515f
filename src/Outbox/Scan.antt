-- ===== src/Outbox/Scan.antt =====
-- internal/outbox/reader.go: what `scanBatch` reads into the buffer, and what the reader publishes.
use cliros.Prelude.{
  ℕ, suc, ◌+◌, ◌≤◌, ◌≡◌, refl, ◌∙◌, sym, ap, Option, some, List, [], ◌∷◌, ◌++◌, arith, length, set,
  take, length-set, length-replicate, get_elem?-some, take-set,
}
use mathlib.Core.List.{append_assoc, append-nil}
use cliros.Prelude.Int.{pos_part}
use cliros.Errors.{Error}
use cliros.Effect.{Result, ok, err}
use cliros.Database.{SqlDialect, Columns}
use cliros.Env.{Env}
use cliros.Outbox.Writer.{Row}
use cliros.Outbox.Reader.{
  Reader, PollingSettings, BackoffSettings, Scan, scanned, scan_rows, scan_batch, scanned_row,
  batch_select, scan_reply, send_error, tick, process_batch, new_reader, positive_or,
  default_batch_size,
}

module _ (env : Env) where
  open env use {
    World, Ctx, Any, Uuid, Bytes, query, marshal_payload, marshal_meta, unmarshal_payload,
    unmarshal_meta, has_bytes, uuid_string,
  }

  -- The rows before the first one that cannot be read.
  abbrev pub readable : List (Result (Columns Uuid Bytes)) → List (Row env)
  readable [] = []
  readable (err e ∷ rs) = []
  readable (ok c ∷ rs) = scanned_row env c ∷ readable rs

  -- The readable rows of the answer to the SELECT.
  abbrev pub delivered : Result (List (Result (Columns Uuid Bytes)) × Option Error) → List (Row env)
  delivered (err e) = []
  delivered (ok (rs, last)) = readable rs

  -- A scan that began at the place `n` reads `rows` behind `before`, into a buffer that keeps its
  -- size.
  pub record Reads (n : ℕ) (before rows : List (Row env)) (size : ℕ) (s : Scan env) : Type 0 where
    pub count : ℕ
    pub buffer : List (Row env)
    pub error : Option Error
    pub ends : s ≡ scanned count buffer error
    pub counts : count ≡ n + length rows
    pub in_order : take count buffer ≡ before ++ rows
    pub same_size : length buffer ≡ size

  scan_rows-Reads :
      (rs : List (Result (Columns Uuid Bytes))) (last : Option Error) (n : ℕ)
      (buffer before : List (Row env))
      → n + length rs ≤ length buffer
      → take n buffer ≡ before
      → Reads n before (readable rs) (length buffer) (scan_rows env rs last n buffer)
  unfolding scan_rows
  scan_rows-Reads [] last n buffer before h start = record {
    count = n;
    buffer = buffer;
    error = last;
    ends = refl;
    counts = omega arith;
    in_order = start ∙ sym (append-nil before);
    same_size = refl;
  }
  scan_rows-Reads (err e ∷ rs) last n buffer before h start =
      let (old, found) = get_elem?-some buffer n (omega arith) in
      rw (scan_rows, found)
        record {
          count = n;
          buffer = buffer;
          error = _;
          ends = refl;
          counts = omega arith;
          in_order = start ∙ sym (append-nil before);
          same_size = refl;
        }
  scan_rows-Reads (ok c ∷ rs) last n buffer before h start =
      let (old, found) = get_elem?-some buffer n (omega arith) in
      let row = scanned_row env c in
      let more =
        scan_rows-Reads rs last (suc n) (set buffer n row) (before ++ (row ∷ []))
          (omega (arith, length-set buffer n row))
          (take-set buffer n row (omega arith) ∙ ap (λ xs. xs ++ (row ∷ [])) start) in
      rw (scan_rows, found)
        record {
          count = more.count;
          buffer = more.buffer;
          error = more.error;
          ends = more.ends;
          counts = omega (arith, more.counts);
          in_order = more.in_order ∙ append_assoc before (row ∷ []) (readable rs);
          same_size = more.same_size ∙ length-set buffer n row;
        }

  -- A reader whose buffer has a place for each row of the LIMIT.
  abbrev pub HasRoom : Reader env → Type 0
  HasRoom r = length r.buffer ≡ pos_part (positive_or default_batch_size r.polling.batch_size)

  -- `NewReader` makes such a buffer.
  pub new_reader-HasRoom :
      (d : SqlDialect) (polling : PollingSettings) (backoff : BackoffSettings env) (blank : Row env)
      → HasRoom (new_reader env d polling backoff blank)
  unfolding new_reader
  new_reader-HasRoom d polling backoff blank = length-replicate _ blank

  -- PostgreSQL's LIMIT: the SELECT answers at most as many rows as its last argument says.
  abbrev pub RespectsLimit : Reader env → Ctx → World → Type 0
  RespectsLimit r ctx w =
      (rs : List (Result (Columns Uuid Bytes))) (last : Option Error)
      → (query ctx (batch_select env r) w).0 ≡ ok (rs, last)
      → length rs ≤ pos_part (positive_or default_batch_size r.polling.batch_size)

  scan_reply-Reads :
      (r : Reader env) (reply : Result (List (Result (Columns Uuid Bytes)) × Option Error))
      → ((rs : List (Result (Columns Uuid Bytes))) (last : Option Error)
          → reply ≡ ok (rs, last)
          → length rs ≤ length r.buffer)
      → Reads 0 [] (delivered reply) (length r.buffer) (scan_reply env r reply)
  scan_reply-Reads r (err e) fits = record {
    count = 0;
    buffer = r.buffer;
    error = _;
    ends = refl;
    counts = refl;
    in_order = refl;
    same_size = refl;
  }
  scan_reply-Reads r (ok (rs, last)) fits =
      scan_rows-Reads rs last 0 r.buffer [] (omega (arith, fits rs last refl)) refl

  -- `scanBatch` never indexes its buffer out of range: it counts the rows before the first one
  -- that cannot be read, these rows are the first of the buffer, in the order of the SELECT's
  -- answer, and the buffer keeps its size. The buffer has a place for each row of the batch, and
  -- the SELECT answers at most as many rows as its LIMIT.
  pub scan_batch-Reads :
      (r : Reader env) (ctx : Ctx) (w : World)
      → HasRoom r
      → RespectsLimit r ctx w
      → Reads 0 []
          (delivered (query ctx (batch_select env r) w).0)
          (length r.buffer)
          (scan_batch env r ctx w).0
  unfolding scan_batch
  scan_batch-Reads r ctx w room limit =
      scan_reply-Reads r (query ctx (batch_select env r) w).0
        λ rs last e. omega (arith, room, limit rs last e)

  -- A tick of a reader whose buffer has a place for each row of the batch reports the scan's
  -- error, if there is one, and then hands exactly the rows that were read, up to the first one
  -- that cannot be read and in the order of the SELECT's answer, to `processMessage`; the tick
  -- does not panic, and the buffer keeps its size. The SELECT answers at most as many rows as its
  -- LIMIT.
  pub tick-HasRoom :
      (r : Reader env) (ctx : Ctx) (w : World)
      → HasRoom r
      → RespectsLimit r ctx w
      → let (reply, w₁) = query ctx (batch_select env r) w in
        (buffer : List (Row env)) × (error : Option Error) × (tick env r ctx w ≡ (
          some (record r { buffer = buffer }),
          process_batch env r ctx (delivered reply) (send_error env "outbox scan batch" error w₁),
        ))
        × HasRoom (record r { buffer = buffer })
  unfolding tick scan_batch
  tick-HasRoom r ctx w room limit =
      let read =
        scan_reply-Reads r (query ctx (batch_select env r) w).0
          (λ rs last e. omega (arith, room, limit rs last e)) in
      (read.buffer, read.error, rw (read.ends, read.in_order) refl, read.same_size ∙ room)
