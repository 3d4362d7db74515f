-- ===== src/Demo.antt =====
-- A small world for the tests: a database with the two tables and a counter as the service's own
-- table, in which one transaction is open at a time, and a broker that keeps what it is sent.
pub mod Laws
pub mod Saga
pub mod Whole
pub mod Due
pub mod Queue
use cliros.Prelude.{
  ℕ, zero, suc, ◌+◌, String, Bool, true, false, ◌&&◌, ◌||◌, Option, none, some, List, [], ◌∷◌, ◌++◌,
  str_eq, ltb, map, take, if◌then◌else◌,
}
use cliros.Errors.{Error, leaf, no_rows}
use cliros.Effect.{Result, ok, err}
use cliros.Message.{Message, MessageMeta, MessagePayload}
use cliros.Database.{postgres, Query, Columns, Value, uuid, text, time, blob, int}
use cliros.Env.{Env}
use cliros.Inbox.{claim_query_postgres}
use cliros.Outbox.Reader.{update_on_success_query, update_on_err_query}
use cliros.Outbox.Writer.{insert_query}
use cliros.Store.{OutboxRow, Store, new_row, with_claim, with_rows}

-- What `json.Marshal` gives, kept as the value that it encodes.
pub data Json : Type 0 where
  of_payload : MessagePayload ℕ → Json
  of_meta : MessageMeta → Json

abbrev pub Tables : Type 0
Tables = Store String Json ℕ

-- `main` is committed, `work` is the open transaction, and the next `doubts` commits take place but
-- report an error.
pub record DemoWorld : Type 0 where
  pub main : Tables
  pub work : Tables
  pub clock : ℕ
  pub doubts : ℕ
  pub sent : List (String × Message ℕ)

unfoldable pub has_claim : String × String → List (String × String) → Bool
has_claim k [] = false
has_claim k (j ∷ js) = (str_eq k.0 j.0 && str_eq k.1 j.1) || has_claim k js

unfoldable pub has_row : String → String → String → List (OutboxRow String Json) → Bool
has_row u topic phase [] = false
has_row u topic phase (row ∷ rows) =
    (str_eq u row.saga_id && (str_eq topic row.topic && str_eq phase row.saga_type))
    || has_row u topic phase rows

unfoldable pub row_of : List (Value String Json) → Option (OutboxRow String Json)
row_of
      (uuid u ∷ text step ∷ text topic ∷ text phase ∷ time a ∷ time b ∷ blob meta ∷ blob pay ∷ []) =
    some (new_row u step topic phase a b meta pay)
row_of _ = none

unfoldable pub insert_demo :
    Option (OutboxRow String Json) → DemoWorld → Result (Result ℕ) × DemoWorld
unfolding has_row
insert_demo none w = (err (leaf "bad arguments"), w)
insert_demo (some row) w =
    if has_row row.saga_id row.topic row.saga_type w.work.outbox
    then (err (leaf "duplicate key"), w)
    else (ok (ok 1), record w { work = with_rows (row ∷ []) w.work })

-- The rows with the key, changed.
unfoldable pub change_rows :
    (OutboxRow String Json → OutboxRow String Json)
    → String
    → String
    → String
    → List (OutboxRow String Json)
    → List (OutboxRow String Json)
change_rows f u topic phase [] = []
change_rows f u topic phase (row ∷ rows) =
    let rest = change_rows f u topic phase rows in
    if str_eq row.saga_id u && (str_eq row.topic topic && str_eq row.saga_type phase)
    then f row ∷ rest
    else row ∷ rest

unfoldable pub mark_demo : List (Value String Json) → DemoWorld → Result (Result ℕ) × DemoWorld
unfolding change_rows
mark_demo (time at ∷ uuid u ∷ text topic ∷ text phase ∷ []) w = (
  ok (ok 1),
  record w {
    work = record w.work {
      outbox =
          change_rows (λ row. record row { processed_at = some at }) u topic phase w.work.outbox;
    };
  },
)
mark_demo _ w = (err (leaf "bad arguments"), w)

unfoldable pub delay_demo : List (Value String Json) → DemoWorld → Result (Result ℕ) × DemoWorld
unfolding change_rows
delay_demo (time last ∷ time next ∷ uuid u ∷ text topic ∷ text phase ∷ []) w = (
  ok (ok 1),
  record w {
    work = record w.work {
      outbox =
          change_rows
            (λ row. record row {
              attempts_counter = suc row.attempts_counter;
              last_attempt = some last;
              scheduled_at = next;
            })
            u topic phase w.work.outbox;
    };
  },
)
delay_demo _ w = (err (leaf "bad arguments"), w)

-- Any other statement is taken for one of the service, and counts one in its table.
unfoldable pub update_demo : Query String Json → DemoWorld → Result (Result ℕ) × DemoWorld
unfolding mark_demo delay_demo update_on_success_query update_on_err_query
update_demo q w =
    if str_eq q.sql (update_on_success_query postgres)
    then mark_demo q.args w
    else if str_eq q.sql (update_on_err_query postgres)
    then delay_demo q.args w
    else (ok (ok 1), record w { work = record w.work { other = w.work.other + 1 } })

unfoldable pub exec_demo : Query String Json → DemoWorld → Result (Result ℕ) × DemoWorld
unfolding row_of insert_demo insert_query update_demo
exec_demo q w =
    if str_eq q.sql (insert_query postgres) then insert_demo (row_of q.args) w else update_demo q w

unfoldable pub claim_demo : List (Value String Json) → DemoWorld → Result String × DemoWorld
unfolding has_claim
claim_demo (uuid u ∷ text step ∷ []) w =
    if has_claim (u, step) w.work.inbox
    then (err no_rows, w)
    else (ok u, record w { work = with_claim (u, step) w.work })
claim_demo _ w = (err (leaf "bad arguments"), w)

unfoldable pub query_row_demo : Query String Json → DemoWorld → Result String × DemoWorld
unfolding claim_demo claim_query_postgres
query_row_demo q w =
    if str_eq q.sql (claim_query_postgres postgres)
    then claim_demo q.args w
    else (err (leaf "syntax error"), w)

-- A row as `rows.Scan` reads it.
abbrev pub columns_of : OutboxRow String Json → Result (Columns String Json)
columns_of row = ok (record {
  saga_id = row.saga_id;
  step_name = row.step_name;
  topic = row.topic;
  saga_type = row.saga_type;
  created_at = row.created_at;
  scheduled_at = row.scheduled_at;
  metadata = row.metadata;
  payload = row.payload;
  attempts_counter = row.attempts_counter;
  last_attempt = row.last_attempt;
  processed_at = row.processed_at;
})

-- The rows with an attempt left; the small world's rows are always due.
abbrev pub due_rows : ℕ → List (OutboxRow String Json) → List (OutboxRow String Json)
due_rows most [] = []
due_rows most (row ∷ rows) =
    let rest = due_rows most rows in if ltb row.attempts_counter most then row ∷ rest else rest

abbrev pub query_demo :
    Query String Json
    → DemoWorld
    → Result (List (Result (Columns String Json)) × Option Error) × DemoWorld
query_demo q w = elim q.args [
  | (int most ∷ int limit ∷ []) ↦
      (ok (take limit (map columns_of (due_rows most w.main.outbox)), none), w)
  | _ ↦ (err (leaf "bad arguments"), w)
]

abbrev pub commit_demo : ℕ → DemoWorld → Result (Unit {0}) × DemoWorld
commit_demo zero w = (ok tt, record w { main = w.work })
commit_demo (suc n) w = (err (leaf "connection lost"), record w { main = w.work; doubts = n })

abbrev pub payload_of : Json → Result (MessagePayload ℕ)
payload_of (of_payload p) = ok p
payload_of (of_meta m) = err (leaf "not a payload")

abbrev pub meta_of : Json → Result MessageMeta
meta_of (of_payload p) = err (leaf "not a meta")
meta_of (of_meta m) = ok m

abbrev pub parse_demo : String → Result String
parse_demo s = if str_eq s "" then err (leaf "invalid UUID length: 0") else ok s

abbrev pub demo : Env
demo = record {
  World = DemoWorld;
  Ctx = Unit;
  poll = λ ctx w. (none, w);
  await = λ ctx d w. (none, w);
  now = λ w. (w.clock, record w { clock = w.clock + 1 });
  Uuid = String;
  Bytes = Json;
  Any = ℕ;
  parse_uuid = parse_demo;
  uuid_string = λ u. u;
  new_v7 = λ w. (ok "saga-1", w);
  marshal_payload = λ p. ok (of_payload p);
  unmarshal_payload = payload_of;
  marshal_meta = λ m. ok (of_meta m);
  unmarshal_meta = meta_of;
  has_bytes = λ b. true;
  Tx = Unit;
  begin_tx = λ ctx w. (ok tt, record w { work = w.main });
  exec = λ ctx tx q w. exec_demo q w;
  query_row = λ ctx tx q w. query_row_demo q w;
  query = λ ctx q w. query_demo q w;
  commit = λ tx w. commit_demo w.doubts w;
  rollback = λ tx w. record w { work = w.main };
  Tracer = String;
  Span = Unit;
  otel_tracer = λ name. name;
  start_span = λ ctx tr name kind attributes w. ((ctx, tt), w);
  span_from_context = λ ctx. tt;
  record_error = λ span e w. w;
  set_error_status = λ span e w. w;
  end_span = λ span w. w;
  inject_pairs = λ ctx. ("traceparent", "00-1-1-01") ∷ [];
  extract = λ ctx get. ctx;
  steps_total_inc = λ step operation status w. w;
  step_duration_observe = λ step operation d w. w;
  saga_started_inc = λ w. w;
  try_send = λ e w. w;
  publish = λ ctx topic m w. (none, record w { sent = w.sent ++ ((topic, m) ∷ []) });
}
