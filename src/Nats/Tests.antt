-- ===== src/Nats/Tests.antt =====
-- A connection that never fails, in the small world, and the client's calls on it.
use cliros.Prelude.{
  arith, str_eq_iff, String, ◌≡◌, refl, Bool, true, false, none, some, List, [], ◌∷◌, ℕ, subst,
  if◌then◌else◌,
}
use cliros.Errors.{leaf}
use cliros.Effect.{◌>>=◌, wrapping, Result, ok, err}
use cliros.Message.{with_origin, Message, complete}
use cliros.Controller.{receive}
use cliros.Controller.Tests.{controller}
use cliros.Controller.Deliveries.{IsServed}
use cliros.Controller.DeliveryTests.{saving-IsServed}
use cliros.Nats.{Nats, Handler, Client, publish, subscribe, on_message, close}
use cliros.Nats.Closing.{VisitsAll, Leaves, close-Leaves}
use cliros.Nats.Calls.{subscribing, Uses, unused, after, IsClient, Uses-IsClient}
use cliros.Nats.Pipeline.{Arrives, IsDecoded, next_step_receives}
use cliros.Outbox.{execute}
use cliros.Outbox.Writer.{from_saga_to_outbox_message}
use cliros.Outbox.Reader.{from_outbox_to_saga_message}
use cliros.Nats.Transport.{Received, on_message-Delivers}
use cliros.Demo.{Json, of_payload, of_meta, demo}
use cliros.Demo.Laws.{demo_postgres}
use cliros.Demo.Saga.{booked_row, incoming, refuse, salvage, step_of, doubting}

-- Its messages are the metadata of the messages with the amount 5.
abbrev unmarshal_demo : Json → Result (Message ℕ)
unmarshal_demo (of_meta m) = ok (record { meta = m; payload = ("amount", 5) ∷ [] })
unmarshal_demo (of_payload p) = err (leaf "not a message")

-- A subscription to the topic "stuck" cannot be ended.
abbrev demo_nats : Nats demo
demo_nats = record {
  Conn = Unit;
  Subscription = Bool;
  Options = Unit;
  default_url = "nats://127.0.0.1:4222";
  background = tt;
  connect = λ url options w. (ok tt, w);
  conn_publish = λ conn topic bytes w. (none, w);
  conn_subscribe = λ conn topic callback w. (ok true, w);
  unsubscribe = λ works w. if works then (none, w) else (some (leaf "connection closed"), w);
  conn_close = λ conn w. w;
  conn_is_connected = λ conn w. true;
  marshal = λ m. ok (of_meta m.meta);
  unmarshal = unmarshal_demo;
}

abbrev first : Client demo_nats
first = record { conn = tt; subs = []; closed = false }

abbrev serve : Handler demo
serve = receive demo controller (step_of refuse (some salvage))

abbrev subscriptions : List (String × Bool)
subscriptions = ("undo", true) ∷ ("orders", true) ∷ []

abbrev open_client : Client demo_nats
open_client = record { conn = tt; subs = subscriptions; closed = false }

abbrev closed_client : Client demo_nats
closed_client = record { conn = tt; subs = []; closed = true }

all_visited : VisitsAll demo_nats subscriptions subscriptions
all_visited topic there = there

both-Uses : Uses demo_nats first open_client
unfolding subscribe on_message
both-Uses =
    after (subscribing tt "undo" serve) (doubting 0) tt
      (after (subscribing tt "orders" serve) (doubting 0) tt unused)

Uses-IsClient_example : IsClient demo_nats open_client
Uses-IsClient_example =
    Uses-IsClient demo_nats both-Uses record { keys = tt; emptied = λ shut. refl }

-- The second subscription of the order cannot be ended.
abbrev half_stuck : List (String × Bool)
half_stuck = ("undo", true) ∷ ("orders", false) ∷ []

close-Leaves_example :
    let (failed, c', w') =
      close demo_nats half_stuck
        (record { conn = tt; subs = half_stuck; closed = false })
        (doubting 0) in
    Leaves demo_nats half_stuck
      (record { conn = tt; subs = half_stuck; closed = false })
      (doubting 0)
      failed
      c'
      w'
close-Leaves_example =
    close-Leaves demo_nats half_stuck (record { conn = tt; subs = half_stuck; closed = false })
      (doubting 0) refl (λ topic there. there)

served :
    (m : Message ℕ)
    → ok (incoming complete "order") ≡ ok m
    → IsServed demo_postgres controller (step_of refuse (some salvage)) m
served m e =
    subst
      (λ (r : Result (Message ℕ)). elim r as (λ _. Type 0) [
        | ok k ↦ IsServed demo_postgres controller (step_of refuse (some salvage)) k
        | err x ↦ Unit
      ])
      e (saving-IsServed complete)

on_message-Delivers_example :
    Received demo_nats demo_postgres controller
      (step_of refuse (some salvage))
      (of_meta (incoming complete "order").meta)
      (doubting 1)
      (on_message demo_nats serve (of_meta (incoming complete "order").meta) (doubting 1))
on_message-Delivers_example =
    on_message-Delivers demo_nats demo_postgres controller (step_of refuse (some salvage))
      (of_meta (incoming complete "order").meta) (doubting 1) served

-- The answer of the step "booking" on its way to a step that refuses it and saves it.
booked-IsServed :
    IsServed demo_postgres controller
      (step_of refuse (some salvage))
      (with_origin complete "booking" (incoming complete "order"))
booked-IsServed =
    let like = saving-IsServed complete in
    record {
      dedup = record {
        writes_postgres = like.dedup.writes_postgres;
        claims_postgres = like.dedup.claims_postgres;
        from_a_step = λ e. ground (arith, str_eq_iff "booking" "");
      };
      infra = like.infra;
      user = like.user;
      action = like.action;
      undo = like.undo;
      handler = like.handler;
      undo_handler = like.undo_handler;
    }

decoded :
    IsDecoded demo_nats demo_postgres controller
      (step_of refuse (some salvage))
      (with_origin complete "booking" (incoming complete "order"))
decoded bytes e =
    subst
      (λ (r : Result Json). elim r as (λ _. Type 0) [
        | ok b ↦ unmarshal_demo b ≡ ok (with_origin complete "booking" (incoming complete "order"))
        | err x ↦ Unit
      ])
      e refl

next_step_receives_example :
    (bytes : Json) × (demo_nats.conn_publish tt "paid" bytes (doubting 0) ≡ (none, doubting 0))
    × Arrives demo_nats demo_postgres controller
        (step_of refuse (some salvage))
        (with_origin complete "booking" (incoming complete "order"))
        bytes
unfolding publish from_saga_to_outbox_message from_outbox_to_saga_message ◌>>=◌ wrapping
next_step_receives_example =
    next_step_receives demo_nats demo_postgres controller (step_of refuse (some salvage))
      open_client tt (incoming complete "order")
      (with_origin complete "booking" (incoming complete "order")) "paid" "booking" execute
      booked_row (doubting 0) (record (doubting 0) { clock = 1 }) (doubting 0) (doubting 0)
      record {
        meta_bytes = λ b e. refl;
        meta_back = λ b e. ground arith;
        payload_back = λ b e. ground arith;
      }
      refl refl decoded booked-IsServed refl
