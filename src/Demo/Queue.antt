-- ===== src/Demo/Queue.antt =====
-- The small world keeps the promises of the reader's statements.
use cliros.Prelude.{
  ℕ, ◌≡◌, refl, String, true, ◌&&◌, inl, inr, List, [], ◌∷◌, arith, str_eq, str_eq_iff, Bool-cases,
}
use cliros.Database.{Query}
use cliros.Store.{OutboxRow, row_key}
use cliros.Store.Queue.{Pointwise, Updates, Marks, Delays, Queue, success_args, err_args}
use cliros.Demo.{
  Json, DemoWorld, change_rows, query_demo, mark_demo, delay_demo, update_demo, exec_demo,
}
use cliros.Demo.Laws.{demo_postgres}

change_rows-Pointwise :
    (R : OutboxRow String Json → OutboxRow String Json → Type 0)
    (f : OutboxRow String Json → OutboxRow String Json) (u topic phase : String)
    → ((row : OutboxRow String Json) → row_key row ≡ (u, topic, phase) → R row (f row))
    → ((row : OutboxRow String Json) → R row row)
    → (rows : List (OutboxRow String Json)) → Pointwise R rows (change_rows f u topic phase rows)
unfolding change_rows
change_rows-Pointwise R f u topic phase changed same [] = tt
change_rows-Pointwise R f u topic phase changed same (row ∷ rows) =
    let rest = change_rows-Pointwise R f u topic phase changed same rows in
    elim (Bool-cases
      (str_eq row.saga_id u && (str_eq row.topic topic && str_eq row.saga_type phase))) [
        | inl e ↦ rw (change_rows, e) (changed row (found row e), rest)
        | inr e ↦ rw (change_rows, e) (same row, rest)
      ]
  where
    found :
        (r : OutboxRow String Json)
        → (str_eq r.saga_id u && (str_eq r.topic topic && str_eq r.saga_type phase)) ≡ true
        → row_key r ≡ (u, topic, phase)
    found r e =
        ground
          (arith, e, str_eq_iff r.saga_id u, str_eq_iff r.topic topic, str_eq_iff r.saga_type phase)

pub exec_demo-Marks :
    (u topic phase : String) (at : ℕ) (w : DemoWorld)
    → Updates
        (Marks (u, topic, phase) at)
        w.work
        (exec_demo (success_args u topic phase at) w).1.work
unfolding exec_demo update_demo mark_demo
exec_demo-Marks u topic phase at w = record {
  rows =
      change_rows-Pointwise (Marks (u, topic, phase) at) _ u topic phase (λ row is. inl (is, refl))
        (λ row. inr refl) w.work.outbox;
  same_inbox = refl;
  same_other = refl;
}

pub exec_demo-Delays :
    (u topic phase : String) (last next : ℕ) (w : DemoWorld)
    → Updates
        (Delays (u, topic, phase) last next)
        w.work
        (exec_demo (err_args u topic phase last next) w).1.work
unfolding exec_demo update_demo delay_demo
exec_demo-Delays u topic phase last next w = record {
  rows =
      change_rows-Pointwise (Delays (u, topic, phase) last next) _ u topic phase
        (λ row is. inl (is, refl)) (λ row. inr refl) w.work.outbox;
  same_inbox = refl;
  same_other = refl;
}

pub query_demo_main : (q : Query String Json) (w : DemoWorld) → (query_demo q w).1.main ≡ w.main
query_demo_main q w = ground arith

abbrev pub demo_queue : Queue demo_postgres
demo_queue = record {
  query_outside = λ ctx q w. query_demo_main q w;
  publish_outside = λ ctx topic m w. refl;
  try_send_outside = λ e w. refl;
  mark_ok = λ ctx tx u topic phase at n w done. exec_demo-Marks u topic phase at w;
  delay_ok = λ ctx tx u topic phase last next w done. exec_demo-Delays u topic phase last next w;
}
