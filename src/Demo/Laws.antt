-- ===== src/Demo/Laws.antt =====
-- The small world keeps the promises of a PostgreSQL database.
use cliros.Prelude.{
  ℕ, zero, suc, ◌≡◌, refl, ap, String, true, inl, inr, Option, none, some, List, [], ◌∷◌, map,
  Among, arith, str_eq, str_eq_iff, Bool-cases,
}
use cliros.Errors.{Error}
use cliros.Effect.{Result, ok, err}
use cliros.Database.{postgres, Query, Value}
use cliros.Inbox.{claim_query_postgres, postgres_claim}
use cliros.Outbox.Reader.{update_on_success_query, update_on_err_query}
use cliros.Outbox.Writer.{insert_query}
use cliros.Store.{OutboxRow, row_key, new_row, with_claim, with_rows, insert_args, Postgres}
use cliros.Demo.{
  Json, DemoWorld, has_claim, has_row, insert_demo, mark_demo, delay_demo, update_demo, exec_demo,
  row_of, claim_demo, query_row_demo, commit_demo, demo,
}

Among-has_claim :
    (k : String × String) (l : List (String × String)) → Among k l → has_claim k l ≡ true
unfolding has_claim
Among-has_claim k [] h = absurd h
Among-has_claim k (j ∷ js) (inl e) = ground (
  arith,
  str_eq_iff k.0 j.0,
  str_eq_iff k.1 j.1,
  ap (λ (x : String × String). x.0) e,
  ap (λ (x : String × String). x.1) e,
)
Among-has_claim k (j ∷ js) (inr h) = ground (arith, Among-has_claim k js h)

has_claim-Among :
    (k : String × String) (l : List (String × String)) → has_claim k l ≡ true → Among k l
unfolding has_claim
has_claim-Among k [] h = cc
has_claim-Among k (j ∷ js) h = elim (Bool-cases (has_claim k js)) [
  | inl there ↦ inr (has_claim-Among k js there)
  | inr absent ↦ inl (ground (arith, str_eq_iff k.0 j.0, str_eq_iff k.1 j.1))
]

Among-has_row :
    (u topic phase : String) (rows : List (OutboxRow String Json))
    → Among (u, topic, phase) (map row_key rows)
    → has_row u topic phase rows ≡ true
unfolding has_row
Among-has_row u topic phase [] h = absurd h
Among-has_row u topic phase (row ∷ rows) (inl e) =
    ground
      (arith, str_eq_iff u row.saga_id, str_eq_iff topic row.topic, str_eq_iff phase row.saga_type)
Among-has_row u topic phase (row ∷ rows) (inr h) =
    ground (arith, Among-has_row u topic phase rows h)

pub commit_demo_ok :
    (n : ℕ) (w : DemoWorld) → (commit_demo n w).0 ≡ ok tt → (commit_demo n w).1.main ≡ w.work
commit_demo_ok zero w h = refl
commit_demo_ok (suc n) w h = refl

pub commit_demo_err : (n : ℕ) (w : DemoWorld) → (commit_demo n w).1.main ≡ w.work
commit_demo_err zero w = refl
commit_demo_err (suc n) w = refl

insert_demo_main :
    (row : Option (OutboxRow String Json)) (w : DemoWorld) → (insert_demo row w).1.main ≡ w.main
unfolding insert_demo
insert_demo_main none w = refl
insert_demo_main (some row) w = ground arith

mark_demo_main :
    (args : List (Value String Json)) (w : DemoWorld) → (mark_demo args w).1.main ≡ w.main
unfolding mark_demo
mark_demo_main args w = ground arith

delay_demo_main :
    (args : List (Value String Json)) (w : DemoWorld) → (delay_demo args w).1.main ≡ w.main
unfolding delay_demo
delay_demo_main args w = ground arith

update_demo_main : (q : Query String Json) (w : DemoWorld) → (update_demo q w).1.main ≡ w.main
unfolding update_demo
update_demo_main q w = elim (Bool-cases (str_eq q.sql (update_on_success_query postgres))) [
  | inl success ↦ rw success (mark_demo_main q.args w)
  | inr other ↦ elim (Bool-cases (str_eq q.sql (update_on_err_query postgres))) [
    | inl failure ↦ rw (other, failure) (delay_demo_main q.args w)
    | inr unknown ↦ rw (other, unknown) refl
  ]
]

pub exec_demo_main : (q : Query String Json) (w : DemoWorld) → (exec_demo q w).1.main ≡ w.main
unfolding exec_demo
exec_demo_main q w = elim (Bool-cases (str_eq q.sql (insert_query postgres))) [
  | inl insert ↦ rw insert (insert_demo_main (row_of q.args) w)
  | inr other ↦ rw other (update_demo_main q w)
]

claim_demo_main :
    (args : List (Value String Json)) (w : DemoWorld) → (claim_demo args w).1.main ≡ w.main
unfolding claim_demo
claim_demo_main args w = ground arith

pub query_row_demo_main :
    (q : Query String Json) (w : DemoWorld) → (query_row_demo q w).1.main ≡ w.main
unfolding query_row_demo
query_row_demo_main q w = elim (Bool-cases (str_eq q.sql (claim_query_postgres postgres))) [
  | inl claim ↦ rw claim (claim_demo_main q.args w)
  | inr other ↦ rw other
]

module _ (u step topic phase : String) (created scheduled : ℕ) (meta pay : Json) (w : DemoWorld)
    {n : Result ℕ}
    (done : (exec_demo (insert_args u step topic phase created scheduled meta pay) w).0
      ≡ ok n) where
  pub exec_demo_insert :
      (exec_demo (insert_args u step topic phase created scheduled meta pay) w).1.work
      ≡ with_rows (new_row u step topic phase created scheduled meta pay ∷ []) w.work
  unfolding exec_demo
  exec_demo_insert = ground arith

  pub exec_demo_key : ¬ Among (u, topic, phase) (map row_key w.work.outbox)
  unfolding exec_demo
  exec_demo_key there = ground (arith, Among-has_row u topic phase w.work.outbox there)

module _ (u step : String) (w : DemoWorld) where
  pub claim_demo_ok :
      {v : String}
      → (query_row_demo (postgres_claim demo postgres u step) w).0 ≡ ok v
      → ¬ Among (u, step) w.work.inbox
  unfolding query_row_demo
  claim_demo_ok e there = ground (arith, Among-has_claim (u, step) w.work.inbox there)

  pub claim_demo_pending :
      {v : String}
      → (query_row_demo (postgres_claim demo postgres u step) w).0 ≡ ok v
      → (query_row_demo (postgres_claim demo postgres u step) w).1.work
        ≡ with_claim (u, step) w.work
  unfolding query_row_demo
  claim_demo_pending e = ground arith

  pub claim_demo_no_rows :
      {x : Error}
      → (query_row_demo (postgres_claim demo postgres u step) w).0 ≡ err x
      → Among (u, step) w.work.inbox
  unfolding query_row_demo
  claim_demo_no_rows e = has_claim-Among (u, step) w.work.inbox (ground arith)

abbrev pub demo_postgres : Postgres demo
demo_postgres = record {
  Other = ℕ;
  committed = λ w. w.main;
  pending = λ tx w. w.work;
  begin_committed = λ ctx w. refl;
  begin_pending = λ ctx w tx e. refl;
  rollback_committed = λ tx w. refl;
  commit_ok = λ tx w e. commit_demo_ok w.doubts w e;
  commit_err = λ tx w x e. inr (commit_demo_err w.doubts w);
  exec_committed = λ ctx tx q w. exec_demo_main q w;
  query_row_committed = λ ctx tx q w. query_row_demo_main q w;
  insert_ok = λ ctx tx u step topic phase a b meta pay w n e.
      exec_demo_insert u step topic phase a b meta pay w e;
  insert_key = λ ctx tx u step topic phase a b meta pay w n e.
      exec_demo_key u step topic phase a b meta pay w e;
  claim_ok = λ ctx tx u step w v e. claim_demo_ok u step w e;
  claim_pending = λ ctx tx u step w v e. claim_demo_pending u step w e;
  claim_no_rows = λ ctx tx u step w x e no_row. claim_demo_no_rows u step w e;
  poll_outside = λ ctx w. refl;
  await_outside = λ ctx d w. refl;
  now_committed = λ w. refl;
  now_pending = λ tx w. refl;
  new_v7_outside = λ w. refl;
  saga_started_outside = λ w. refl;
  start_span_outside = λ ctx tr name kind attributes w. refl;
  record_error_outside = λ span e w. refl;
  set_error_status_outside = λ span e w. refl;
  end_span_outside = λ span w. refl;
  steps_total_outside = λ step operation status w. refl;
  step_duration_outside = λ step operation d w. refl;
}
