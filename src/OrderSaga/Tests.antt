-- ===== src/OrderSaga/Tests.antt =====
-- The example in the small world, whose first commit takes place but reports an error.
use cliros.Prelude.{◌≡◌, refl, true, false, none, some}
use cliros.Effect.{ok}
use cliros.Message.{empty_message}
use cliros.Database.{postgres, new_db_context, new_db_context_with_db, get_sql_placeholder}
use cliros.Executor
use cliros.Controller.{Controller, start_saga}
use cliros.Controller.Startup.{new, reader_of, executor_of, tracer_name_of}
use cliros.Demo.{demo, exec_demo, update_demo}
use cliros.Outbox.{qualified_outbox_table}
use cliros.Outbox.Writer.{insert_query}
use cliros.Outbox.Reader.{update_on_success_query, update_on_err_query}
use cliros.Demo.Laws.{demo_postgres}
use cliros.Demo.Saga.{booked_row, doubting, empty_tables}
use cliros.Demo.Whole.{whole}
use cliros.OrderSaga.{Program, order_params, order_config}
use cliros.OrderSaga.Orders.{OrdersApart, OrderEnds}
use cliros.OrderSaga.Start.{start_saga-OrderEnds}
use cliros.Database.{int}

abbrev program : Program demo
program = record {
  float64 = whole;
  blank = booked_row;
  background = tt;
  open_db = λ driver source w. (none, w);
  close_db = λ w. w;
  text_any = λ s. 0;
  amount = 99;
  arg_of = λ o. int 99;
}

abbrev made : Controller demo
made = record {
  executor = record {
    writer = postgres;
    inbox = some postgres;
    infra_retrier = (order_config demo program).infra_retry;
    metrics = false;
    tracing_enabled = false;
    tracer_name = "saga";
    tracer = none;
  };
  reader =
      reader_of demo whole booked_row (order_config demo program)
        (record { db = true; dialect = postgres });
  dialect = postgres;
  metrics = false;
  tracing_enabled = false;
  tracer = none;
  tracer_name = "saga";
}

new-order_config : new demo whole booked_row (some (order_config demo program)) ≡ ok made
unfolding new executor_of Executor.new tracer_name_of order_config new_db_context
    new_db_context_with_db
new-order_config = refl

orders-OrdersApart : OrdersApart demo_postgres program
unfolding exec_demo update_demo insert_query update_on_success_query update_on_err_query
    qualified_outbox_table get_sql_placeholder
orders-OrdersApart = record { keeps_inbox = λ ctx tx w. refl; keeps_outbox = λ ctx tx w. refl }

start_saga-OrderEnds_example :
    let (r, w) = start_saga demo made tt (order_params demo program) empty_message (doubting 1) in
    OrderEnds demo_postgres program empty_tables w.main r
start_saga-OrderEnds_example =
    start_saga-OrderEnds demo_postgres program made tt (doubting 1) orders-OrdersApart
      new-order_config
