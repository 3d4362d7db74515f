-- ===== src/Inbox/Tests.antt =====
-- The theorems on claims at concrete inputs.
use cliros.Prelude.{refl, ◌≢◌, ℕ, String, [], ◌∷◌, arith}
use cliros.Errors.{duplicate}
use cliros.Effect.{Result, ok, err}
use cliros.Message.{complete}
use cliros.Database.{postgres, mysql, Query, text}
use cliros.Env.{Env}
use cliros.Inbox.{claim}
use cliros.Inbox.Claims.{Claims, claim-Within, MysqlClaims, claim-mysql_blind}
use cliros.Store.{with_claim}
use cliros.Store.Within.{Within}
use cliros.Demo.{DemoWorld, Json, demo}
use cliros.Demo.Laws.{demo_postgres}
use cliros.Demo.Saga.{incoming, empty_tables, doubting}

claim-Within_example :
    Within demo_postgres empty_tables tt
      (λ _ p. Claims demo_postgres (incoming complete "order") empty_tables p)
      (claim demo postgres tt tt (incoming complete "order"))
      (doubting 0)
claim-Within_example =
    claim-Within demo_postgres postgres tt tt (incoming complete "order") empty_tables (doubting 0)
      refl refl

-- A transaction that has claimed the message's key.
abbrev claimed_world : DemoWorld
claimed_world = record (doubting 0) { work = with_claim ("saga-1", "order") empty_tables }

-- A MySQL server under CLIENT_FOUND_ROWS.
abbrev exec_found : Query String Json → DemoWorld → Result (Result ℕ) × DemoWorld
exec_found q w = elim q.args [
  | (text u ∷ text step ∷ []) ↦ (ok (ok 1), record w { work = with_claim (u, step) w.work })
  | _ ↦ (ok (ok 1), w)
]

abbrev mysql_demo : Env
mysql_demo = record demo { exec = λ ctx tx q w. exec_found q w }

mysql_demo_claims : MysqlClaims mysql_demo
mysql_demo_claims = record {
  inbox = λ tx w. w.work.inbox;
  new_key = λ ctx tx id step w n new e. ground arith;
  old_key = λ ctx tx id step w n old e. ground arith;
}

claim-mysql_blind_example :
    (claim mysql_demo mysql tt tt (incoming complete "order") claimed_world).0 ≢ err duplicate
claim-mysql_blind_example =
    claim-mysql_blind mysql_demo_claims tt tt (incoming complete "order") claimed_world
