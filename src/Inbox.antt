-- ===== src/Inbox.antt =====
-- internal/inbox (inbox.go, table.go): the claim of an incoming message by its key (saga_id,
-- from_step), in the transaction that handles it.
pub mod Claims
mod Tests
use Prim.Native.String.{◌++◌}
use cliros.Prelude.{String, [], ◌∷◌, ◌==◌, if◌then◌else◌}
use cliros.Errors.{Error, wrap, leaf, duplicate, is_no_rows}
use cliros.Retry.{as_retryable}
use cliros.Effect.{Io, pure, fail, ◌>>=◌, wrapping}
use cliros.Message.{Message}
use cliros.Database.{
  SqlDialect, postgres, mysql, other_dialect, Query, text, uuid, get_sql_placeholder,
}
use cliros.Env.{Env}

-- `qualifiedInboxTable`
unfoldable pub qualified_inbox_table : SqlDialect → String
qualified_inbox_table postgres = "public.inbox"
qualified_inbox_table _ = "inbox"

-- `buildInsertClaimQueryPostgres`
unfoldable pub claim_query_postgres : SqlDialect → String
unfolding qualified_inbox_table get_sql_placeholder
claim_query_postgres d =
    "\nINSERT INTO "
    ++ qualified_inbox_table d
    ++ " (saga_id, from_step) VALUES ("
    ++ get_sql_placeholder d 1
    ++ ", "
    ++ get_sql_placeholder d 2
    ++ ")\nON CONFLICT (saga_id, from_step) DO NOTHING\nRETURNING saga_id"

-- `buildInsertClaimQueryMySQL`
unfoldable pub claim_query_mysql : SqlDialect → String
unfolding qualified_inbox_table get_sql_placeholder
claim_query_mysql d =
    "\nINSERT INTO "
    ++ qualified_inbox_table d
    ++ " (saga_id, from_step) VALUES ("
    ++ get_sql_placeholder d 1
    ++ ", "
    ++ get_sql_placeholder d 2
    ++ ")\nON DUPLICATE KEY UPDATE from_step = VALUES(from_step)"

-- The error of `claimPostgres`: no row came back if the key was there.
unfoldable pub postgres_error : Error → Error
unfolding as_retryable
postgres_error e = if is_no_rows e then duplicate else as_retryable (wrap "inbox claim" e)

module _ (env : Env) where
  open env use {World, Ctx, Tx, Any, Uuid, Bytes, parse_uuid, uuid_string, exec, query_row}

  abbrev pub postgres_claim : SqlDialect → Uuid → String → Query Uuid Bytes
  postgres_claim d id from_step = record {
    sql = claim_query_postgres d;
    args = uuid id ∷ text from_step ∷ [];
  }

  abbrev pub mysql_claim : SqlDialect → Uuid → String → Query Uuid Bytes
  mysql_claim d id from_step = record {
    sql = claim_query_mysql d;
    args = text (uuid_string id) ∷ text from_step ∷ [];
  }

  -- `claimPostgres`
  unfoldable pub claim_postgres : SqlDialect → Ctx → Tx → Uuid → String → Io World (Unit {0})
  claim_postgres d ctx tx id from_step = do
    out ← wrapping postgres_error (query_row ctx tx (postgres_claim d id from_step))
    pure tt

  -- `claimMySQL`
  unfoldable pub claim_mysql : SqlDialect → Ctx → Tx → Uuid → String → Io World (Unit {0})
  unfolding as_retryable
  claim_mysql d ctx tx id from_step = do
    result ←
        wrapping (λ e. as_retryable (wrap "inbox claim" e))
          (exec ctx tx (mysql_claim d id from_step))
    affected ← wrapping (λ e. as_retryable (wrap "inbox claim rows affected" e)) (λ w. (result, w))
    if affected == 2 then fail duplicate else pure tt

  claim_by : SqlDialect → Ctx → Tx → Uuid → String → Io World (Unit {0})
  unfolding claim_postgres claim_mysql
  claim_by postgres = claim_postgres postgres
  claim_by mysql = claim_mysql mysql
  claim_by (other_dialect d) = λ _ _ _ _. fail (leaf ("inbox: unsupported dialect " ++ d))

  -- `Inbox.Claim`
  unfoldable pub claim : SqlDialect → Ctx → Tx → Message Any → Io World (Unit {0})
  unfolding claim_by
  claim d ctx tx msg = do
    id ← wrapping (wrap "inbox claim: invalid saga_id") (λ w. (parse_uuid msg.saga_id, w))
    claim_by d ctx tx id msg.from_step
