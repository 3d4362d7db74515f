-- ===== src/Outbox.antt =====
-- internal/outbox (message.go, table.go): a row of the outbox table.
pub mod Attempts
pub mod Writer
pub mod Rows
pub mod Reader
pub mod Scan
pub mod Progress
pub mod Marking
pub mod Publishing
pub mod Polling
pub mod Unreadable
pub mod Delivery
pub mod Transaction
pub mod Lifecycle
pub mod Work
pub mod Migrations
mod Tests
use cliros.Prelude.{ℕ, String, Option, str_eq, if◌then◌else◌}
use cliros.Database.{SqlDialect, postgres}

-- The string type `SagaType`: a constant of the package, or any other text.
pub data SagaType : Type 0 where
  execute compensate : SagaType
  other_saga : String → SagaType

-- `SagaType(text)`
unfoldable pub saga_type_of : String → SagaType
saga_type_of s =
    if str_eq s "execute"
    then execute
    else if str_eq s "compensate"
    then compensate
    else other_saga s

-- `string(sagaType)`
unfoldable pub saga_text : SagaType → String
saga_text execute = "execute"
saga_text compensate = "compensate"
saga_text (other_saga s) = s

-- `OutboxMessage`, with `U` and `B` for `uuid.UUID` and `[]byte`.
pub record OutboxMessage (U B : Type 0) : Type 0 where
  pub saga_id : U
  pub step_name : String
  pub topic : String
  pub saga_type : SagaType
  pub created_at : ℕ
  pub scheduled_at : ℕ
  pub metadata : B
  pub payload : B
  pub attempt_counter : ℕ
  pub last_attempt : Option ℕ
  pub processed_at : Option ℕ

-- `qualifiedOutboxTable`
unfoldable pub qualified_outbox_table : SqlDialect → String
qualified_outbox_table postgres = "public.outbox"
qualified_outbox_table _ = "outbox"
