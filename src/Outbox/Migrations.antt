-- ===== src/Outbox/Migrations.antt =====
-- internal/outbox/migrations.go: the statements that create the two tables.
use Prim.Native.String.{◌++◌}
use cliros.Prelude.{String}

-- `PostgresOutboxMigration`
unfoldable pub postgres_outbox_migration : String
postgres_outbox_migration =
    "\n" ++ "\tCREATE TABLE IF NOT EXISTS public.outbox (\n" ++ "\t\tsaga_id \t\tUUID NOT NULL,\n"
    ++ "\t\tstep_name \t\tTEXT NOT NULL,\n" ++ "\t\ttopic \t\t\tTEXT NOT NULL, \n"
    ++ "\t\tsaga_type       TEXT NOT NULL,\n" ++ "\t\tcreated_at \t\tTIMESTAMP NOT NULL,\n"
    ++ "\t\tscheduled_at \tTIMESTAMP NOT NULL DEFAULT (CURRENT_TIMESTAMP AT TIME ZONE 'UTC'),\n"
    ++ "\t\tmetadata \t\tBYTEA,\n" ++ "\t\tpayload \t\tBYTEA NOT NULL,\n"
    ++ "\t\tattempts_counter INTEGER DEFAULT 0,\n" ++ "\t\tlast_attempt    TIMESTAMP,\n"
    ++ "\t\tprocessed_at \tTIMESTAMP,\n" ++ "\t\t\n"
    ++ "\t\tPRIMARY KEY (saga_id, topic, saga_type)\n" ++ "\t);\n" ++ "\n"
    ++ "\tCREATE INDEX IF NOT EXISTS idx_saga_outbox_step_name ON public.outbox (step_name);\n"
    ++ "\tCREATE INDEX IF NOT EXISTS idx_saga_outbox_created_at ON public.outbox (created_at);\n"
    ++ "\tCREATE INDEX IF NOT EXISTS idx_saga_outbox_scheduled_at ON public.outbox (scheduled_at);\n"
    ++ "\t"

-- `MySQLOutboxMigration`
unfoldable pub mysql_outbox_migration : String
mysql_outbox_migration =
    "\n" ++ "\tCREATE TABLE IF NOT EXISTS outbox (\n"
    ++ "\t\tsaga_id             CHAR(36) NOT NULL,\n"
    ++ "\t\tstep_name           VARCHAR(255) NOT NULL,\n"
    ++ "\t\ttopic               VARCHAR(255) NOT NULL,\n"
    ++ "\t\tsaga_type           VARCHAR(32) NOT NULL,\n"
    ++ "\t\tcreated_at          DATETIME NOT NULL,\n" ++ "\t\tscheduled_at        DATETIME,\n"
    ++ "\t\tmetadata            LONGBLOB,\n" ++ "\t\tpayload             LONGBLOB NOT NULL,\n"
    ++ "\t\tattempts_counter    INT DEFAULT 0,\n" ++ "\t\tlast_attempt        DATETIME,\n"
    ++ "\t\tprocessed_at        DATETIME,\n" ++ "\t\tPRIMARY KEY (saga_id, topic, saga_type),\n"
    ++ "\t\tINDEX idx_outbox_step_name (step_name),\n"
    ++ "\t\tINDEX idx_outbox_created_at (created_at),\n"
    ++ "\t\tINDEX idx_outbox_scheduled_at (scheduled_at)\n"
    ++ "\t) ENGINE=InnoDB DEFAULT CHARSET=utf8mb4;\n" ++ "\t"

-- `PostgresInboxMigration`
unfoldable pub postgres_inbox_migration : String
postgres_inbox_migration =
    "\n" ++ "\tCREATE TABLE IF NOT EXISTS public.inbox (\n" ++ "\t\tsaga_id   UUID NOT NULL,\n"
    ++ "\t\tfrom_step TEXT NOT NULL,\n"
    ++ "\t\tcreated_at TIMESTAMP NOT NULL DEFAULT (CURRENT_TIMESTAMP AT TIME ZONE 'UTC'),\n"
    ++ "\t\tPRIMARY KEY (saga_id, from_step)\n" ++ "\t);\n" ++ "\t"

-- `MySQLInboxMigration`
unfoldable pub mysql_inbox_migration : String
mysql_inbox_migration =
    "\n" ++ "\tCREATE TABLE IF NOT EXISTS inbox (\n" ++ "\t\tsaga_id   CHAR(36) NOT NULL,\n"
    ++ "\t\tfrom_step VARCHAR(255) NOT NULL,\n"
    ++ "\t\tcreated_at DATETIME NOT NULL DEFAULT CURRENT_TIMESTAMP,\n"
    ++ "\t\tPRIMARY KEY (saga_id, from_step)\n" ++ "\t) ENGINE=InnoDB DEFAULT CHARSET=utf8mb4;\n"
    ++ "\t"
