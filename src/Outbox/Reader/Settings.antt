-- ===== src/Outbox/Reader/Settings.antt =====
-- internal/outbox/reader.go: the settings and the three statements of the reader.
use Prim.Native.String.{◌++◌}
use cliros.Prelude.{ℕ, ◌+◌, ◌-◌, String, if◌then◌else◌}
use cliros.Prelude.Int.{ℤ, pos, pos_part, neg_part, leb_ℤ}
use cliros.Database.{SqlDialect, get_sql_placeholder}
use cliros.Outbox.{qualified_outbox_table}

abbrev pub default_batch_size : ℤ
default_batch_size = pos 10

-- `10 * time.Second`
abbrev pub default_interval : ℤ
default_interval = pos 10000000000

abbrev pub default_max_attempts : ℤ
default_max_attempts = pos 5

-- `PollingSettings`; the interval is a duration.
pub record PollingSettings : Type 0 where
  pub interval : ℤ
  pub batch_size : ℤ
  pub max_attempts : ℤ

-- `NewPollingSettings` and `NewPollingSettingsWithMaxAttempts`
unfoldable pub new_polling_settings : ℤ → ℤ → PollingSettings
new_polling_settings interval size = record {
  interval = interval;
  batch_size = size;
  max_attempts = pos 0;
}

unfoldable pub new_polling_settings_with_max_attempts : ℤ → ℤ → ℤ → PollingSettings
new_polling_settings_with_max_attempts interval size attempts = record {
  interval = interval;
  batch_size = size;
  max_attempts = attempts;
}

-- `if n <= 0 { n = d }`
abbrev pub positive_or : ℤ → ℤ → ℤ
positive_or d n = if leb_ℤ n (pos 0) then d else n

-- `buildBatchQuery`
unfoldable pub batch_query : SqlDialect → String
unfolding qualified_outbox_table get_sql_placeholder
batch_query d =
    "\nSELECT \n\tsaga_id, step_name, topic, saga_type, created_at, scheduled_at,\n\tmetadata, payload, attempts_counter, last_attempt, processed_at\nFROM "
    ++ qualified_outbox_table d
    ++ "\nWHERE scheduled_at <= NOW()\n\tAND processed_at IS NULL\n\tAND attempts_counter < "
    ++ get_sql_placeholder d 1
    ++ "\nORDER BY created_at ASC \nLIMIT "
    ++ get_sql_placeholder d 2

-- `buildUpdateOnErrQuery`
unfoldable pub update_on_err_query : SqlDialect → String
unfolding qualified_outbox_table get_sql_placeholder
update_on_err_query d =
    "\nUPDATE "
    ++ qualified_outbox_table d
    ++ "\nSET \n\tattempts_counter = attempts_counter + 1,\n\tlast_attempt = "
    ++ get_sql_placeholder d 1
    ++ ",\n\tscheduled_at = "
    ++ get_sql_placeholder d 2
    ++ "\n\tWHERE \n\tsaga_id = "
    ++ get_sql_placeholder d 3
    ++ " \n\tAND topic = "
    ++ get_sql_placeholder d 4
    ++ "\n\tAND saga_type = "
    ++ get_sql_placeholder d 5

-- `buildUpdateOnSuccessQuery`
unfoldable pub update_on_success_query : SqlDialect → String
unfolding qualified_outbox_table get_sql_placeholder
update_on_success_query d =
    "UPDATE "
    ++ qualified_outbox_table d
    ++ " SET processed_at = "
    ++ get_sql_placeholder d 1
    ++ " WHERE saga_id = "
    ++ get_sql_placeholder d 2
    ++ " AND topic = "
    ++ get_sql_placeholder d 3
    ++ " AND saga_type = "
    ++ get_sql_placeholder d 4
    ++ ";"

-- `t.Add(d)`
abbrev pub add_duration : ℕ → ℤ → ℕ
add_duration t d = t + pos_part d - neg_part d
