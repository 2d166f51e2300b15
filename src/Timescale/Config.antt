-- ===== src/Timescale/Config.antt =====
-- formulatel/internal/timescale/config.go: the configuration of persist and its validation.
use formulatel.Common.{ℕ, ◌&&◌, ◌||◌, ◌==◌, Option, none, some, if◌then◌else◌}
use formulatel.Common.Int.{ℤ}
use formulatel.Text.{Text}
use formulatel.F123.Config.{is_empty}

-- `FlushInterval` is in nanoseconds.
pub record Config : Type 0 where
  pub timescale_dsn : Text
  pub db_user : Text
  pub db_password : Text
  pub db_host : Text
  pub db_port : ℕ
  pub db_name : Text
  pub mqtt_broker : Text
  pub mqtt_client_id : Text
  pub batch_size : ℤ
  pub flush_interval : ℤ

pub data ConfigError : Type 0 where
  invalid_config : ConfigError

unfoldable pub validate : Config → Option ConfigError
validate c =
    if is_empty c.timescale_dsn
      && (is_empty c.db_user
          || (is_empty c.db_password
              || (is_empty c.db_host || (is_empty c.db_name || c.db_port == 0))))
    then some invalid_config
    else none
