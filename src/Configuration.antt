-- ===== src/Configuration.antt =====
-- server/internal/config/config.go: the settings from the environment. `env` is `os.Getenv`, which
-- gives an empty text for a variable that is not set. `parse_duration` is `time.ParseDuration`, which
-- computes fractions in floating point, and `hostname` what `os.Hostname` returns.
pub mod Numbers
use server_jt.Base.{
  ℕ, ◌*◌, Bool, true, false, not, Option, none, some, List, [], ◌∷◌, ◌++◌, if◌then◌else◌,
}
use server_jt.Base.Int.{ℤ, pos}
use server_jt.Base.Numbers.{parse_int, parse_bool}
use server_jt.Base.Text.{ascii, same}
use server_jt.Protocol.Types.{Bytes}

-- Durations are nanoseconds.
pub record Config : Type 0 where
  pub tcp_addr : Bytes
  pub redis_addr : Bytes
  pub redis_password : Bytes
  pub redis_db : ℤ
  pub redis_pool_size : ℤ
  pub stream_key : Bytes
  pub stream_max_len : ℤ
  pub session_prefix : Bytes
  pub auth_token_prefix : Bytes
  pub online_z_key : Bytes
  pub cmd_channel : Bytes
  pub auth_timeout : ℤ
  pub heartbeat_timeout : ℤ
  pub write_timeout : ℤ
  pub db_enabled : Bool
  pub db_host : Bytes
  pub db_port : Bytes
  pub db_user : Bytes
  pub db_password : Bytes
  pub db_name : Bytes
  pub db_device_type_id : ℤ
  pub db_devices_table : Bytes
  pub db_imei_column : Bytes
  pub db_broadcast_column : Bytes
  pub db_status_column : Bytes
  pub db_type_id_column : Bytes
  pub db_name_column : Bytes
  pub db_notes_column : Bytes
  pub db_created_at_column : Bytes
  pub db_updated_at_column : Bytes
  pub http_addr : Bytes
  pub debug : Bool
  pub server_id : Bytes

unfoldable pub my_sql_dsn : Config → Bytes
my_sql_dsn c =
    c.db_user
    ++ b':'
      ∷ (c.db_password
          ++ (ascii "@tcp("
              ++ (c.db_host
                  ++ b':'
                    ∷ (c.db_port
                        ++ (ascii ")/"
                            ++ (c.db_name
                                ++ ascii
                                    "?parseTime=true&timeout=5s&readTimeout=5s&writeTimeout=5s"))))))

abbrev pub seconds : ℕ → ℤ
seconds n = pos (n * 1000000000)

module _ (env : Bytes → Bytes) where
  unfoldable pub env_str : Bytes → Bytes → Bytes
  env_str key def = if same (env key) [] then def else env key

  unfoldable pub env_bool : Bytes → Bool → Bool
  env_bool key def =
      if same (env key) [] then def else elim (parse_bool (env key)) [ none ↦ def | some b ↦ b ]

  -- `envInt` and `envInt64`, an `int` having 64 bits.
  unfoldable pub env_int : Bytes → ℤ → ℤ
  env_int key def =
      if same (env key) [] then def else elim (parse_int (env key)) [ none ↦ def | some n ↦ n ]

  unfoldable pub env_duration : (Bytes → Option ℤ) → Bytes → ℤ → ℤ
  env_duration parse_duration key def =
      if same (env key) [] then def else elim (parse_duration (env key)) [ none ↦ def | some d ↦ d ]

  unfoldable pub load : (Bytes → Option ℤ) → Bytes → Config
  load parse_duration hostname = record {
    tcp_addr = env_str (ascii "JT808_TCP_ADDR") (ascii ":7018");
    redis_addr =
        env_str (ascii "REDIS_HOST") (ascii "redis")
        ++ b':' ∷ env_str (ascii "REDIS_PORT") (ascii "6379");
    redis_password = env_str (ascii "REDIS_PASSWORD") [];
    redis_db = env_int (ascii "REDIS_JT808_DB") (pos 0);
    redis_pool_size = env_int (ascii "REDIS_POOL_SIZE") (pos 100);
    stream_key = env_str (ascii "STREAM_KEY") (ascii "jt808:telemetry");
    stream_max_len = env_int (ascii "STREAM_MAX_LEN") (pos 100000);
    session_prefix = env_str (ascii "SESSION_PREFIX") (ascii "jt808:session:");
    auth_token_prefix = env_str (ascii "AUTH_TOKEN_PREFIX") (ascii "jt808:authtoken:");
    online_z_key = env_str (ascii "ONLINE_Z_KEY") (ascii "jt808:online");
    cmd_channel = env_str (ascii "CMD_CHANNEL") (ascii "jt808:cmd:");
    auth_timeout = env_duration parse_duration (ascii "AUTH_TIMEOUT") (seconds 30);
    heartbeat_timeout = env_duration parse_duration (ascii "HEARTBEAT_TIMEOUT") (seconds 180);
    write_timeout = env_duration parse_duration (ascii "WRITE_TIMEOUT") (seconds 10);
    db_enabled = env_bool (ascii "DB_ENABLED") (not (same (env (ascii "DB_HOST")) []));
    db_host = env_str (ascii "DB_HOST") (ascii "mysql");
    db_port = env_str (ascii "DB_PORT") (ascii "3306");
    db_user = env_str (ascii "DB_USERNAME") (ascii "laravel");
    db_password = env_str (ascii "DB_PASSWORD") [];
    db_name = env_str (ascii "DB_DATABASE") (ascii "laravel");
    db_device_type_id = env_int (ascii "DB_DEVICE_TYPE_ID") (pos 1);
    db_devices_table = env_str (ascii "DB_DEVICES_TABLE") (ascii "devices");
    db_imei_column = env_str (ascii "DB_IMEI_COLUMN") (ascii "imei");
    db_broadcast_column = env_str (ascii "DB_BROADCAST_COLUMN") (ascii "broadcast_id");
    db_status_column = env_str (ascii "DB_STATUS_COLUMN") (ascii "status");
    db_type_id_column = env_str (ascii "DB_TYPE_ID_COLUMN") (ascii "device_type_id");
    db_name_column = env_str (ascii "DB_NAME_COLUMN") (ascii "name");
    db_notes_column = env_str (ascii "DB_NOTES_COLUMN") (ascii "notes");
    db_created_at_column = env_str (ascii "DB_CREATED_AT_COLUMN") (ascii "created_at");
    db_updated_at_column = env_str (ascii "DB_UPDATED_AT_COLUMN") (ascii "updated_at");
    http_addr = env_str (ascii "JT808_HTTP_ADDR") (ascii ":9090");
    debug = same (env_str (ascii "APP_DEBUG") (ascii "false")) (ascii "true");
    server_id = env_str (ascii "SERVER_ID") hostname;
  }
