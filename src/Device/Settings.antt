-- ===== src/Device/Settings.antt =====
-- device/p901/main.go: `loadConfig`, `defaultState` and `loadState`. A floating point number is a
-- value of `F`; `float m d` is the literal with the digits `m`, `d` of them behind the point.
-- `parse_float`, `parse_duration` and `unmarshal` are Go's.
use server_jt.Base.{ℕ, ◌≡◌, refl, Bool, Option, none, some, [], if◌then◌else◌, Bool-cases, inl, inr}
use mathlib.Core.Option.{map}
use server_jt.Base.Int.{ℤ}
use server_jt.Base.Text.{ascii, same}
use server_jt.Protocol.Types.{Bytes}
use server_jt.Configuration.{env_str, env_duration, seconds}

-- `deviceConfig`.
pub record DeviceConfig (F : Type 0) : Type 0 where
  pub imei : Bytes
  pub server_addr : Bytes
  pub location_interval : ℤ
  pub heartbeat_interval : ℤ
  pub state_file : Bytes
  pub device_model : Bytes
  pub initial_lat : F
  pub initial_lon : F
  pub initial_heading : F
  pub initial_speed : F
  pub initial_battery : F
  pub debug : Bool

-- The struct `State`, with the time in seconds.
pub record DeviceState (F : Type 0) : Type 0 where
  pub latitude : F
  pub longitude : F
  pub heading : F
  pub speed : F
  pub battery : F
  pub altitude : ℕ
  pub saved_at : ℕ

module _ {F : Type 0} (float : ℕ → ℕ → F) (parse_float : Bytes → Option F) where
  unfoldable pub env_float : (Bytes → Bytes) → Bytes → F → F
  env_float env key def =
      if same (env key) [] then def else elim (parse_float (env key)) [ none ↦ def | some x ↦ x ]

  settings : (Bytes → Bytes) → (Bytes → Option ℤ) → DeviceConfig F
  settings env parse_duration = record {
    imei = env (ascii "DEVICE_IMEI");
    server_addr = env_str env (ascii "SERVER_ADDR") (ascii "jt808:7018");
    location_interval = env_duration env parse_duration (ascii "LOCATION_INTERVAL") (seconds 30);
    heartbeat_interval = env_duration env parse_duration (ascii "HEARTBEAT_INTERVAL") (seconds 60);
    state_file = env_str env (ascii "STATE_FILE") (ascii "/data/state.json");
    device_model = env_str env (ascii "DEVICE_MODEL") (ascii "P901");
    initial_lat = env_float env (ascii "INITIAL_LAT") (float 315204 4);
    initial_lon = env_float env (ascii "INITIAL_LON") (float 743587 4);
    initial_heading = env_float env (ascii "INITIAL_HEADING") (float 450 1);
    initial_speed = env_float env (ascii "INITIAL_SPEED") (float 400 1);
    initial_battery = env_float env (ascii "INITIAL_BATTERY") (float 1000 1);
    debug = same (env (ascii "APP_DEBUG")) (ascii "true");
  }

  -- `none` is the exit with status 1.
  unfoldable pub load_config : (Bytes → Bytes) → (Bytes → Option ℤ) → Option (DeviceConfig F)
  unfolding settings
  load_config env parse_duration =
      if same (env (ascii "DEVICE_IMEI")) [] then none else some (settings env parse_duration)

module _ {F : Type 0} where
  unfoldable pub default_state : DeviceConfig F → ℕ → DeviceState F
  default_state cfg now = record {
    latitude = cfg.initial_lat;
    longitude = cfg.initial_lon;
    heading = cfg.initial_heading;
    speed = cfg.initial_speed;
    battery = cfg.initial_battery;
    altitude = 220;
    saved_at = now;
  }

  -- `file` is the content of the state file, if it can be read.
  unfoldable pub load_state :
      (Bytes → Option (DeviceState F)) → Option Bytes → DeviceConfig F → ℕ → DeviceState F
  load_state unmarshal none cfg now = default_state cfg now
  load_state unmarshal (some file) cfg now = elim (unmarshal file) [
    | none ↦ default_state cfg now
    | some s ↦ s
  ]

-- The device starts exactly if it has a number, and then under that number.
pub load_config-imei :
    {F : Type 0} (float : ℕ → ℕ → F) (parse_float : Bytes → Option F) (env : Bytes → Bytes)
    (parse_duration : Bytes → Option ℤ)
    → map (λ (c : DeviceConfig F). c.imei) (load_config float parse_float env parse_duration)
      ≡ (if same (env (ascii "DEVICE_IMEI")) [] then none else some (env (ascii "DEVICE_IMEI")))
unfolding load_config settings
load_config-imei float parse_float env parse_duration =
    elim (Bool-cases (same (env (ascii "DEVICE_IMEI")) [])) [
      | inl e ↦ rw e refl
      | inr e ↦ rw e refl
    ]
