-- ===== src/Forwarder.antt =====
-- server/internal/forwarder/stream.go: the fields of a stream entry. Redis, JSON texts of payloads
-- and the clock are outside; the time of publication is an argument.
pub mod Battery
pub mod Entry
pub mod Json
pub mod Publish
use server_jt.Base.{
  ℕ, ◌+◌, ◌-◌, ◌*◌, ◌/◌, ◌%◌, Bool, true, false, ◌&&◌, Option, none, some, List, [], ◌∷◌, ◌++◌,
  bit_and, leb, ltb, ◌==◌, if◌then◌else◌, length, get_or,
}
use server_jt.Base.Int.{ℤ, pos, negsuc, sub_ℕ, scale, quot, is_negative, exceeds}
use server_jt.Base.Text.{ascii}
use server_jt.Protocol.Types.{
  Bytes, alarm_sos, alarm_overspeed, alarm_low_battery, alarm_power_off, alarm_vibration,
}
use server_jt.Protocol.Extras.{Extras, lookup}
use Json.{extras_to_json}
use server_jt.Protocol.Location.{LocationReport, Degrees, has_flag}

bool_int : Bool → ℕ
bool_int true = 1
bool_int false = 0

-- The loop of `extractBattery` over the three percentage items.
first_percent : List ℕ → Extras → Option ℕ
first_percent [] extras = none
first_percent (id ∷ ids) extras =
    let later = first_percent ids extras in
    elim (lookup id extras) [
      | none ↦ later
      | some raw ↦
          if leb 1 (length raw) && leb (get_or raw 0 0) 100 then some (get_or raw 0 0) else later
    ]

clamp_percent : ℤ → ℤ
clamp_percent pct = if is_negative pct then pos 0 else if exceeds pct 100 then pos 100 else pct

-- The item 0x25: millivolts of the battery.
voltage_percent : Option Bytes → ℤ
voltage_percent none = negsuc 0
voltage_percent (some raw) =
    if leb 2 (length raw)
    then clamp_percent (quot (scale (sub_ℕ (get_or raw 0 0 * 256 + get_or raw 1 0) 3400) 100) 800)
    else negsuc 0

pub extract_battery : Extras → ℤ
extract_battery extras = elim (first_percent (0xeb ∷ 0x63 ∷ 0x64 ∷ []) extras) [
  | some pct ↦ pos pct
  | none ↦ voltage_percent (lookup 0x25 extras)
]

signal_percent : Option Bytes → ℤ
signal_percent none = negsuc 0
signal_percent (some raw) =
    if leb 1 (length raw)
    then pos ((if ltb 31 (get_or raw 0 0) then 31 else get_or raw 0 0) * 100 / 31)
    else negsuc 0

pub extract_signal : Extras → ℤ
extract_signal extras = signal_percent (lookup 0x30 extras)

abbrev pub mappings : List (ℕ × Bytes)
mappings =
    (alarm_sos, ascii "sos")
    ∷ (alarm_overspeed, ascii "overspeed")
    ∷ (alarm_low_battery, ascii "low_battery")
    ∷ (alarm_power_off, ascii "power_failure")
    ∷ (alarm_vibration, ascii "vibration")
    ∷ []

unfoldable pub active_among : List (ℕ × Bytes) → ℕ → List Bytes
active_among [] flags = []
active_among ((bit, name) ∷ ms) flags =
    let later = active_among ms flags in if has_flag flags bit then name ∷ later else later

unfoldable pub active_alarm_names : ℕ → List Bytes
active_alarm_names flags = active_among mappings flags

-- `json.Marshal` of names that need no escaping.
pub json_items : List Bytes → Bytes
json_items [] = []
json_items (n ∷ []) = b'"' ∷ (n ++ b'"' ∷ [])
json_items (n ∷ m ∷ ns) = b'"' ∷ (n ++ b'"' ∷ b',' ∷ json_items (m ∷ ns))

-- What is published for a location; `none` is a key that is left out.
pub record StreamEntry : Type 0 where
  pub event : Bytes
  pub phone : Bytes
  pub timestamp : Bytes
  pub altitude : ℕ
  pub speed : ℕ
  pub direction : ℕ
  pub gps_fixed : ℕ
  pub acc_on : ℕ
  pub alarm_flags : ℕ
  pub status_flags : ℕ
  pub published_at : ℕ
  pub latitude : Option Degrees
  pub longitude : Option Degrees
  pub battery_level : Option ℕ
  pub battery_from_flags : Option ℕ
  pub signal_strength : Option ℕ
  pub active_alarms : Bytes
  pub extras : Option Bytes

when_fixed : Bool → Degrees → Option Degrees
when_fixed true d = some d
when_fixed false d = none

non_negative : ℤ → Option ℕ
non_negative (pos n) = some n
non_negative (negsuc n) = none

-- The battery code of the status bits 16 to 19.
code_percent : ℕ → Option ℕ
code_percent flags =
    let code = bit_and (flags / 65536) 0x0f in if ltb 0 code then some (code * 25) else none

flags_battery : ℤ → ℕ → Option ℕ
unfolding code_percent
flags_battery (pos n) flags = none
flags_battery (negsuc n) flags = code_percent flags

alarms_text : List Bytes → Bytes
alarms_text [] = ascii "[]"
alarms_text (n ∷ ns) = b'[' ∷ (json_items (n ∷ ns) ++ b']' ∷ [])

some_extras : Extras → Option Bytes
some_extras [] = none
some_extras (x ∷ xs) = some (extras_to_json (x ∷ xs))

unfoldable pub location_entry : ℕ → Bytes → LocationReport → StreamEntry
unfolding bool_int when_fixed non_negative flags_battery alarms_text some_extras
location_entry now phone loc = record {
  event = ascii "location";
  phone = phone;
  timestamp = loc.timestamp;
  altitude = loc.altitude;
  speed = loc.speed;
  direction = loc.direction;
  gps_fixed = bool_int loc.gps_fixed;
  acc_on = bool_int loc.acc_on;
  alarm_flags = loc.alarm_flags;
  status_flags = loc.status_flags;
  published_at = now;
  latitude = when_fixed loc.gps_fixed loc.latitude;
  longitude = when_fixed loc.gps_fixed loc.longitude;
  battery_level = non_negative (extract_battery loc.extras);
  battery_from_flags = flags_battery (extract_battery loc.extras) loc.status_flags;
  signal_strength = non_negative (extract_signal loc.extras);
  active_alarms = alarms_text (active_alarm_names loc.alarm_flags);
  extras = some_extras loc.extras;
}
