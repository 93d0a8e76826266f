-- ===== src/Forwarder/Entry.antt =====
-- The published entry: alarms, coordinates and battery.
use server_jt.Base.{
  ℕ, ◌/◌, ◌≤◌, ◌≡◌, ◌⊎◌, Option, none, some, List, [], ◌∷◌, arith, Bool, false, ◌||◌, if◌then◌else◌,
}
use native.Mathlib.Nat.{le_refl}
use server_jt.Base.Bits.{bit_and-le}
use server_jt.Base.Text.{ascii, same}
use server_jt.Protocol.Types.{
  Bytes, alarm_sos, alarm_overspeed, alarm_low_battery, alarm_power_off, alarm_vibration,
}
use server_jt.Protocol.Location.{LocationReport, has_flag}
use server_jt.Forwarder.{active_alarm_names, active_among, location_entry, code_percent}
use server_jt.Forwarder.Battery.{extract_battery-IsPercent}

pub has_name : Bytes → List Bytes → Bool
has_name n [] = false
has_name n (m ∷ ms) = same n m || has_name n ms

-- Each of the five alarms is named exactly when its bit is set.
pub active_alarm_names_lem :
    (flags : ℕ)
    → (has_name (ascii "sos") (active_alarm_names flags) ≡ has_flag flags alarm_sos)
      × (has_name (ascii "overspeed") (active_alarm_names flags) ≡ has_flag flags alarm_overspeed)
      × (has_name (ascii "low_battery") (active_alarm_names flags)
          ≡ has_flag flags alarm_low_battery)
      × (has_name (ascii "power_failure") (active_alarm_names flags)
          ≡ has_flag flags alarm_power_off)
      × (has_name (ascii "vibration") (active_alarm_names flags) ≡ has_flag flags alarm_vibration)
unfolding active_alarm_names active_among has_name same
active_alarm_names_lem flags =
    (ground arith, ground arith, ground arith, ground arith, ground arith)

-- Coordinates are published exactly for a report with a fix.
pub location_entry_coordinates :
    (now : ℕ) (phone : Bytes) (loc : LocationReport)
    → let e = location_entry now phone loc in
      (e.latitude ≡ (if loc.gps_fixed then some loc.latitude else none))
      × (e.longitude ≡ (if loc.gps_fixed then some loc.longitude else none))
unfolding location_entry
location_entry_coordinates now phone loc = (ground arith, ground arith)

abbrev pub IsAtMost : ℕ → Option ℕ → Type 0
IsAtMost bound none = Unit {0}
IsAtMost bound (some n) = n ≤ bound

code_percent-IsAtMost : (flags : ℕ) → IsAtMost 375 (code_percent flags)
unfolding code_percent
code_percent-IsAtMost flags =
    ground (arith, bit_and-le (flags / 65536) (flags / 65536) 0x0f (le_refl _))

-- A published level from the items is at most 100. A level from the status flags is published only
-- without it, and is at most 375, the largest that the four bits of the code allow.
pub location_entry_battery :
    (now : ℕ) (phone : Bytes) (loc : LocationReport)
    → let e = location_entry now phone loc in
      IsAtMost 100 e.battery_level
      × IsAtMost 375 e.battery_from_flags
      × ((e.battery_level ≡ none) ⊎ (e.battery_from_flags ≡ none))
unfolding location_entry
location_entry_battery now phone loc =
    ground (arith, extract_battery-IsPercent loc.extras, code_percent-IsAtMost loc.status_flags)
