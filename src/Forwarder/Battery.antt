-- ===== src/Forwarder/Battery.antt =====
-- The ranges of the battery and signal percentages, and the voltage formula.
use server_jt.Base.{
  ℕ, ◌+◌, ◌-◌, ◌*◌, ◌/◌, ◌≤◌, ◌≡◌, ◌⊎◌, inl, inr, refl, Option, none, some, List, [], ◌∷◌, arith,
  Option-cases,
}
use Prim.Native.Nat.{min}
use server_jt.Base.Int.{ℤ, pos, negsuc}
use server_jt.Protocol.Types.{Bytes}
use server_jt.Protocol.Extras.{Extras, lookup}
use server_jt.Forwarder.{
  first_percent, voltage_percent, clamp_percent, extract_battery, signal_percent, extract_signal,
}

-- -1, or a number of at most 100.
abbrev pub IsPercent : ℤ → Type 0
IsPercent v = (v ≡ negsuc 0) ⊎ ((n : ℕ) × (v ≡ pos n) × (n ≤ 100))

first_percent-le :
    (ids : List ℕ) (extras : Extras) (n : ℕ) → first_percent ids extras ≡ some n → n ≤ 100
unfolding first_percent
first_percent-le [] extras n h = cc
first_percent-le (id ∷ ids) extras n h = ground (arith, first_percent-le ids extras n)

voltage_percent_lem :
    (hi lo : ℕ) (r : Bytes)
    → voltage_percent (some (hi ∷ lo ∷ r)) ≡ pos (min 100 ((hi * 256 + lo - 3400) / 8))
unfolding voltage_percent clamp_percent
voltage_percent_lem hi lo r = ground arith

voltage_percent-IsPercent : (o : Option Bytes) → IsPercent (voltage_percent o)
unfolding voltage_percent
voltage_percent-IsPercent none = inl refl
voltage_percent-IsPercent (some []) = inl refl
voltage_percent-IsPercent (some (a ∷ [])) = inl refl
voltage_percent-IsPercent (some (a ∷ b ∷ r)) =
    inr (min 100 ((a * 256 + b - 3400) / 8), voltage_percent_lem a b r, omega arith)

-- `extractBattery` returns -1 or a percentage between 0 and 100, whatever the items hold.
pub extract_battery-IsPercent : (extras : Extras) → IsPercent (extract_battery extras)
unfolding extract_battery
extract_battery-IsPercent extras =
    elim (Option-cases (first_percent (0xeb ∷ 0x63 ∷ 0x64 ∷ []) extras)) [
      | inl e ↦ rw (e, extract_battery) (voltage_percent-IsPercent (lookup 0x25 extras))
      | inr (n, e) ↦ rw (e, extract_battery) (inr (n, refl, first_percent-le _ extras n e))
    ]

signal_percent-IsPercent : (o : Option Bytes) → IsPercent (signal_percent o)
unfolding signal_percent
signal_percent-IsPercent none = inl refl
signal_percent-IsPercent (some []) = inl refl
signal_percent-IsPercent (some (a ∷ r)) = inr (min a 31 * 100 / 31, ground arith, omega arith)

-- `extractSignal` returns -1 or a percentage between 0 and 100.
pub extract_signal-IsPercent : (extras : Extras) → IsPercent (extract_signal extras)
unfolding extract_signal
extract_signal-IsPercent extras = signal_percent-IsPercent (lookup 0x30 extras)

-- With no percentage item, a voltage item gives one percent for each 8 mV above 3400 mV, from 0 at
-- or below 3400 mV to 100 at or above 4200 mV.
pub extract_battery_voltage :
    (extras : Extras) (hi lo : ℕ) (r : Bytes)
    → lookup 0xeb extras ≡ none
    → lookup 0x63 extras ≡ none
    → lookup 0x64 extras ≡ none
    → lookup 0x25 extras ≡ some (hi ∷ lo ∷ r)
    → extract_battery extras ≡ pos (min 100 ((hi * 256 + lo - 3400) / 8))
unfolding extract_battery first_percent
extract_battery_voltage extras hi lo r h1 h2 h3 h4 = ground (arith, voltage_percent_lem hi lo r)

-- A percentage in the item 0xEB is taken before all others.
pub extract_battery_percent :
    (extras : Extras) (b : ℕ) (r : Bytes)
    → lookup 0xeb extras ≡ some (b ∷ r)
    → b ≤ 100
    → extract_battery extras ≡ pos b
unfolding extract_battery first_percent
extract_battery_percent extras b r h le = ground arith
