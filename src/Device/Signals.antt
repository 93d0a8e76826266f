-- ===== src/Device/Signals.antt =====
-- device/p901/main.go: from the floating point state to the numbers of a report. `normal` is a
-- number of `rand.NormFloat64()`.
use server_jt.Base.{ℕ, ◌≤◌, ◌≡◌, refl, arith, if◌then◌else◌}
use Prim.Native.Nat.{min, max}
use server_jt.Base.Int.{ℤ, pos, negsuc}
use server_jt.Protocol.Location.{Degrees}
use server_jt.Device.{Position, Clock, clamp, byte_of}
use server_jt.Device.Run.{Report}
use server_jt.Device.Settings.{DeviceState}
use server_jt.Device.Advance.{Floats}

-- The conversions of a `float64` that the code uses.
pub record Casts (F : Type 0) : Type 0 where
  pub to_int : F → ℤ
  pub to_u16 : F → ℕ
  pub to_u32 : F → ℕ
  pub neg : F → F

module _ {F : Type 0} (fl : Floats F) (casts : Casts F) where
  unfoldable pub sim_signal : F → ℤ
  sim_signal normal =
      let noise = fl.mul normal (fl.literal 4 0) in
      clamp (casts.to_int (fl.add (fl.literal 180 1) noise)) 5 28

  -- The sign goes into a flag, and the rest is cut to micro-degrees.
  unfoldable pub degrees : F → Degrees
  degrees x =
      let negative = fl.less x (fl.literal 0 0) in
      record {
        negative = negative;
        micro = casts.to_u32 (fl.mul (if negative then casts.neg x else x) (fl.literal 1000000 0));
      }

  -- What `buildLocationBody` reads of the state.
  unfoldable pub position_of : DeviceState F → Position
  unfolding degrees
  position_of s = record {
    latitude = degrees s.latitude;
    longitude = degrees s.longitude;
    altitude = s.altitude;
    speed = casts.to_u16 (fl.mul s.speed (fl.literal 10 0));
    heading = casts.to_u16 s.heading;
    battery = casts.to_int s.battery;
  }

  unfoldable pub state_report : Clock → F → DeviceState F → Report
  unfolding position_of sim_signal
  state_report t normal s = record {
    position = position_of s;
    clock = t;
    csq = byte_of (sim_signal normal);
  }

clamp_signal : (v : ℤ) → (n : ℕ) × (clamp v 5 28 ≡ pos n) × (5 ≤ n) × (n ≤ 28)
unfolding clamp
clamp_signal (pos n) = (max 5 (min 28 n), ground arith, omega arith, omega arith)
clamp_signal (negsuc n) = (5, refl, omega arith, omega arith)

-- The signal strength of a report is between 5 and 28, whatever the random number is.
pub state_report-csq :
    {F : Type 0} (fl : Floats F) (casts : Casts F) (t : Clock) (normal : F) (s : DeviceState F)
    → (5 ≤ (state_report fl casts t normal s).csq) × ((state_report fl casts t normal s).csq ≤ 28)
unfolding state_report sim_signal byte_of
state_report-csq fl casts t normal s =
    let noise = fl.mul normal (fl.literal 4 0) in
    let (n, e, lo, hi) = clamp_signal (casts.to_int (fl.add (fl.literal 180 1) noise)) in
    rw e (omega arith, omega arith)
