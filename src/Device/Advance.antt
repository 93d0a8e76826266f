-- ===== src/Device/Advance.antt =====
-- device/p901/main.go: `advanceState` over an interface to floating point numbers. The random
-- numbers and `LocationInterval.Seconds()` are arguments.
use server_jt.Base.{
  ℕ, ◌+◌, ◌-◌, ◌%◌, ◌≤◌, ◌<◌, ◌≡◌, ap, Bool, false, arith, ltb, if◌then◌else◌, Bool-cases, inl, inr,
}
use server_jt.Base.Int.{ℤ, pos, negsuc}
use server_jt.Device.Settings.{DeviceState}
use server_jt.Device.State.{next_altitude, next_altitude-range}

-- What the code uses of `float64` and `math`. `literal m d` has the digits `m`, `d` of them behind
-- the point. A comparison is a test, which fails on a NaN; whole
-- numbers below 2^53 are represented exactly.
pub record Floats (F : Type 0) : Type 0 where
  pub add : F → F → F
  pub sub : F → F → F
  pub mul : F → F → F
  pub div : F → F → F
  pub mod_of : F → F → F
  pub cos : F → F
  pub sin : F → F
  pub pi : F
  pub literal : ℕ → ℕ → F
  pub less : F → F → Bool
  pub less_irrefl : (x : F) → less x x ≡ false
  pub less-literal :
      (m n : ℕ)
      → m < 9007199254740992
      → n < 9007199254740992
      → less (literal m 0) (literal n 0) ≡ ltb m n

-- The conversion of an `int` to a `uint16`.
to_u16 : ℤ → ℕ
to_u16 (pos n) = n % 65536
to_u16 (negsuc n) = 65535 - n % 65536

module _ {F : Type 0} (fl : Floats F) where
  num : ℕ → F
  num n = fl.literal n 0

  unfoldable pub clamp_f : F → F → F → F
  clamp_f v lo hi = if fl.less v lo then lo else if fl.less hi v then hi else v

  radians : F → F
  unfolding num
  radians degrees = fl.div (fl.mul degrees fl.pi) (num 180)

  drain : F → F
  unfolding num
  drain battery =
      let left = fl.sub battery (fl.literal 5 2) in if fl.less left (num 5) then num 5 else left

  unfoldable pub advance_state : F → F → F → ℕ → DeviceState F → DeviceState F
  unfolding num radians drain to_u16
  advance_state seconds turn change random s =
      let dt = fl.div seconds (num 3600) in
      let turned = fl.add s.heading (fl.sub (fl.mul turn (num 24)) (num 12)) in
      let heading = fl.mod_of (fl.add turned (num 360)) (num 360) in
      let speed =
        clamp_f (fl.add s.speed (fl.sub (fl.mul change (num 10)) (num 5))) (num 10) (num 90) in
      let distance = fl.mul speed dt in
      let latitude =
        fl.add s.latitude (fl.div (fl.mul distance (fl.cos (radians heading))) (num 111)) in
      let longitude = fl.add s.longitude (
        fl.div (fl.mul distance (fl.sin (radians heading)))
          (fl.mul (num 111) (fl.cos (radians latitude)))) in
      record {
        latitude = latitude;
        longitude = longitude;
        heading = heading;
        speed = speed;
        battery = drain s.battery;
        altitude = to_u16 (next_altitude s.altitude random);
        saved_at = s.saved_at;
      }

  clamp_f-range :
      (v lo hi : F)
      → fl.less hi lo ≡ false
      → (fl.less (clamp_f v lo hi) lo ≡ false) × (fl.less hi (clamp_f v lo hi) ≡ false)
  unfolding clamp_f
  clamp_f-range v lo hi h = elim (Bool-cases (fl.less v lo)) [
    | inl e ↦ rw e (fl.less_irrefl lo, h)
    | inr e ↦ elim (Bool-cases (fl.less hi v)) [
      | inl k ↦ rw (e, k) (h, fl.less_irrefl hi)
      | inr k ↦ rw (e, k) (e, k)
    ]
  ]

  drain-range : (battery : F) → fl.less (drain battery) (num 5) ≡ false
  unfolding drain
  drain-range battery =
      let left = fl.sub battery (fl.literal 5 2) in
      elim (Bool-cases (fl.less left (num 5))) [
        | inl e ↦ rw e (fl.less_irrefl (num 5))
        | inr e ↦ rw e e
      ]

  -- Whatever the random numbers and the state before are, a step leaves a speed that is not below
  -- 10 and not above 90 km/h, a battery that is not below 5 percent, and an altitude between 180
  -- and 300 metres, which moves by two metres at most from one that lies there.
  pub advance_state-ranges :
      (seconds turn change : F) (random : ℕ) (s : DeviceState F)
      → random < 5
      → let s' = advance_state seconds turn change random s in
        (fl.less s'.speed (fl.literal 10 0) ≡ false)
        × (fl.less (fl.literal 90 0) s'.speed ≡ false)
        × (fl.less s'.battery (fl.literal 5 0) ≡ false)
        × (180 ≤ s'.altitude)
        × (s'.altitude ≤ 300)
        × (180 ≤ s.altitude
            → s.altitude ≤ 300
            → (s'.altitude ≤ s.altitude + 2) × (s.altitude ≤ s'.altitude + 2))
  unfolding advance_state num to_u16
  advance_state-ranges seconds turn change random s h =
      let speed =
        clamp_f-range (fl.add s.speed (fl.sub (fl.mul change (num 10)) (num 5))) (num 10) (num 90)
          (fl.less-literal 90 10 (omega arith) (omega arith)) in
      let level = next_altitude-range s.altitude random h in
      let fits = ap to_u16 level.1 in
      (
        speed.0,
        speed.1,
        drain-range s.battery,
        omega (arith, fits, level.2, level.3),
        omega (arith, fits, level.2, level.3),
        λ lo hi. (
          omega (arith, fits, level.2, level.3, (level.4 lo hi).0),
          omega (arith, fits, level.2, level.3, (level.4 lo hi).1),
        ),
      )
