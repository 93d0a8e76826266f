-- ===== src/Protocol/Location.antt =====
-- pkg/protocol/decoder.go and types.go: `DecodeLocation`, `parseBCDTimestamp` and `HasAlarm`.
-- A coordinate or a speed is the `float64` of an integer divided by a power of ten; the model keeps
-- the sign and the integer, from which the float is computed and which it determines.
pub mod Text
pub mod Wire
use server_jt.Base.{
  ℕ, ◌+◌, ◌*◌, ◌/◌, ◌%◌, Bool, true, false, not, List, [], ◌∷◌, ◌++◌, bit_and, ltb, ◌==◌,
  if◌then◌else◌, length, take, drop,
}
use server_jt.Protocol.Types.{
  Bytes, status_acc_on, status_located, status_lat_south, status_lon_west,
}
use server_jt.Protocol.Reader.{read_u16, read_u32, read_bytes}
use server_jt.Protocol.Extras.{Extras, read_extras}

-- `micro / 1e6` degrees, negated or not.
pub record Degrees : Type 0 where
  pub negative : Bool
  pub micro : ℕ

pub record LocationReport : Type 0 where
  pub alarm_flags : ℕ
  pub status_flags : ℕ
  pub latitude : Degrees
  pub longitude : Degrees
  pub altitude : ℕ
  -- In tenths of a km/h.
  pub speed : ℕ
  pub direction : ℕ
  pub timestamp : Bytes
  pub gps_fixed : Bool
  pub acc_on : Bool
  pub extras : Extras

-- The two returns of a body decoder; the error carries the length.
pub data Decoded {ℓ} (A : Type ℓ) : Type ℓ where
  decoded : A → Decoded A
  body_too_short : ℕ → Decoded A

-- `flags & mask != 0`.
unfoldable pub has_flag : ℕ → ℕ → Bool
has_flag flags mask = not (bit_and flags mask == 0)

unfoldable pub has_alarm : LocationReport → ℕ → Bool
has_alarm l mask = has_flag l.alarm_flags mask

-- The array `d` of the twelve digit characters.
stamp_digits : Bytes → Bytes
stamp_digits [] = []
stamp_digits (v ∷ vs) =
    ((b'0' + bit_and (v / 16) 0x0f) % 256) ∷ ((b'0' + bit_and v 0x0f) % 256) ∷ stamp_digits vs

slice : ℕ → ℕ → Bytes → Bytes
slice from count d = take count (drop from d)

pub parse_bcd_timestamp : Bytes → Bytes
unfolding slice
parse_bcd_timestamp b =
    let d = stamp_digits b in
    b'2'
    ∷ b'0'
    ∷ (slice 0 2 d
        ++ b'-'
          ∷ (slice 2 2 d
              ++ b'-'
                ∷ (slice 4 2 d
                    ++ b'T'
                      ∷ (slice 6 2 d
                          ++ b':' ∷ (slice 8 2 d ++ b':' ∷ (slice 10 2 d ++ b'Z' ∷ []))))))

unfoldable pub decode_location : Bytes → Decoded LocationReport
decode_location body =
    let (alarm_flags, r1) = read_u32 body in
    let (status_flags, r2) = read_u32 r1 in
    let (raw_lat, r3) = read_u32 r2 in
    let (raw_lon, r4) = read_u32 r3 in
    let (altitude, r5) = read_u16 r4 in
    let (speed, r6) = read_u16 r5 in
    let (direction, r7) = read_u16 r6 in
    let (ts_bcd, r8) = read_bytes 6 r7 in
    if ltb (length body) 28
    then body_too_short (length body)
    else decoded (record {
      alarm_flags = alarm_flags;
      status_flags = status_flags;
      latitude = record { negative = has_flag status_flags status_lat_south; micro = raw_lat };
      longitude = record { negative = has_flag status_flags status_lon_west; micro = raw_lon };
      altitude = altitude;
      speed = speed;
      direction = direction;
      timestamp = parse_bcd_timestamp ts_bcd;
      gps_fixed = has_flag status_flags status_located;
      acc_on = has_flag status_flags status_acc_on;
      extras = read_extras r8;
    })
