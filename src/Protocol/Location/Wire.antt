-- ===== src/Protocol/Location/Wire.antt =====
-- `DecodeLocation` against the layout of the report's body.
use server_jt.Base.{ℕ, ◌+◌, ◌<◌, ◌≡◌, ◌↔◌, false, ◌++◌, arith, ltb, length, length-append}
use server_jt.Protocol.Types.{
  Bytes, IsU16, status_acc_on, status_located, status_lat_south, status_lon_west,
}
use server_jt.Protocol.Reader.{
  put_u16, read_u16-put_u16, read_bytes-append, put_u32, read_u32-put_u32,
}
use server_jt.Protocol.Extras.{read_extras}
use server_jt.Protocol.Location.{
  LocationReport, decoded, body_too_short, decode_location, has_flag, parse_bcd_timestamp,
}

-- The fields as the device sends them.
pub record Fix : Type 0 where
  pub alarm : ℕ
  pub status : ℕ
  pub lat : ℕ
  pub lon : ℕ
  pub alt : ℕ
  pub tenths : ℕ
  pub heading : ℕ
  pub stamp : Bytes

pub record IsFix (x : Fix) : Type 0 where
  pub alarm_fits : x.alarm < 4294967296
  pub status_fits : x.status < 4294967296
  pub lat_fits : x.lat < 4294967296
  pub lon_fits : x.lon < 4294967296
  pub alt_fits : IsU16 x.alt
  pub tenths_fits : IsU16 x.tenths
  pub heading_fits : IsU16 x.heading
  pub stamp_fits : length x.stamp ≡ 6

-- The body of a 0x0200 message: 28 bytes and the additional items.
unfoldable pub location_body : Fix → Bytes → Bytes
location_body x items =
    put_u32 x.alarm
    ++ (put_u32 x.status
        ++ (put_u32 x.lat
            ++ (put_u32 x.lon
                ++ (put_u16 x.alt
                    ++ (put_u16 x.tenths ++ (put_u16 x.heading ++ (x.stamp ++ items)))))))

unfoldable pub report_of : Fix → Bytes → LocationReport
report_of x items = record {
  alarm_flags = x.alarm;
  status_flags = x.status;
  latitude = record { negative = has_flag x.status status_lat_south; micro = x.lat };
  longitude = record { negative = has_flag x.status status_lon_west; micro = x.lon };
  altitude = x.alt;
  speed = x.tenths;
  direction = x.heading;
  timestamp = parse_bcd_timestamp x.stamp;
  gps_fixed = has_flag x.status status_located;
  acc_on = has_flag x.status status_acc_on;
  extras = read_extras items;
}

length-location_body :
    (x : Fix) (items : Bytes)
    → length x.stamp ≡ 6
    → length (location_body x items) ≡ 28 + length items
unfolding location_body put_u16 put_u32
length-location_body x items h = omega (arith, length-append x.stamp items)

-- The decoder reads every field of the fixed part at its offset, with the hemispheres, the fix and
-- the ignition taken from the status bits, and the items behind it.
pub decode_location-location_body :
    (x : Fix) (items : Bytes)
    → IsFix x
    → decode_location (location_body x items) ≡ decoded (report_of x items)
unfolding decode_location report_of
decode_location-location_body x items h = rw length_ok (
    unfold location_body in
    rw (
      read_u32-put_u32 x.alarm _ h.alarm_fits,
      read_u32-put_u32 x.status _ h.status_fits,
      read_u32-put_u32 x.lat _ h.lat_fits,
      read_u32-put_u32 x.lon _ h.lon_fits,
      read_u16-put_u16 x.alt _ h.alt_fits,
      read_u16-put_u16 x.tenths _ h.tenths_fits,
      read_u16-put_u16 x.heading _ h.heading_fits,
      read_bytes-append 6 x.stamp items h.stamp_fits,
    ))
  where
    length_ok : ltb (length (location_body x items)) 28 ≡ false
    length_ok = ground (arith, length-location_body x items h.stamp_fits)

-- The decoder fails exactly on bodies of fewer than 28 bytes, and reports their length.
pub decode_location_short_iff :
    (body : Bytes) (n : ℕ)
    → (decode_location body ≡ body_too_short n) ↔ ((length body < 28) × (n ≡ length body))
unfolding decode_location
decode_location_short_iff body n = ground arith
