-- ===== src/Device/Reports.antt =====
-- The server reads the location that the device sends (`buildLocationBody`), and its battery.
use server_jt.Base.{ℕ, ◌<◌, ◌≤◌, ◌≡◌, refl, ap, ◌∙◌, Bool, true, false, [], ◌∷◌, arith}
use Prim.Native.Nat.{min}
use server_jt.Base.Int.{ℤ, pos, negsuc}
use server_jt.Protocol.Types.{
  IsU16, status_lat_south, status_lon_west, status_located, status_acc_on,
}
use server_jt.Protocol.Extras.{read_extras, tlv_loop, insert, lookup}
use server_jt.Protocol.Location.{
  LocationReport, decoded, decode_location, has_flag, parse_bcd_timestamp,
}
use server_jt.Protocol.Location.Wire.{Fix, location_body, report_of, decode_location-location_body}
use server_jt.Forwarder.{extract_battery}
use server_jt.Forwarder.Battery.{extract_battery_percent}
use server_jt.Device.{
  Position, Clock, bcd_timestamp, byte_of, clamp, sent_flags, build_location_body,
}

-- The report that the device means.
abbrev pub meant : Position → Clock → ℕ → LocationReport
meant p t csq = record {
  alarm_flags = 0;
  status_flags = sent_flags p.latitude.negative p.longitude.negative;
  latitude = p.latitude;
  longitude = p.longitude;
  altitude = p.altitude;
  speed = p.speed;
  direction = p.heading;
  timestamp = parse_bcd_timestamp (bcd_timestamp t);
  gps_fixed = true;
  acc_on = true;
  extras = (0xeb, byte_of (clamp p.battery 0 100) ∷ []) ∷ (0x30, csq ∷ []) ∷ [];
}

flags_read :
    (south west : Bool)
    → (has_flag (sent_flags south west) status_lat_south ≡ south)
      × (has_flag (sent_flags south west) status_lon_west ≡ west)
      × (has_flag (sent_flags south west) status_located ≡ true)
      × (has_flag (sent_flags south west) status_acc_on ≡ true)
      × (sent_flags south west < 16)
unfolding has_flag sent_flags
flags_read true true = (refl, refl, refl, refl, omega arith)
flags_read true false = (refl, refl, refl, refl, omega arith)
flags_read false true = (refl, refl, refl, refl, omega arith)
flags_read false false = (refl, refl, refl, refl, omega arith)

items_read :
    (battery csq : ℕ)
    → read_extras (0xeb ∷ 1 ∷ battery ∷ 0x30 ∷ 1 ∷ csq ∷ [])
      ≡ (0xeb, battery ∷ []) ∷ (0x30, csq ∷ []) ∷ []
unfolding read_extras tlv_loop insert
items_read battery csq = refl

abbrev fix_of : Position → Clock → Fix
fix_of p t = record {
  alarm = 0;
  status = sent_flags p.latitude.negative p.longitude.negative;
  lat = p.latitude.micro;
  lon = p.longitude.micro;
  alt = p.altitude;
  tenths = p.speed;
  heading = p.heading;
  stamp = bcd_timestamp t;
}

-- `DecodeLocation` of what the device sends is the report that it means, with its hemispheres, its
-- battery and its signal.
pub decode_location-build_location_body :
    (p : Position) (t : Clock) (csq : ℕ)
    → p.latitude.micro < 4294967296
    → p.longitude.micro < 4294967296
    → IsU16 p.altitude
    → IsU16 p.speed
    → IsU16 p.heading
    → decode_location (build_location_body p t csq) ≡ decoded (meant p t csq)
unfolding build_location_body location_body report_of bcd_timestamp
decode_location-build_location_body p t csq hlat hlon halt hspeed hhead =
    let flags = flags_read p.latitude.negative p.longitude.negative in
    decode_location-location_body (fix_of p t)
      (0xeb ∷ 1 ∷ byte_of (clamp p.battery 0 100) ∷ 0x30 ∷ 1 ∷ csq ∷ [])
      (record {
        alarm_fits = omega arith;
        status_fits = omega (arith, flags.4);
        lat_fits = hlat;
        lon_fits = hlon;
        alt_fits = halt;
        tenths_fits = hspeed;
        heading_fits = hhead;
        stamp_fits = refl;
      })
    ∙ rw (flags.0, flags.1, flags.2, flags.3, items_read (byte_of (clamp p.battery 0 100)) csq) refl

pub clamp_percent : (v : ℤ) → (n : ℕ) × (clamp v 0 100 ≡ pos n) × (n ≤ 100)
unfolding clamp
clamp_percent (pos n) = (min n 100, ground arith, omega arith)
clamp_percent (negsuc n) = (0, refl, omega arith)

-- The level that the stream publishes for it is the battery, brought between 0 and 100.
pub extract_battery-meant :
    (p : Position) (t : Clock) (csq : ℕ)
    → extract_battery (meant p t csq).extras ≡ clamp p.battery 0 100
unfolding lookup byte_of
extract_battery-meant p t csq =
    let (n, e, le) = clamp_percent p.battery in
    extract_battery_percent (meant p t csq).extras (byte_of (clamp p.battery 0 100)) [] refl
      (rw e (omega arith))
    ∙ rw e (ap pos (omega arith))
