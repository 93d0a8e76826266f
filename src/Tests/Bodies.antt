-- ===== src/Tests/Bodies.antt =====
-- Runs of the body decoders (pkg/protocol/decoder.go) and of the published entry
-- (server/internal/forwarder/stream.go).
use server_jt.Base.{ℕ, ◌≡◌, refl, List, [], ◌∷◌, ◌++◌, arith}
use server_jt.Base.Text.{ascii}
use server_jt.Protocol.Types.{Bytes}
use server_jt.Protocol.Extras.{Extras}
use server_jt.Protocol.Extras.Loop.{wire}
use server_jt.Protocol.Location.{LocationReport, decoded, decode_location}
use server_jt.Protocol.Location.Wire.{
  Fix, IsFix, location_body, report_of, decode_location-location_body,
}
use server_jt.Protocol.Registration.{decode_registration}
use server_jt.Protocol.Registration.Layouts.{
  registration_body, info_of, decode_registration_misread,
}

-- A fix in the southern hemisphere with the ignition on.
abbrev pub fix : Fix
fix = record {
  alarm = 1;
  status = 7;
  lat = 33868800;
  lon = 151209300;
  alt = 58;
  tenths = 123;
  heading = 90;
  stamp = 0x24 ∷ 0x01 ∷ 0x15 ∷ 0x12 ∷ 0x34 ∷ 0x56 ∷ [];
}

-- A mileage item, a battery item twice, and a trailer whose length overruns the body.
abbrev pub items : List (ℕ × Bytes)
items = (1, 0 ∷ 0 ∷ 1 ∷ 2 ∷ []) ∷ (0xeb, 80 ∷ []) ∷ (0xeb, 79 ∷ []) ∷ []

abbrev trailer : Bytes
trailer = 0x30 ∷ 5 ∷ 1 ∷ []

fix-IsFix : IsFix fix
fix-IsFix = record {
  alarm_fits = omega arith;
  status_fits = omega arith;
  lat_fits = omega arith;
  lon_fits = omega arith;
  alt_fits = omega arith;
  tenths_fits = omega arith;
  heading_fits = omega arith;
  stamp_fits = refl;
}

pub decode_fix :
    decode_location (location_body fix (wire items)) ≡ decoded (report_of fix (wire items))
decode_fix = decode_location-location_body fix (wire items) fix-IsFix

decode_location-location_body_example :
    decode_location (location_body fix (wire items)) ≡ decoded (report_of fix (wire items))
decode_location-location_body_example = decode_location-location_body fix (wire items) fix-IsFix

abbrev manuf : Bytes
manuf = ascii "ACME1"

abbrev model : Bytes
model = ascii "P901" ++ 0 ∷ 0 ∷ 0 ∷ 0 ∷ []

abbrev long_model : Bytes
long_model = model ++ (0 ∷ 0 ∷ 0 ∷ 0 ∷ 0 ∷ 0 ∷ 0 ∷ 0 ∷ 0 ∷ 0 ∷ 0 ∷ 0 ∷ [])

abbrev device : Bytes
device = ascii "DEV0001"

-- The plate "ABCDEFGHIJKL" on a compact body.
decode_registration_misread_example :
    decode_registration
      (registration_body 44 301 manuf model device 1 (ascii "ABCD" ++ (ascii "EFGHIJK" ++ 76 ∷ [])))
    ≡ decoded (info_of 44 301 manuf (model ++ (device ++ 1 ∷ ascii "ABCD")) (ascii "EFGHIJK") 76 [])
decode_registration_misread_example =
    decode_registration_misread 44 301 1 76 manuf model device (ascii "ABCD") (ascii "EFGHIJK") []
      (omega arith) (omega arith) refl refl refl refl refl

abbrev battery_only : Extras
battery_only = (0x25, 0x0f ∷ 0x3c ∷ []) ∷ []

abbrev report : LocationReport
report = report_of fix (wire items)
