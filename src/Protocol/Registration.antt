-- ===== src/Protocol/Registration.antt =====
-- pkg/protocol/decoder.go: `DecodeRegistration`, `nullTrimmed` and `GenerateAuthToken`.
pub mod Trim
pub mod Layouts
use server_jt.Base.{
  ℕ, ◌+◌, Bool, true, false, ◌&&◌, ◌||◌, List, [], ◌∷◌, ◌++◌, ltb, leb, ◌==◌, if◌then◌else◌, length,
  take, drop,
}
use server_jt.Base.Text.{decimal}
use server_jt.Protocol.Types.{Bytes}
use server_jt.Protocol.Reader.{read_u8, read_u16, read_bytes}
use server_jt.Protocol.Location.{Decoded, decoded, body_too_short}

pub record RegistrationInfo : Type 0 where
  pub province_id : ℕ
  pub city_id : ℕ
  pub manuf_id : Bytes
  pub device_model : Bytes
  pub device_id : Bytes
  pub plate_color : ℕ
  pub plate_number : Bytes

is_padding : ℕ → Bool
is_padding b = b == 0x00 || b == b' '

drop_padding : ℕ → Bytes → Bytes
unfolding is_padding
drop_padding b [] = if is_padding b then [] else b ∷ []
drop_padding b (c ∷ rest) = b ∷ c ∷ rest

-- `bytes.TrimRight(b, "\x00 ")`.
pub null_trimmed : Bytes → Bytes
null_trimmed [] = []
null_trimmed (b ∷ bs) = drop_padding b (null_trimmed bs)

-- `if r.Len() >= n { … }`: a text field of `n` bytes that stays empty if the body is too short.
text_field : ℕ → Bytes → Bytes × Bytes
text_field n r =
    let (field, rest) = read_bytes n r in
    if leb n (length r) then (null_trimmed field, rest) else ([], r)

-- The length of the model field, from what is left of the body.
model_len : Bytes → ℕ
model_len r = if leb 28 (length r) then 20 else 8

pub decode_registration : Bytes → Decoded RegistrationInfo
decode_registration body =
    let (province_id, r1) = read_u16 body in
    let (city_id, r2) = read_u16 r1 in
    let (manuf_bytes, r3) = read_bytes 5 r2 in
    let (device_model, r4) = text_field (model_len r3) r3 in
    let (device_id, r5) = text_field 7 r4 in
    let (plate_color, r6) = read_u8 r5 in
    if ltb (length body) 17
    then body_too_short (length body)
    else decoded (record {
      province_id = province_id;
      city_id = city_id;
      manuf_id = null_trimmed manuf_bytes;
      device_model = device_model;
      device_id = device_id;
      plate_color = plate_color;
      plate_number = null_trimmed r6;
    })

-- `GenerateAuthToken`; a Unix time has at most 20 digits.
pub generate_auth_token : Bytes → ℕ → Bytes
generate_auth_token phone ts = phone ++ b'_' ∷ decimal 20 ts
