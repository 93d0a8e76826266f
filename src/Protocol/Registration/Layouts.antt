-- ===== src/Protocol/Registration/Layouts.antt =====
-- `DecodeRegistration` on the body layouts that its comment names.
use server_jt.Base.{
  ℕ, ◌+◌, ◌<◌, ◌≡◌, ◌↔◌, ap, ◌∙◌, false, [], ◌∷◌, ◌++◌, arith, ltb, length, length-append,
  append_assoc,
}
use server_jt.Protocol.Types.{Bytes, IsU16}
use server_jt.Protocol.Reader.{put_u16, read_u8, read_u16-put_u16, read_bytes-append}
use server_jt.Protocol.Location.{decoded, body_too_short}
use server_jt.Protocol.Registration.{
  RegistrationInfo, decode_registration, null_trimmed, text_field, model_len,
}

text_field-append :
    (n : ℕ) (field rest : Bytes)
    → length field ≡ n
    → text_field n (field ++ rest) ≡ (null_trimmed field, rest)
unfolding text_field
text_field-append n field rest h =
    ground (arith, read_bytes-append n field rest h, length-append field rest)

text_field_missing : (n : ℕ) (r : Bytes) → length r < n → text_field n r ≡ ([], r)
unfolding text_field
text_field_missing n r h = ground arith

-- province(2), city(2), manufacturer(5), model, device id(7), plate colour(1), plate.
abbrev pub registration_body : ℕ → ℕ → Bytes → Bytes → Bytes → ℕ → Bytes → Bytes
registration_body province city manuf model device color plate =
    put_u16 province ++ (put_u16 city ++ (manuf ++ (model ++ (device ++ color ∷ plate))))

abbrev pub info_of : ℕ → ℕ → Bytes → Bytes → Bytes → ℕ → Bytes → RegistrationInfo
info_of province city manuf model device color plate = record {
  province_id = province;
  city_id = city;
  manuf_id = null_trimmed manuf;
  device_model = null_trimmed model;
  device_id = null_trimmed device;
  plate_color = color;
  plate_number = null_trimmed plate;
}

module _ (province city color : ℕ) (manuf model device plate : Bytes) (hp : IsU16 province)
    (hc : IsU16 city) (hm : length manuf ≡ 5) (hd : length device ≡ 7) where
  length-registration_body :
      length (registration_body province city manuf model device color plate)
      ≡ 17 + length model + length plate
  unfolding put_u16
  length-registration_body = omega (
    arith,
    length-append manuf (model ++ (device ++ color ∷ plate)),
    length-append model (device ++ color ∷ plate),
    length-append device (color ∷ plate),
  )

  long_enough :
      ltb (length (registration_body province city manuf model device color plate)) 17 ≡ false
  long_enough = ground (arith, length-registration_body)

  registration_with :
      (n : ℕ)
      → length model ≡ n
      → model_len (model ++ (device ++ color ∷ plate)) ≡ n
      → decode_registration (registration_body province city manuf model device color plate)
        ≡ decoded (info_of province city manuf model device color plate)
  unfolding decode_registration read_u8
  registration_with n hn hl = rw (
    long_enough,
    read_u16-put_u16 province _ hp,
    read_u16-put_u16 city _ hc,
    read_bytes-append 5 manuf (model ++ (device ++ color ∷ plate)) hm,
    hl,
    text_field-append n model (device ++ color ∷ plate) hn,
    text_field-append 7 device (color ∷ plate) hd,
  )

  rest_length : length (model ++ (device ++ color ∷ plate)) ≡ length model + 8 + length plate
  rest_length =
      omega
        (arith, length-append model (device ++ color ∷ plate), length-append device (color ∷ plate))

  -- A body with the standard 20-byte model field is read field by field, for every plate.
  pub decode_registration_standard :
      length model ≡ 20
      → decode_registration (registration_body province city manuf model device color plate)
        ≡ decoded (info_of province city manuf model device color plate)
  unfolding model_len
  decode_registration_standard hn = registration_with 20 hn (ground (arith, rest_length))

  -- A body with the compact 8-byte model field is read field by field if its plate has fewer than
  -- 12 bytes.
  pub decode_registration_compact :
      length model ≡ 8
      → length plate < 12
      → decode_registration (registration_body province city manuf model device color plate)
        ≡ decoded (info_of province city manuf model device color plate)
  unfolding model_len
  decode_registration_compact hn h = registration_with 8 hn (ground (arith, rest_length))

-- A stripped body with neither model nor plate is accepted, but its device id and plate colour are
-- taken for the model, and the device id and the colour come out empty.
pub decode_registration_stripped :
    (province city color : ℕ) (manuf device : Bytes)
    → IsU16 province
    → IsU16 city
    → length manuf ≡ 5
    → length device ≡ 7
    → decode_registration
        (put_u16 province ++ (put_u16 city ++ (manuf ++ ((device ++ color ∷ []) ++ []))))
      ≡ decoded (info_of province city manuf (device ++ color ∷ []) [] 0 [])
unfolding decode_registration read_u8 null_trimmed model_len
decode_registration_stripped province city color manuf device hp hc hm hd = rw (
  long,
  read_u16-put_u16 province _ hp,
  read_u16-put_u16 city _ hc,
  read_bytes-append 5 manuf ((device ++ color ∷ []) ++ []) hm,
  short_model,
  text_field-append 8 (device ++ color ∷ []) [] eight,
  text_field_missing 7 [] (omega arith),
)
  where
    eight : length (device ++ color ∷ []) ≡ 8
    eight = omega (arith, length-append device (color ∷ []))

    long :
        ltb
          (length (put_u16 province ++ (put_u16 city ++ (manuf ++ ((device ++ color ∷ []) ++ [])))))
          17
        ≡ false
    long =
        unfold put_u16 in
        ground (
          arith,
          eight,
          length-append manuf ((device ++ color ∷ []) ++ []),
          length-append (device ++ color ∷ []) [],
        )

    short_model : model_len ((device ++ color ∷ []) ++ []) ≡ 8
    short_model = ground (arith, eight, length-append (device ++ color ∷ []) [])

module _ (province city color c : ℕ) (manuf model device a b tail : Bytes) where
  -- A compact body whose plate has 12 bytes or more is taken for a standard one: the model swallows
  -- the device id, the plate colour and four bytes of the plate, and the device id is made of the
  -- seven bytes of the plate behind them.
  pub decode_registration_misread :
      IsU16 province
      → IsU16 city
      → length manuf ≡ 5
      → length model ≡ 8
      → length device ≡ 7
      → length a ≡ 4
      → length b ≡ 7
      → decode_registration
          (registration_body province city manuf model device color (a ++ (b ++ c ∷ tail)))
        ≡ decoded (info_of province city manuf (model ++ (device ++ color ∷ a)) b c tail)
  decode_registration_misread hp hc hm hn hd ha hb =
      ap (λ t. decode_registration (put_u16 province ++ (put_u16 city ++ (manuf ++ t)))) regroup
      ∙ decode_registration_standard province city c manuf (model ++ (device ++ color ∷ a)) b tail
          hp hc hm hb
          (omega
            (arith, length-append model (device ++ color ∷ a), length-append device (color ∷ a)))
    where
      regroup :
          model ++ (device ++ color ∷ (a ++ (b ++ c ∷ tail)))
          ≡ (model ++ (device ++ color ∷ a)) ++ (b ++ c ∷ tail)
      regroup = simp append_assoc

-- The decoder fails exactly on bodies of fewer than 17 bytes, and reports their length.
pub decode_registration_short_iff :
    (body : Bytes) (n : ℕ)
    → (decode_registration body ≡ body_too_short n) ↔ ((length body < 17) × (n ≡ length body))
unfolding decode_registration
decode_registration_short_iff body n = ground arith
