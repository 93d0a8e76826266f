-- ===== src/Device/Registers.antt =====
-- The server reads the registration that the device sends (`buildRegBody`).
use server_jt.Base.{
  ℕ, zero, suc, ◌-◌, ◌≤◌, ◌≡◌, refl, ap, ◌∙◌, [], ◌∷◌, ◌++◌, arith, length, take, replicate,
  length-append, length-replicate, length-drop,
}
use server_jt.Base.Text.{ascii}
use server_jt.Protocol.Types.{Bytes}
use server_jt.Protocol.Location.{decoded}
use server_jt.Protocol.Registration.{decode_registration, null_trimmed}
use server_jt.Protocol.Registration.Trim.{null_trimmed-padded}
use server_jt.Protocol.Registration.Layouts.{decode_registration_standard}
use server_jt.Device.{pad_right, dev_id, build_reg_body}

take_all : (n : ℕ) (s : Bytes) → length s ≤ n → take n s ≡ s
take_all zero [] h = refl
take_all zero (b ∷ s) h = absurd (omega arith)
take_all (suc n) [] h = refl
take_all (suc n) (b ∷ s) h = ap (λ t. b ∷ t) (take_all n s (omega arith))

pad_right_short :
    (s : Bytes) (n : ℕ) → length s ≤ n → pad_right s n ≡ s ++ replicate (n - length s) 0
unfolding pad_right
pad_right_short s n h = ap (λ t. t ++ replicate (n - length s) 0) (take_all n s h)

length-pad_right : (s : Bytes) (n : ℕ) → length s ≤ n → length (pad_right s n) ≡ n
length-pad_right s n h =
    ap length (pad_right_short s n h)
    ∙ omega (
      arith,
      length-append s (replicate (n - length s) 0),
      length-replicate {A = ℕ} (n - length s) 0,
    )

null_trimmed-pad_right :
    (s : Bytes) (n : ℕ) → length s ≤ n → null_trimmed (pad_right s n) ≡ null_trimmed s
null_trimmed-pad_right s n h =
    ap null_trimmed (pad_right_short s n h) ∙ null_trimmed-padded s (n - length s)

length-dev_id : (imei : Bytes) → length (dev_id imei) ≤ 7
unfolding dev_id
length-dev_id imei = ground (arith, length-drop (length imei - 7) imei)

-- `DecodeRegistration` of what the device sends: province, city, manufacturer, the model, the last
-- seven characters of its number and the plate, trimmed, if the model has at most 20 bytes.
pub decode_registration-build_reg_body :
    (imei model : Bytes)
    → length model ≤ 20
    → decode_registration (build_reg_body imei model)
      ≡ decoded (record {
        province_id = 6;
        city_id = 1;
        manuf_id = null_trimmed (ascii "SIMCO");
        device_model = null_trimmed model;
        device_id = null_trimmed (dev_id imei);
        plate_color = 2;
        plate_number = null_trimmed (ascii "P901");
      })
unfolding build_reg_body
decode_registration-build_reg_body imei model h =
    decode_registration_standard 6 1 2 (pad_right (ascii "SIMCO") 5) (pad_right model 20)
      (pad_right (dev_id imei) 7) (ascii "P901") (omega arith) (omega arith)
      (length-pad_right (ascii "SIMCO") 5 (omega arith))
      (length-pad_right (dev_id imei) 7 (length-dev_id imei)) (length-pad_right model 20 h)
    ∙ rw
        (
          null_trimmed-pad_right (ascii "SIMCO") 5 (omega arith),
          null_trimmed-pad_right model 20 h,
          null_trimmed-pad_right (dev_id imei) 7 (length-dev_id imei),
        )
        refl
