-- ===== src/Protocol/Location/Text.antt =====
-- The time stamp's text.
use server_jt.Base.{ℕ, ◌+◌, ◌*◌, ◌/◌, ◌%◌, ◌<◌, ◌≡◌, [], ◌∷◌, arith}
use server_jt.Base.Bits.{low_nibble}
use server_jt.Protocol.Types.{Bytes}
use server_jt.Protocol.Location.{parse_bcd_timestamp, stamp_digits}

-- The BCD form of a number below 100, and its two digits.
abbrev bcd : ℕ → ℕ
bcd n = n / 10 * 16 + n % 10

abbrev pub IsTwoDigits : ℕ → Type 0
IsTwoDigits n = n < 100

digits_of :
    (n : ℕ) (vs : Bytes)
    → IsTwoDigits n
    → stamp_digits (bcd n ∷ vs) ≡ (48 + n / 10) ∷ (48 + n % 10) ∷ stamp_digits vs
unfolding stamp_digits
digits_of n vs h = ground (arith, low_nibble (bcd n / 16), low_nibble (bcd n))

-- Year, month, day, hour, minute and second in BCD become `20YY-MM-DDTHH:mm:ssZ`.
pub parse_bcd_timestamp_lem :
    (yy mm dd hh mi ss : ℕ)
    → IsTwoDigits yy
    → IsTwoDigits mm
    → IsTwoDigits dd
    → IsTwoDigits hh
    → IsTwoDigits mi
    → IsTwoDigits ss
    → parse_bcd_timestamp (bcd yy ∷ bcd mm ∷ bcd dd ∷ bcd hh ∷ bcd mi ∷ bcd ss ∷ [])
      ≡ 50
        ∷ 48
        ∷ (48 + yy / 10)
        ∷ (48 + yy % 10)
        ∷ 45
        ∷ (48 + mm / 10)
        ∷ (48 + mm % 10)
        ∷ 45
        ∷ (48 + dd / 10)
        ∷ (48 + dd % 10)
        ∷ 84
        ∷ (48 + hh / 10)
        ∷ (48 + hh % 10)
        ∷ 58
        ∷ (48 + mi / 10)
        ∷ (48 + mi % 10)
        ∷ 58
        ∷ (48 + ss / 10)
        ∷ (48 + ss % 10)
        ∷ 90
        ∷ []
unfolding parse_bcd_timestamp
parse_bcd_timestamp_lem yy mm dd hh mi ss h1 h2 h3 h4 h5 h6 = rw (
  digits_of yy (bcd mm ∷ bcd dd ∷ bcd hh ∷ bcd mi ∷ bcd ss ∷ []) h1,
  digits_of mm (bcd dd ∷ bcd hh ∷ bcd mi ∷ bcd ss ∷ []) h2,
  digits_of dd (bcd hh ∷ bcd mi ∷ bcd ss ∷ []) h3,
  digits_of hh (bcd mi ∷ bcd ss ∷ []) h4,
  digits_of mi (bcd ss ∷ []) h5,
  digits_of ss [] h6,
)
