-- ===== src/Protocol/Bcd.antt =====
-- The phone number codec of pkg/protocol/frame.go: `decodeBCD` and `encodeBCD`.
pub mod Runes
pub mod RoundTrip
use server_jt.Base.{
  ℕ, ◌+◌, ◌-◌, ◌*◌, ◌/◌, ◌%◌, ◌<◌, ◌≤◌, List, [], ◌∷◌, ◌++◌, bit_and, bit_or, leb, ◌==◌,
  if◌then◌else◌, get_or, set, replicate, All, length,
}
use server_jt.Protocol.Types.{Bytes}
use Runes.{runes}

-- `'0' + nibble` on a byte.
unfoldable pub digit : ℕ → Bytes
digit nibble = if nibble == 0x0f then [] else ((b'0' + nibble) % 256) ∷ []

unfoldable pub decode_bcd : Bytes → Bytes
unfolding digit
decode_bcd [] = []
decode_bcd (v ∷ vs) = digit (bit_and (v / 16) 0x0f) ++ (digit (bit_and v 0x0f) ++ decode_bcd vs)

-- `byte(ch - '0')`: the difference of the runes may be negative, and the cast takes it mod 256.
nibble_of : ℕ → ℕ
nibble_of ch = (ch + 256 - b'0') % 256

-- The loop's body.
put_nibble : Bytes → ℕ → ℕ → Bytes
unfolding nibble_of
put_nibble b i ch =
    if i % 2 == 0
    then set b (i / 2) (bit_or (nibble_of ch * 16 % 256) 0x0f)
    else set b (i / 2) (bit_or (bit_and (get_or b (i / 2) 0) 0xf0) (nibble_of ch))

bcd_loop : List (ℕ × ℕ) → Bytes → Bytes
unfolding put_nibble
bcd_loop [] b = b
bcd_loop ((i, ch) ∷ rest) b =
    let next = bcd_loop rest (put_nibble b i ch) in if leb 12 i then b else next

unfoldable pub encode_bcd : Bytes → Bytes
unfolding bcd_loop runes
encode_bcd phone = bcd_loop (runes 0 0 phone) (replicate 6 0xff)

-- What `decodeBCD` returns: at most twelve characters `'0'` to `'>'`, ten digits and five more.
abbrev pub IsPhoneChar : ℕ → Type 0
IsPhoneChar c = (48 ≤ c) × (c < 63)

abbrev pub IsPhone : Bytes → Type 0
IsPhone p = All IsPhoneChar p × (length p ≤ 12)
