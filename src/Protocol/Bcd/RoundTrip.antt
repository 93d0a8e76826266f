-- ===== src/Protocol/Bcd/RoundTrip.antt =====
-- A phone number survives the BCD codec.
use server_jt.Base.{
  ℕ, zero, suc, ◌+◌, ◌-◌, ◌*◌, ◌/◌, ◌%◌, ◌<◌, ◌≤◌, ◌≡◌, refl, sym, ap, ◌∙◌, List, [], ◌∷◌, ◌++◌,
  arith, bit_and, bit_or, get_or, replicate, All, length, length-append, length-set, set-append,
  get_or-append, append_assoc,
}
use server_jt.Base.Bits.{low_nibble, high_nibble, fill_low, join_nibbles}
use server_jt.Protocol.Types.{Bytes, IsByte}
use server_jt.Protocol.Bcd.Runes.{runes, runes_ascii, numbered}
use server_jt.Protocol.Bcd.{
  decode_bcd, encode_bcd, bcd_loop, put_nibble, nibble_of, IsPhone, IsPhoneChar,
}

-- The packed form: two characters to a byte, and 0xf for a missing last one.
pack : Bytes → Bytes
pack [] = []
pack (a ∷ []) = ((a - 48) * 16 + 15) ∷ []
pack (a ∷ b ∷ r) = ((a - 48) * 16 + (b - 48)) ∷ pack r

half_index : (k : ℕ) → (k + k) / 2 ≡ k
half_index k = omega arith

half_index_odd : (k : ℕ) → suc (k + k) / 2 ≡ k
half_index_odd k = omega arith

put_first :
    (pre tl : Bytes) (a : ℕ)
    → IsPhoneChar a
    → put_nibble (pre ++ 0xff ∷ tl) (length pre + length pre) a ≡ pre ++ ((a - 48) * 16 + 15) ∷ tl
unfolding put_nibble
put_first pre tl a h =
    ground (
      arith,
      half_index (length pre),
      set-append pre 0xff ((a - 48) * 16 + 15) tl,
      fill_low (a - 48),
    )

put_second :
    (pre tl : Bytes) (v b : ℕ)
    → IsByte v
    → IsPhoneChar b
    → put_nibble (pre ++ v ∷ tl) (suc (length pre + length pre)) b
      ≡ pre ++ (v / 16 * 16 + (b - 48)) ∷ tl
unfolding put_nibble
put_second pre tl v b hv h = ground (
  arith,
  half_index_odd (length pre),
  get_or-append pre v 0 tl,
  set-append pre v (v / 16 * 16 + (b - 48)) tl,
  high_nibble v,
  join_nibbles (v / 16) (b - 48),
)

decode_padding : (n : ℕ) → decode_bcd (replicate n 0xff) ≡ []
unfolding decode_bcd
decode_padding zero = refl
decode_padding (suc n) = decode_padding n

-- One byte of two characters, and one of a character and the padding.
decode_pair :
    (a b : ℕ) (vs : Bytes)
    → IsPhoneChar a
    → IsPhoneChar b
    → decode_bcd (((a - 48) * 16 + (b - 48)) ∷ vs) ≡ a ∷ b ∷ decode_bcd vs
unfolding decode_bcd
decode_pair a b vs ha hb =
    ground
      (arith, low_nibble (((a - 48) * 16 + (b - 48)) / 16), low_nibble ((a - 48) * 16 + (b - 48)))

decode_last :
    (a : ℕ) (vs : Bytes)
    → IsPhoneChar a
    → decode_bcd (((a - 48) * 16 + 15) ∷ vs) ≡ a ∷ decode_bcd vs
unfolding decode_bcd
decode_last a vs ha =
    ground (arith, low_nibble (((a - 48) * 16 + 15) / 16), low_nibble ((a - 48) * 16 + 15))

decode_bcd-pack :
    (p : Bytes) (n : ℕ) → All IsPhoneChar p → decode_bcd (pack p ++ replicate n 0xff) ≡ p
unfolding pack
decode_bcd-pack [] n h = decode_padding n
decode_bcd-pack (a ∷ []) n h = decode_last a _ h.0 ∙ ap (◌∷◌ a) (decode_padding n)
decode_bcd-pack (a ∷ b ∷ r) n h =
    decode_pair a b _ h.0 h.1.0 ∙ ap (λ t. a ∷ b ∷ t) (decode_bcd-pack r n h.1.1)

loop_step :
    (i ch : ℕ) (rest : List (ℕ × ℕ)) (b : Bytes)
    → i < 12
    → bcd_loop ((i, ch) ∷ rest) b ≡ bcd_loop rest (put_nibble b i ch)
unfolding bcd_loop
loop_step i ch rest b h = ground arith

snoc_twice :
    (pre : Bytes) (v : ℕ)
    → suc (suc (length pre + length pre)) ≡ length (pre ++ v ∷ []) + length (pre ++ v ∷ [])
snoc_twice pre v = omega (arith, length-append pre (v ∷ []))

abbrev joined : ℕ → ℕ → ℕ
joined a b = (a - 48) * 16 + (b - 48)

module _ (pre tl : Bytes) (a b : ℕ) (ha : IsPhoneChar a) (hb : IsPhoneChar b) where
  put_pair :
      put_nibble
        (put_nibble (pre ++ 0xff ∷ tl) (length pre + length pre) a)
        (suc (length pre + length pre))
        b
      ≡ (pre ++ joined a b ∷ []) ++ tl
  put_pair =
      ap (λ t. put_nibble t (suc (length pre + length pre)) b) (put_first pre tl a ha)
      ∙ put_second pre tl ((a - 48) * 16 + 15) b (omega arith) hb
      ∙ ap (λ t. pre ++ t ∷ tl) (high_part (a - 48) (b - 48))
      ∙ sym (append_assoc pre (joined a b ∷ []) tl)
    where
      high_part : (x y : ℕ) → (x * 16 + 15) / 16 * 16 + y ≡ x * 16 + y
      high_part x y = omega arith

-- The loop behind the bytes `pre`, with room for `room` more.
bcd_loop-pack :
    (p : Bytes) (room : ℕ) (pre : Bytes)
    → All IsPhoneChar p
    → length p ≤ room + room
    → length pre + room ≡ 6
    → (n : ℕ) × (bcd_loop (numbered (length pre + length pre) p) (pre ++ replicate room 0xff)
        ≡ pre ++ (pack p ++ replicate n 0xff))
unfolding pack
bcd_loop-pack [] room pre h hl hr = (room, unfold bcd_loop in refl)
bcd_loop-pack (a ∷ p) zero pre h hl hr = absurd (omega arith)
bcd_loop-pack (a ∷ []) (suc room) pre h hl hr = (
  room,
  loop_step _ a [] _ (omega arith) ∙ (unfold bcd_loop in put_first pre (replicate room 0xff) a h.0),
)
bcd_loop-pack (a ∷ b ∷ r) (suc room) pre h hl hr =
    let v : ℕ = (a - 48) * 16 + (b - 48) in
    let (n, e) =
      bcd_loop-pack r room (pre ++ v ∷ []) h.1.1 (omega arith)
        (omega (arith, length-append pre (v ∷ []))) in
    (
      n,
      loop_step _ a _ _ (omega arith)
          ∙ loop_step _ b _ _ (omega arith)
          ∙ ap (bcd_loop (numbered (suc (suc (length pre + length pre))) r))
              (put_pair pre (replicate room 0xff) a b h.0 h.1.0)
          ∙ ap (λ t. bcd_loop (numbered t r) ((pre ++ v ∷ []) ++ replicate room 0xff))
              (snoc_twice pre v)
          ∙ e
          ∙ append_assoc pre (v ∷ []) (pack r ++ replicate n 0xff),
    )

All-ascii : (p : Bytes) → All IsPhoneChar p → All (λ c. c < 128) p
All-ascii [] h = tt
All-ascii (c ∷ p) h = (omega arith, All-ascii p h.1)

encode_bcd-pack : (p : Bytes) → IsPhone p → (n : ℕ) × (encode_bcd p ≡ pack p ++ replicate n 0xff)
unfolding encode_bcd
encode_bcd-pack p h =
    let (n, e) = bcd_loop-pack p 6 [] h.0 h.1 (omega arith) in
    (n, ap (λ t. bcd_loop t (replicate 6 0xff)) (runes_ascii 0 p (All-ascii p h.0)) ∙ e)

-- A phone number of at most twelve characters '0' to '>' is what the decoder reads back from its
-- six BCD bytes: nothing is lost, whether the number of digits is even or odd.
pub decode_bcd-encode_bcd : (p : Bytes) → IsPhone p → decode_bcd (encode_bcd p) ≡ p
decode_bcd-encode_bcd p h =
    let (n, e) = encode_bcd-pack p h in ap decode_bcd e ∙ decode_bcd-pack p n h.0

put_nibble-length : (b : Bytes) (i ch : ℕ) → length (put_nibble b i ch) ≡ length b
unfolding put_nibble
put_nibble-length b i ch = ground (
  arith,
  length-set b (i / 2) (bit_or (nibble_of ch * 16 % 256) 0x0f),
  length-set b (i / 2) (bit_or (bit_and (get_or b (i / 2) 0) 0xf0) (nibble_of ch)),
)

bcd_loop-length : (rs : List (ℕ × ℕ)) (b : Bytes) → length (bcd_loop rs b) ≡ length b
unfolding bcd_loop
bcd_loop-length [] b = refl
bcd_loop-length ((i, ch) ∷ rs) b =
    ground (arith, bcd_loop-length rs (put_nibble b i ch), put_nibble-length b i ch)

-- The encoder always returns six bytes.
pub length-encode_bcd : (p : Bytes) → length (encode_bcd p) ≡ 6
unfolding encode_bcd
length-encode_bcd p = bcd_loop-length (runes 0 0 p) (replicate 6 0xff)
