-- ===== src/Protocol/Frame/Checksum.antt =====
-- `xorChecksum`, and the checks of `ReadFrame` on the collected bytes.
use server_jt.Base.{
  ℕ, suc, ◌+◌, ◌-◌, ◌≡◌, ◌≢◌, sym, [], ◌∷◌, ◌++◌, arith, bit_xor, ltb, ◌==◌, if◌then◌else◌, length,
  length-append, take-append_left, get_or-append, All,
}
use server_jt.Base.Bits.{bit_xor-cancel_left, bit_xor-cancel_right, bit_xor-lt}
use server_jt.Protocol.Types.{Bytes, IsByte}
use server_jt.Protocol.Frame.{
  Result, Frame, ok, err, too_short, checksum_mismatch, xor_from, xor_checksum, decode_raw,
  parse_header,
}

xor_from_injective : (c d : ℕ) (bs : Bytes) → xor_from c bs ≡ xor_from d bs → c ≡ d
unfolding xor_from
xor_from_injective c d [] h = h
xor_from_injective c d (b ∷ bs) h =
    bit_xor-cancel_right b c d (xor_from_injective (bit_xor c b) (bit_xor d b) bs h)

xor_from_changed :
    (c a b : ℕ) (pre post : Bytes)
    → xor_from c (pre ++ a ∷ post) ≡ xor_from c (pre ++ b ∷ post)
    → a ≡ b
unfolding xor_from
xor_from_changed c a b [] post h =
    bit_xor-cancel_left c a b (xor_from_injective (bit_xor c a) (bit_xor c b) post h)
xor_from_changed c a b (x ∷ pre) post h = xor_from_changed (bit_xor c x) a b pre post h

-- Changing one byte changes the checksum.
pub xor_checksum_changed :
    (a b : ℕ) (pre post : Bytes)
    → a ≢ b
    → xor_checksum (pre ++ b ∷ post) ≢ xor_checksum (pre ++ a ∷ post)
unfolding xor_checksum
xor_checksum_changed a b pre post h e = h (xor_from_changed 0 a b pre post (sym e))

xor_from-IsByte : (c : ℕ) (bs : Bytes) → IsByte c → All IsByte bs → IsByte (xor_from c bs)
unfolding xor_from
xor_from-IsByte c [] hc h = hc
xor_from-IsByte c (b ∷ bs) hc h = xor_from-IsByte (bit_xor c b) bs (bit_xor-lt 8 c b hc h.0) h.1

pub xor_checksum-IsByte : (bs : Bytes) → All IsByte bs → IsByte (xor_checksum bs)
unfolding xor_checksum
xor_checksum-IsByte bs h = xor_from-IsByte 0 bs (omega arith) h

-- What `ReadFrame` makes of a payload `p` and a trailing byte `w`.
abbrev pub verdict : Bytes → ℕ → Result Frame
verdict p w =
    if ltb (length p) 12
    then err (too_short (suc (length p)))
    else if xor_checksum p == w
    then ok (parse_header p)
    else err (checksum_mismatch (xor_checksum p) w)

last_index : (n m : ℕ) → m ≡ n + 1 → m - 1 ≡ n
last_index n m h = omega arith

pub decode_raw_lem : (p : Bytes) (w : ℕ) → decode_raw (p ++ w ∷ []) ≡ verdict p w
unfolding decode_raw
decode_raw_lem p w = ground (
  arith,
  length-append p (w ∷ []),
  last_index (length p) (length (p ++ w ∷ [])),
  take-append_left p (w ∷ []),
  get_or-append p w 0 [],
)
