-- ===== src/Protocol/Frame/RoundTrip.antt =====
-- `ReadFrame` against `WriteFrame` and against damaged frames.
use server_jt.Base.{
  ℕ, ◌+◌, ◌%◌, ◌≤◌, ◌≡◌, ◌≢◌, refl, ap, ◌∙◌, false, [], ◌∷◌, ◌++◌, arith, bit_and, length,
  length-append, All, append_assoc,
}
use native.Mathlib.Nat.{le_refl}
use server_jt.Base.Bits.{all_below, eq_below, bit_and-le}
use server_jt.Protocol.Types.{Bytes, IsU16}
use server_jt.Protocol.Reader.{put_u16, read_u16-put_u16, read_bytes-append}
use server_jt.Protocol.Bcd.{encode_bcd, IsPhone}
use server_jt.Protocol.Bcd.RoundTrip.{decode_bcd-encode_bcd, length-encode_bcd}
use server_jt.Protocol.Frame.{
  Frame, ReadError, Result, ok, err, ◌>>=◌, checksum_mismatch, flag_byte, read_frame, write_frame,
  parse_header, payload_of, escape, seal, xor_checksum,
}
use server_jt.Protocol.Frame.Escape.{collect-escape, collect_flag, skip_to_flag_lem}
use server_jt.Protocol.Frame.Checksum.{verdict, decode_raw_lem, xor_checksum_changed}

-- The outcome of the checks with the rest of the stream.
abbrev pub with_rest : Bytes → Result Frame → Result (Frame × Bytes)
with_rest rest r = r >>= λ f. ok (f, rest)

-- Any escaped payload `p` with trailing byte `w` between flags: junk before is dropped, the checks
-- decide, and the bytes behind the closing flag stay in the stream.
pub read_frame-enclosed :
    (e : ReadError) (junk p : Bytes) (w : ℕ) (rest : Bytes)
    → All (λ b. b ≢ flag_byte) junk
    → read_frame e (junk ++ flag_byte ∷ (escape (p ++ w ∷ []) ++ flag_byte ∷ rest))
      ≡ with_rest rest (verdict p w)
unfolding read_frame
read_frame-enclosed e junk p w rest h = rw (
  skip_to_flag_lem e junk (escape (p ++ w ∷ []) ++ flag_byte ∷ rest) h,
  collect-escape e (p ++ w ∷ []) [] (flag_byte ∷ rest),
  collect_flag e (p ++ w ∷ []) rest,
  decode_raw_lem p w,
)

no_subpackage : (n : ℕ) → bit_and (bit_and n 0x03ff) 0x2000 ≡ 0
unfolding all_below
no_subpackage n =
    eq_below (λ v. bit_and v 0x2000) (λ v. 0) 1024 (bit_and n 0x03ff) refl
      (omega (arith, bit_and-le n n 0x03ff (omega arith)))

unfoldable pub plain_frame : ℕ → Bytes → ℕ → Bytes → Frame
plain_frame msg_id phone seq_num body = record {
  msg_id = msg_id;
  phone = phone;
  seq_num = seq_num;
  body = body;
  is_subpackage = false;
  total_pkg = 0;
  pkg_seq = 0;
}

module _ (msg_id seq_num : ℕ) (phone body : Bytes) where
  parse_header-payload_of :
      IsU16 msg_id
      → IsU16 seq_num
      → IsPhone phone
      → parse_header (payload_of msg_id phone seq_num body) ≡ plain_frame msg_id phone seq_num body
  unfolding plain_frame parse_header payload_of
  parse_header-payload_of hm hs hp = rw (
    read_u16-put_u16 msg_id _ hm,
    read_u16-put_u16 (bit_and (length body % 65536) 0x03ff) _
        (omega (arith, bit_and-le _ (length body % 65536) 0x03ff (le_refl _))),
    read_bytes-append 6 (encode_bcd phone) (put_u16 seq_num ++ body) (length-encode_bcd phone),
    read_u16-put_u16 seq_num body hs,
    no_subpackage (length body % 65536),
    decode_bcd-encode_bcd phone hp,
  )

  length-payload_of : length (payload_of msg_id phone seq_num body) ≡ 12 + length body
  unfolding payload_of put_u16
  length-payload_of =
      omega
        (arith, length-append (encode_bcd phone) (put_u16 seq_num ++ body), length-encode_bcd phone)

  -- A frame written by `WriteFrame` for 16-bit identifiers and a phone number of the codec is what
  -- `ReadFrame` returns, whatever the bytes and the length of the body, with flag-free junk
  -- before it dropped and all that follows the closing flag left in the stream.
  pub read_frame-write_frame :
      (e : ReadError) (junk rest : Bytes)
      → IsU16 msg_id
      → IsU16 seq_num
      → IsPhone phone
      → All (λ b. b ≢ flag_byte) junk
      → read_frame e (junk ++ (write_frame msg_id phone seq_num body ++ rest))
        ≡ ok (plain_frame msg_id phone seq_num body, rest)
  unfolding write_frame seal
  read_frame-write_frame e junk rest hm hs hp hj =
      let p = payload_of msg_id phone seq_num body in
      ap (λ t. read_frame e (junk ++ flag_byte ∷ t))
        (append_assoc (escape (p ++ xor_checksum p ∷ [])) (flag_byte ∷ []) rest)
      ∙ read_frame-enclosed e junk p (xor_checksum p) rest hj
      ∙ accepted
    where
      accepted :
          with_rest rest (
            verdict
              (payload_of msg_id phone seq_num body)
              (xor_checksum (payload_of msg_id phone seq_num body)))
          ≡ ok (plain_frame msg_id phone seq_num body, rest)
      accepted = ground (arith, length-payload_of, parse_header-payload_of hm hs hp)

-- A frame in which one byte of a payload of at least 12 bytes was changed is refused with the two
-- checksums, wherever the byte stands.
pub read_frame-corrupted :
    (e : ReadError) (junk rest pre post : Bytes) (a b : ℕ)
    → All (λ c. c ≢ flag_byte) junk
    → a ≢ b
    → 12 ≤ length (pre ++ a ∷ post)
    → let sent = xor_checksum (pre ++ a ∷ post) in
      read_frame e
        (junk ++ flag_byte ∷ (escape ((pre ++ b ∷ post) ++ sent ∷ []) ++ flag_byte ∷ rest))
      ≡ err (checksum_mismatch (xor_checksum (pre ++ b ∷ post)) sent)
read_frame-corrupted e junk rest pre post a b hj h hl =
    read_frame-enclosed e junk (pre ++ b ∷ post) (xor_checksum (pre ++ a ∷ post)) rest hj
    ∙ ground (
      arith,
      length-append pre (a ∷ post),
      length-append pre (b ∷ post),
      xor_checksum_changed a b pre post h,
    )
