-- ===== src/Protocol/Frame.antt =====
-- pkg/protocol/frame.go: `ReadFrame`, `WriteFrame`, the checksum, the escaping and the ACK bodies.
-- The stream is the list of the bytes that will still arrive, and `e` is what a read returns behind
-- the last of them: `io.EOF`, a timeout or another failure of the connection.
pub mod Escape
pub mod Checksum
pub mod RoundTrip
pub mod Errors
pub mod Fields
use server_jt.Base.{
  ℕ, ◌+◌, ◌-◌, ◌/◌, ◌%◌, ◌≡◌, refl, Bool, true, false, List, [], ◌∷◌, ◌++◌, bit_and, bit_xor, ltb,
  ◌==◌, not, if◌then◌else◌, length, take, drop, get_or, foldl,
}
use server_jt.Protocol.Types.{Bytes}
use server_jt.Protocol.Reader.{put_u16, read_u16, read_bytes}
use server_jt.Protocol.Bcd.{decode_bcd, encode_bcd}

pub record Frame : Type 0 where
  pub msg_id : ℕ
  pub phone : Bytes
  pub seq_num : ℕ
  pub body : Bytes
  pub is_subpackage : Bool
  pub total_pkg : ℕ
  pub pkg_seq : ℕ

-- How the stream ends.
pub data ReadError : Type 0 where
  eof timeout failed : ReadError

-- The error returns of `ReadFrame`, in the order of the source.
pub data FrameError : Type 0 where
  closed mid_frame escape_cut : ReadError → FrameError
  invalid_escape : ℕ → FrameError
  too_short : ℕ → FrameError
  checksum_mismatch : ℕ → ℕ → FrameError

pub data Result {ℓ} (A : Type ℓ) : Type ℓ where
  ok : A → Result A
  err : FrameError → Result A

-- What follows a step that may fail, for `do` blocks.
infixl 5 ◌>>=◌ ◌>>◌
abbrev pub ◌>>=◌ {ℓ κ} : {S : Type ℓ} {T : Type κ} → Result S → (S → Result T) → Result T
err stopped >>= next = err stopped
ok found >>= next = next found

abbrev pub ◌>>◌ {κ} : {T : Type κ} → Result (Unit {0}) → Result T → Result T
first >> second = first >>= λ _. second

-- A block that succeeds has passed its first step.
pub >>=-eq-ok {ℓ κ} :
    {S : Type ℓ} {T : Type κ} (first : Result S) (next : S → Result T) {out : T}
    → (first >>= next) ≡ ok out
    → (s : S) × (first ≡ ok s) × (next s ≡ ok out)
>>=-eq-ok (err stopped) next h = cc
>>=-eq-ok (ok s) next h = (s, refl, h)

abbrev pub flag_byte : ℕ
flag_byte = 0x7e

abbrev pub escape_byte : ℕ
escape_byte = 0x7d

unfoldable pub xor_from : ℕ → Bytes → ℕ
xor_from cs [] = cs
xor_from cs (b ∷ bs) = xor_from (bit_xor cs b) bs

unfoldable pub xor_checksum : Bytes → ℕ
unfolding xor_from
xor_checksum bs = xor_from 0 bs

-- The first loop: skip until the opening flag.
unfoldable pub skip_to_flag : ReadError → Bytes → Result Bytes
skip_to_flag e [] = err (closed e)
skip_to_flag e (b ∷ bs) = if b == flag_byte then ok bs else skip_to_flag e bs

-- The second loop: the bytes up to the closing flag, escape sequences undone, and what follows.
unfoldable pub collect : ReadError → Bytes → Bytes → Result (Bytes × Bytes)
collect e raw [] = err (mid_frame e)
collect e raw (b ∷ []) =
    if b == flag_byte
    then ok (raw, [])
    else if b == escape_byte
    then err (escape_cut e)
    else collect e (raw ++ b ∷ []) []
collect e raw (b ∷ c ∷ bs) =
    let as_01 = collect e (raw ++ 0x7d ∷ []) bs in
    let as_02 = collect e (raw ++ 0x7e ∷ []) bs in
    let plain = collect e (raw ++ b ∷ []) (c ∷ bs) in
    if b == flag_byte
    then ok (raw, c ∷ bs)
    else if b == escape_byte
    then (if c == 0x01 then as_01 else if c == 0x02 then as_02 else err (invalid_escape c))
    else plain

-- The header fields of a payload of at least 12 bytes.
unfoldable pub parse_header : Bytes → Frame
parse_header payload =
    let (msg_id, r1) = read_u16 payload in
    let (attrs, r2) = read_u16 r1 in
    let (phone_bcd, r3) = read_bytes 6 r2 in
    let (seq_num, r4) = read_u16 r3 in
    let (total_pkg, r5) = read_u16 r4 in
    let (pkg_seq, r6) = read_u16 r5 in
    if bit_and attrs 0x2000 == 0
    then record {
      msg_id = msg_id;
      phone = decode_bcd phone_bcd;
      seq_num = seq_num;
      body = r4;
      is_subpackage = false;
      total_pkg = 0;
      pkg_seq = 0;
    }
    else record {
      msg_id = msg_id;
      phone = decode_bcd phone_bcd;
      seq_num = seq_num;
      body = r6;
      is_subpackage = true;
      total_pkg = total_pkg;
      pkg_seq = pkg_seq;
    }

unfoldable pub guard : Bool → FrameError → Result (Unit {0})
guard false e = err e
guard true e = ok tt

-- The checks on the collected bytes, and the frame.
unfoldable pub decode_raw : Bytes → Result Frame
unfolding guard
decode_raw raw = do
  guard (not (ltb (length raw) 13)) (too_short (length raw))
  let payload = take (length raw - 1) raw
  let want = get_or raw (length raw - 1) 0
  let got = xor_checksum payload
  guard (got == want) (checksum_mismatch got want)
  ok (parse_header payload)

unfoldable pub deliver : Bytes × Bytes → Result (Frame × Bytes)
deliver (raw, rest) = do frame ← decode_raw raw; ok (frame, rest)

-- The frame and the rest of the stream.
unfoldable pub read_frame : ReadError → Bytes → Result (Frame × Bytes)
unfolding deliver
read_frame e stream = do
  opened ← skip_to_flag e stream
  collected ← collect e [] opened
  deliver collected

-- `raw` of `WriteFrame` before the checksum is appended.
pub payload_of : ℕ → Bytes → ℕ → Bytes → Bytes
payload_of msg_id phone seq_num body =
    put_u16 msg_id
    ++ (put_u16 (bit_and (length body % 65536) 0x03ff)
        ++ (encode_bcd phone ++ (put_u16 seq_num ++ body)))

pub escape : Bytes → Bytes
escape [] = []
escape (b ∷ bs) =
    if b == 0x7e
    then escape_byte ∷ 0x02 ∷ escape bs
    else if b == 0x7d
    then escape_byte ∷ 0x01 ∷ escape bs
    else b ∷ escape bs

pub seal : Bytes → Bytes
unfolding xor_checksum
seal raw = raw ++ xor_checksum raw ∷ []

-- The bytes that `WriteFrame` hands to the one `w.Write`.
unfoldable pub write_frame : ℕ → Bytes → ℕ → Bytes → Bytes
write_frame msg_id phone seq_num body =
    flag_byte ∷ (escape (seal (payload_of msg_id phone seq_num body)) ++ flag_byte ∷ [])

unfoldable pub build_platform_ack : ℕ → ℕ → ℕ → Bytes
build_platform_ack reply_seq reply_msg_id result =
    put_u16 reply_seq ++ (put_u16 reply_msg_id ++ result ∷ [])

unfoldable pub build_registration_ack : ℕ → ℕ → Bytes → Bytes
build_registration_ack reply_seq result token = put_u16 reply_seq ++ result ∷ token
