-- ===== src/Protocol/Frame/Fields.antt =====
-- The ranges of the fields of a frame that `ReadFrame` returns.
use server_jt.Base.{
  ℕ, zero, suc, ◌-◌, ◌*◌, ◌/◌, ◌≤◌, ◌<◌, ◌≡◌, Bool, true, false, not, ltb, get_or, length-replicate,
  [], ◌∷◌, ◌++◌, arith, length, length-append, take, drop, replicate, All, All-append,
  if◌then◌else◌, bit_and, ◌==◌, length-take,
}
use server_jt.Base.Bits.{bit_and-le}
use native.Mathlib.Nat.{le_refl}
use mathlib.Core.Path.{subst}
use server_jt.Protocol.Types.{Bytes, IsU16}
use server_jt.Protocol.Reader.{read_u16, read_bytes}
use server_jt.Protocol.Bcd.{decode_bcd, digit, IsPhone, IsPhoneChar}
use server_jt.Protocol.Frame.{
  Frame, ReadError, Result, ok, err, FrameError, too_short, guard, xor_checksum, ◌>>=◌, ◌>>◌,
  flag_byte, read_frame, skip_to_flag, collect, decode_raw, deliver, parse_header, escape_byte,
  invalid_escape,
}

abbrev pub AreBytes : Bytes → Type 0
AreBytes bs = All (λ b. b < 256) bs

take-AreBytes : (n : ℕ) (bs : Bytes) → AreBytes bs → AreBytes (take n bs)
take-AreBytes zero bs h = tt
take-AreBytes (suc n) [] h = tt
take-AreBytes (suc n) (b ∷ bs) h = (h.0, take-AreBytes n bs h.1)

drop-AreBytes : (n : ℕ) (bs : Bytes) → AreBytes bs → AreBytes (drop n bs)
drop-AreBytes zero bs h = h
drop-AreBytes (suc n) [] h = tt
drop-AreBytes (suc n) (b ∷ bs) h = drop-AreBytes n bs h.1

zeros-AreBytes : (n : ℕ) → AreBytes (replicate n 0)
zeros-AreBytes zero = tt
zeros-AreBytes (suc n) = (omega arith, zeros-AreBytes n)

digit-phone : (n : ℕ) → n ≤ 15 → All IsPhoneChar (digit n) × (length (digit n) ≤ 1)
unfolding digit
digit-phone n h = ground arith

decode_bcd-phone :
    (bs : Bytes) → All IsPhoneChar (decode_bcd bs) × (length (decode_bcd bs) ≤ 2 * length bs)
unfolding decode_bcd
decode_bcd-phone [] = (tt, omega arith)
decode_bcd-phone (v ∷ vs) =
    let hi = bit_and (v / 16) 0x0f in
    let lo = bit_and v 0x0f in
    let h = digit-phone hi (bit_and-le (v / 16) (v / 16) 0x0f (le_refl _)) in
    let l = digit-phone lo (bit_and-le v v 0x0f (le_refl _)) in
    let r = decode_bcd-phone vs in
    (
      All-append IsPhoneChar (digit hi) _ h.0 (All-append IsPhoneChar (digit lo) _ l.0 r.0),
      omega (
        arith,
        length-append (digit hi) (digit lo ++ decode_bcd vs),
        length-append (digit lo) (decode_bcd vs),
        h.1,
        l.1,
        r.1,
      ),
    )

-- What holds of a result, where there is one.
abbrev Returns {ℓ} : {A : Type ℓ} → (A → Type 0) → Result A → Type 0
Returns P (ok a) = P a
Returns P (err x) = Unit {0}

Returns-if :
    {A : Type 0} (P : A → Type 0) (b : Bool) (r s : Result A)
    → Returns P r
    → Returns P s
    → Returns P (if b then r else s)
Returns-if P true r s h k = h
Returns-if P false r s h k = k

Returns-bind :
    {A B : Type 0} (P : A → Type 0) (Q : B → Type 0) (r : Result A) (next : A → Result B)
    → Returns P r
    → ((a : A) → P a → Returns Q (next a))
    → Returns Q (r >>= next)
Returns-bind P Q (ok a) next h k = k a h
Returns-bind P Q (err x) next h k = tt

abbrev BothBytes : Bytes × Bytes → Type 0
BothBytes p = AreBytes p.0 × AreBytes p.1

-- The fields as the struct types them, and a phone number of the codec.
pub record Fits (f : Frame) : Type 0 where
  pub msg_id_fits : IsU16 f.msg_id
  pub seq_num_fits : IsU16 f.seq_num
  pub phone_fits : IsPhone f.phone
  pub body_fits : AreBytes f.body
  pub total_fits : IsU16 f.total_pkg
  pub part_fits : IsU16 f.pkg_seq

read_u16-fits : (r : Bytes) → AreBytes r → IsU16 (read_u16 r).0 × AreBytes (read_u16 r).1
unfolding read_u16
read_u16-fits [] h = (omega arith, tt)
read_u16-fits (a ∷ []) h = (omega arith, tt)
read_u16-fits (a ∷ b ∷ r) h = (omega arith, h.1.1)

decode_bcd-IsPhone : (r : Bytes) → IsPhone (decode_bcd (read_bytes 6 r).0)
unfolding read_bytes
decode_bcd-IsPhone r =
    let bcd = take 6 r ++ replicate (6 - length r) 0 in
    (
      (decode_bcd-phone bcd).0,
      omega (
        arith,
        (decode_bcd-phone bcd).1,
        length-append (take 6 r) (replicate (6 - length r) 0),
        length-take 6 r,
        length-replicate {A = ℕ} (6 - length r) 0,
      ),
    )

read_bytes-rest : (n : ℕ) (r : Bytes) → AreBytes r → AreBytes (read_bytes n r).1
unfolding read_bytes
read_bytes-rest n r h = drop-AreBytes n r h

Fits-if : (b : Bool) (f g : Frame) → Fits f → Fits g → Fits (if b then f else g)
Fits-if true f g h k = h
Fits-if false f g h k = k

parse_header-Fits : (payload : Bytes) → AreBytes payload → Fits (parse_header payload)
unfolding parse_header
parse_header-Fits payload h =
    let id = read_u16-fits payload h in
    let attrs = read_u16-fits (read_u16 payload).1 id.1 in
    let r2 = (read_u16 (read_u16 payload).1).1 in
    let seq = read_u16-fits (read_bytes 6 r2).1 (read_bytes-rest 6 r2 attrs.1) in
    let total = read_u16-fits _ seq.1 in
    let part = read_u16-fits _ total.1 in
    Fits-if (bit_and (read_u16 (read_u16 payload).1).0 0x2000 == 0) _ _
      (record {
        msg_id_fits = id.0;
        seq_num_fits = seq.0;
        phone_fits = decode_bcd-IsPhone r2;
        body_fits = seq.1;
        total_fits = omega arith;
        part_fits = omega arith;
      })
      (record {
        msg_id_fits = id.0;
        seq_num_fits = seq.0;
        phone_fits = decode_bcd-IsPhone r2;
        body_fits = part.1;
        total_fits = total.0;
        part_fits = part.0;
      })

guarded :
    (b : Bool) (x : FrameError) (r : Result Frame) → Returns Fits r → Returns Fits (guard b x >> r)
unfolding guard
guarded true x r h = h
guarded false x r h = tt

decode_raw-Fits : (raw : Bytes) → AreBytes raw → Returns Fits (decode_raw raw)
unfolding decode_raw guard
decode_raw-Fits raw h = guarded (not (ltb (length raw) 13)) (too_short (length raw)) _ (
    guarded (xor_checksum (take (length raw - 1) raw) == get_or raw (length raw - 1) 0) _ _
      (parse_header-Fits _ (take-AreBytes (length raw - 1) raw h)))

module _ (e : ReadError) where
  skip_to_flag-AreBytes : (bs : Bytes) → AreBytes bs → Returns AreBytes (skip_to_flag e bs)
  unfolding skip_to_flag
  skip_to_flag-AreBytes [] h = tt
  skip_to_flag-AreBytes (b ∷ bs) h =
      Returns-if AreBytes (b == flag_byte) (ok bs) _ h.1 (skip_to_flag-AreBytes bs h.1)

  collect-AreBytes :
      (raw bs : Bytes) → AreBytes raw → AreBytes bs → Returns BothBytes (collect e raw bs)
  unfolding collect
  collect-AreBytes raw [] hr hb = tt
  collect-AreBytes raw (b ∷ []) hr hb =
      Returns-if BothBytes (b == flag_byte) _ _ (hr, tt)
        (Returns-if BothBytes (b == escape_byte) _ _ tt tt)
  collect-AreBytes raw (b ∷ c ∷ bs) hr hb =
      let with = λ (x : ℕ) (l : x < 256). All-append (λ y. y < 256) raw (x ∷ []) hr (l, tt) in
      Returns-if BothBytes (b == flag_byte) _ _ (hr, hb.1)
        (Returns-if BothBytes (b == escape_byte) _ _
          (Returns-if BothBytes (c == 0x01) _ _
            (collect-AreBytes (raw ++ 0x7d ∷ []) bs (with 0x7d (omega arith)) hb.1.1)
            (Returns-if BothBytes (c == 0x02) _ (err (invalid_escape c))
              (collect-AreBytes (raw ++ 0x7e ∷ []) bs (with 0x7e (omega arith)) hb.1.1) tt))
          (collect-AreBytes (raw ++ b ∷ []) (c ∷ bs) (with b hb.0) hb.1))

  -- On a stream of bytes every frame that `ReadFrame` returns has the fields that its struct types
  -- say, a phone number of the codec and a body of bytes, and leaves bytes in the stream.
  pub read_frame-Fits :
      (stream : Bytes) (f : Frame) (rest : Bytes)
      → AreBytes stream
      → read_frame e stream ≡ ok (f, rest)
      → Fits f × AreBytes rest
  unfolding read_frame deliver
  read_frame-Fits stream f rest h k = subst (Returns (λ p. Fits p.0 × AreBytes p.1)) k (
      Returns-bind AreBytes _ (skip_to_flag e stream) _ (skip_to_flag-AreBytes stream h)
        λ opened ho.
          Returns-bind BothBytes _ (collect e [] opened) _ (collect-AreBytes [] opened tt ho)
            λ c hc.
              Returns-bind Fits _ (decode_raw c.0) _ (decode_raw-Fits c.0 hc.0)
                (λ g hg. (hg, hc.1)))
