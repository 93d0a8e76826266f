-- ===== src/Protocol/Reader.antt =====
-- What pkg/protocol uses of `bytes.Reader` and `encoding/binary`. A reader is the list of the
-- bytes that are left.
use server_jt.Base.{ℕ, ◌+◌, ◌-◌, ◌*◌, ◌/◌, ◌%◌, ◌<◌, ◌≡◌, [], ◌∷◌, ◌++◌, arith}
use server_jt.Base.{
  length, take, drop, replicate, take-append_left, drop-append_left, length-append, append-nil,
}
use server_jt.Protocol.Types.{Bytes, IsU16}

-- `binary.BigEndian.PutUint16` and `binary.Read` of a `uint16` that was 0. A read that comes up
-- short takes what is left and leaves the variable at 0.
unfoldable pub put_u16 : ℕ → Bytes
put_u16 v = (v / 256 % 256) ∷ (v % 256) ∷ []

unfoldable pub put_u32 : ℕ → Bytes
put_u32 v = (v / 16777216 % 256) ∷ (v / 65536 % 256) ∷ (v / 256 % 256) ∷ (v % 256) ∷ []

unfoldable pub read_u8 : Bytes → ℕ × Bytes
read_u8 (a ∷ r) = (a, r)
read_u8 [] = (0, [])

unfoldable pub read_u16 : Bytes → ℕ × Bytes
read_u16 (a ∷ b ∷ r) = (a * 256 + b, r)
read_u16 (a ∷ []) = (0, [])
read_u16 [] = (0, [])

unfoldable pub read_u32 : Bytes → ℕ × Bytes
read_u32 (a ∷ b ∷ c ∷ d ∷ r) = (((a * 256 + b) * 256 + c) * 256 + d, r)
read_u32 (a ∷ b ∷ c ∷ []) = (0, [])
read_u32 (a ∷ b ∷ []) = (0, [])
read_u32 (a ∷ []) = (0, [])
read_u32 [] = (0, [])

-- `buf := make([]byte, n); r.Read(buf)`: what is missing stays 0.
unfoldable pub read_bytes : ℕ → Bytes → Bytes × Bytes
read_bytes n r = (take n r ++ replicate (n - length r) 0, drop n r)

pub read_u16-put_u16 : (v : ℕ) (rest : Bytes) → IsU16 v → read_u16 (put_u16 v ++ rest) ≡ (v, rest)
unfolding read_u16 put_u16
read_u16-put_u16 v rest h = ground arith

pub read_bytes-append :
    (n : ℕ) (xs rest : Bytes) → length xs ≡ n → read_bytes n (xs ++ rest) ≡ (xs, rest)
unfolding read_bytes
read_bytes-append n xs rest h = ground (
  arith,
  take-append_left xs rest,
  drop-append_left xs rest,
  length-append xs rest,
  append-nil xs,
)

pub read_u32-put_u32 :
    (v : ℕ) (rest : Bytes) → v < 4294967296 → read_u32 (put_u32 v ++ rest) ≡ (v, rest)
unfolding read_u32 put_u32
read_u32-put_u32 v rest h = ground arith
