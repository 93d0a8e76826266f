-- ===== src/Session/Sequence.antt =====
-- The sequence numbers and the frames of a session's writes.
use server_jt.Base.{ℕ, ◌+◌, ◌%◌, ◌<◌, ◌≡◌, List, [], ◌∷◌, ◌++◌, arith, bit_and, length}
use server_jt.Base.Bits.{low_half}
use server_jt.Protocol.Types.{Bytes, IsU16}
use server_jt.Protocol.Bcd.{IsPhone}
use server_jt.Protocol.Frame.{ReadError, ok, read_frame}
use server_jt.Protocol.Frame.RoundTrip.{plain_frame, read_frame-write_frame}
use server_jt.Session.{Session, next_seq, send}

-- The session after a sequence of writes.
pub after_sends : List (ℕ × Bytes) → Session → Session
after_sends [] s = s
after_sends ((msg_id, body) ∷ ws) s = after_sends ws (send msg_id body s).0

-- The sequence number of the next frame on the wire.
pub wire_seq : Session → ℕ
wire_seq s = bit_and (next_seq s) 0xffff

out_seq-after_sends :
    (ws : List (ℕ × Bytes)) (s : Session)
    → s.out_seq < 4294967296
    → (after_sends ws s).out_seq ≡ (s.out_seq + length ws) % 4294967296
unfolding after_sends send next_seq
out_seq-after_sends [] s h = omega arith
out_seq-after_sends ((msg_id, body) ∷ ws) s h =
    omega (arith, out_seq-after_sends ws (send msg_id body s).0 (omega arith))

-- Writes are numbered one after the other modulo 2^16, whatever is written, also where the 32-bit
-- counter wraps.
pub wire_seq-after_sends :
    (ws : List (ℕ × Bytes)) (s : Session)
    → s.out_seq < 4294967296
    → wire_seq (after_sends ws s) ≡ (s.out_seq + length ws + 1) % 65536
unfolding wire_seq next_seq
wire_seq-after_sends ws s h =
    omega
      (arith, low_half (((after_sends ws s).out_seq + 1) % 4294967296), out_seq-after_sends ws s h)

-- What a session writes is one frame that `ReadFrame` returns, with the session's phone, its next
-- number and the body.
pub read_frame-send :
    (e : ReadError) (msg_id : ℕ) (body rest : Bytes) (s : Session)
    → IsU16 msg_id
    → IsPhone s.phone
    → read_frame e ((send msg_id body s).1 ++ rest)
      ≡ ok (plain_frame msg_id s.phone (wire_seq s) body, rest)
unfolding send wire_seq
read_frame-send e msg_id body rest s hm hp =
    read_frame-write_frame msg_id (bit_and (next_seq s) 0xffff) s.phone body e [] rest hm
      (omega (arith, low_half (next_seq s))) hp tt
