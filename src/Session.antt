-- ===== src/Session.antt =====
-- server/internal/session/session.go: one TCP connection. A function that writes returns the bytes
-- that it hands to the connection; the mutex and the atomic fields make each call one step.
pub mod Sequence
use server_jt.Base.{ℕ, ◌+◌, ◌-◌, ◌%◌, Bool, true, false, List, [], ◌∷◌, bit_and, ltb}
use server_jt.Protocol.Types.{Bytes, msg_platform_resp}
use server_jt.Protocol.Frame.{Frame, write_frame, build_platform_ack}

pub data State : Type 0 where
  connected registered authenticated closing : State

-- The value of the `iota` constant.
abbrev pub rank : State → ℕ
rank connected = 0
rank registered = 1
rank authenticated = 2
rank closing = 3

pub record Session : Type 0 where
  pub phone : Bytes
  pub imei : Bytes
  pub auth_token : Bytes
  pub state : State
  pub out_seq : ℕ
  pub last_heartbeat : ℕ
  pub last_location : ℕ
  pub connected_at : ℕ
  pub remote_addr : Bytes
  pub conn_open : Bool

unfoldable pub new_session : Bytes → ℕ → Session
new_session addr now = record {
  phone = [];
  imei = [];
  auth_token = [];
  state = connected;
  out_seq = 0;
  last_heartbeat = now;
  last_location = 0;
  connected_at = now;
  remote_addr = addr;
  conn_open = true;
}

unfoldable pub set_state : State → Session → Session
set_state st s = record s { state = st }

-- `s.outSeq.Add(1)` on a `uint32`; the low 16 bits are the frame's sequence number.
unfoldable pub next_seq : Session → ℕ
next_seq s = (s.out_seq + 1) % 4294967296

unfoldable pub send : ℕ → Bytes → Session → Session × Bytes
send msg_id body s = (
  record s { out_seq = next_seq s },
  write_frame msg_id s.phone (bit_and (next_seq s) 0xffff) body,
)

unfoldable pub ack : Frame → ℕ → Session → Session × Bytes
ack f result s = send msg_platform_resp (build_platform_ack f.seq_num f.msg_id result) s

unfoldable pub touch : ℕ → Session → Session
touch now s = record s { last_heartbeat = now }

unfoldable pub touch_location : ℕ → Session → Session
touch_location now s = record s { last_location = now }

unfoldable pub is_stale : ℕ → ℕ → Session → Bool
is_stale now ttl s = ltb ttl (now - s.last_heartbeat)

unfoldable pub close : Session → Session
close s = record s { state = closing; conn_open = false }
