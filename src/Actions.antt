-- ===== src/Actions.antt =====
-- server/internal/handler/handler.go: what a handler works with. The configuration, the answers of
-- the outside to one dispatch, and the writes on the session behind a pointer.
use server_jt.Base.{ℕ, Bool}
use server_jt.Protocol.Types.{Bytes}
use server_jt.Protocol.Frame.{Frame}
use server_jt.Session.{Session, send, ack}
use server_jt.World.{World, emit, put_session, wrote}
use server_jt.Registry.{TokenReply}
use server_jt.Store.{Row}

-- One dispatch makes at most one write, one token lookup and one device check. Whether Redis took
-- `SET` decides a log line only.
pub record Answers : Type 0 where
  pub write_ok : Bool
  pub token : TokenReply
  pub row : Row
  pub insert_ok : Bool
  pub nanos : ℕ
  pub unix : ℕ

unfoldable pub update : ℕ → (Session → Session) → World → World
update sid f w = put_session sid (f (w.sessions sid)) w

-- `s.Send` and `s.ACK`: the session's new state and the call of `Write` with the frame's bytes. The
-- trace has the call whether or not it succeeds: `write_ok` says whether it does, and it does not
-- on a session that was closed, whose `conn_open` is false.
sent : ℕ → Session × Bytes → World → World
sent sid (s, bytes) w = emit (wrote sid bytes) (put_session sid s w)

unfoldable pub ack_to : ℕ → Frame → ℕ → World → World
unfolding sent
ack_to sid f result w = sent sid (ack f result (w.sessions sid)) w

unfoldable pub reply_to : ℕ → ℕ → Bytes → World → World
unfolding sent
reply_to sid msg_id body w = sent sid (send msg_id body (w.sessions sid)) w
