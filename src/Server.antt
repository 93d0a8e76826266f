-- ===== src/Server.antt =====
-- server/internal/server/tcp.go: the life of one connection. The stream is what the peer will send,
-- and `e` is what a read returns behind it; `answers k` is what the outside answers while the frame
-- `k` is handled. Deadlines and the log lines that tell a timeout from another error are left out.
pub mod Frames
pub mod Steps
pub mod Invariant
pub mod Impostor
pub mod Expiry
pub mod Listen
pub mod Counters
pub mod Owners
pub mod Among
pub mod Stale
pub mod Strangers
pub mod Listening
use server_jt.Base.{ℕ, zero, suc, ◌+◌, Bool, true, false, List, [], ◌∷◌, ltb, if◌then◌else◌, length}
use server_jt.Protocol.Types.{Bytes}
use server_jt.Protocol.Frame.{Frame, ReadError, Result, ok, err, read_frame}
use server_jt.Session.{new_session, rank, authenticated}
use server_jt.World.{
  World, emit, put_session, inc, dec, conn_closed, auth_timer_started, auth_timer_stopped,
  connections_total, connections_active,
}
use server_jt.Registry.{unregister, close_session}
use server_jt.Configuration.{Config}
use server_jt.Actions.{Answers}
use server_jt.Handler.{dispatch}

-- The accept loop's part: the counters, and the session of the new connection.
unfoldable pub accept : ℕ → Bytes → ℕ → World → World
accept sid addr now w = emit (auth_timer_started sid) (
    put_session sid (new_session addr now)
      (emit (inc connections_active) (emit (inc connections_total) w)))

-- The body of the `AuthTimeout` timer.
unfoldable pub auth_timeout : ℕ → World → World
auth_timeout sid w =
    if ltb (rank (w.sessions sid).state) (rank authenticated) then close_session sid w else w

-- `conn.Close`, which leaves the state of the session.
unfoldable pub close_conn : ℕ → World → World
close_conn sid w =
    emit (conn_closed sid) (put_session sid (record (w.sessions sid) { conn_open = false }) w)

-- The deferred calls, the last one first.
unfoldable pub leave : ℕ → World → World
leave sid w =
    emit (dec connections_active)
      (close_conn sid (unregister sid (emit (auth_timer_stopped sid) w)))

-- The end of the loop, or its next round.
abbrev on_frame : World → (Frame × Bytes → World) → Result (Frame × Bytes) → World
on_frame w next (err x) = w
on_frame w next (ok p) = next p

module _ (cfg : Config) (answers : ℕ → Answers) (sid : ℕ) (e : ReadError) where
  -- The loop from frame `k` on, for at most `rounds` frames.
  pub serve : ℕ → ℕ → Bytes → World → World
  serve zero k stream w = w
  serve (suc rounds) k stream w =
      on_frame w (λ p. serve rounds (suc k) p.1 (dispatch cfg (answers k) sid p.0 w))
        (read_frame e stream)

  -- A frame takes a byte at least, so as many rounds as there are bytes are enough.
  pub handle_conn : Bytes → ℕ → Bytes → World → World
  handle_conn addr now stream w = leave sid (serve (length stream) 0 stream (accept sid addr now w))
