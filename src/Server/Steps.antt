-- ===== src/Server/Steps.antt =====
-- The interleavings of the server's goroutines: each step is one call that a mutex or the order of
-- one goroutine makes whole. A pointer that is accepted is fresh, so nobody's entry names it.
use server_jt.Base.{ℕ, ◌≢◌, some, []}
use server_jt.Protocol.Types.{Bytes}
use server_jt.Protocol.Frame.{Frame}
use server_jt.Session.{Session}
use server_jt.World.{World}
use server_jt.Registry.{close_session}
use server_jt.Registry.Map.{get}
use server_jt.Configuration.{Config}
use server_jt.Actions.{Answers}
use server_jt.Handler.{dispatch}
use server_jt.Server.{accept, auth_timeout, leave}

pub data Step (cfg : Config) : World → World → Type 0 where
  accepts :
      (sid : ℕ) (addr : Bytes) (now : ℕ) (w : World)
      → ((j : Bytes) → get j w.local ≢ some sid)
      → Step cfg w (accept sid addr now w)
  dispatches : (a : Answers) (sid : ℕ) (f : Frame) (w : World) → Step cfg w (dispatch cfg a sid f w)
  leaves : (sid : ℕ) (w : World) → Step cfg w (leave sid w)
  auth_times_out : (sid : ℕ) (w : World) → Step cfg w (auth_timeout sid w)
  timer_closes : (sid : ℕ) (w : World) → Step cfg w (close_session sid w)

-- The worlds that the server gets to from its start.
pub data Reachable (cfg : Config) : World → Type 0 where
  starts :
      (sessions : ℕ → Session)
      → Reachable cfg (record { sessions = sessions; local = []; pending = []; trace = [] })
  steps : (v w : World) → Reachable cfg v → Step cfg v w → Reachable cfg w
