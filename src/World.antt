-- ===== src/World.antt =====
-- What the server's goroutines share: the sessions by pointer, the registry's local map, and a
-- record of the calls that leave the program, the newest first. A goroutine that is started waits
-- in `pending` until the scheduler runs it.
use server_jt.Base.{ℕ, List, [], ◌∷◌, ◌++◌, ◌==◌, if◌then◌else◌}
use server_jt.Protocol.Types.{Bytes}
use server_jt.Protocol.Location.{LocationReport}
use server_jt.Session.{Session}

pub data Metric : Type 0 where
  frames_received : Bytes → Metric
  auth_successes auth_violations heartbeats location_reports sos_alarms : Metric
  decode_errors unknown_messages connections_total connections_active : Metric

pub data Payload : Type 0 where
  no_payload : Payload
  registration : Bytes → Bytes → Bytes → ℕ → ℕ → Payload
  login : Bytes → Bytes → Bytes → ℕ → Payload

-- The bodies of the `go` statements.
pub data Task : Type 0 where
  put_online refresh_online drop_online : ℕ → Task
  publish_event : Bytes → Bytes → Payload → Task
  publish_location : Bytes → LocationReport → Task

-- `wrote` is a call of `Write` on the connection, whether or not it succeeds.
pub data Effect : Type 0 where
  inc dec : Metric → Effect
  wrote : ℕ → Bytes → Effect
  conn_closed auth_timer_started auth_timer_stopped : ℕ → Effect
  close_after : ℕ → ℕ → Effect
  started : Task → Effect
  token_set token_checked : Bytes → Bytes → Effect
  device_lookup device_heartbeat : Bytes → Effect
  device_insert : Bytes → Bytes → Bytes → Bytes → Effect

pub record World : Type 0 where
  pub sessions : ℕ → Session
  pub local : List (Bytes × ℕ)
  pub pending : List Task
  pub trace : List Effect

unfoldable pub emit : Effect → World → World
emit x w = record w { trace = x ∷ w.trace }

unfoldable pub go : Task → World → World
go t w = record w { pending = w.pending ++ t ∷ []; trace = started t ∷ w.trace }

-- `s` points to the session `sid`.
unfoldable pub put_session : ℕ → Session → World → World
put_session sid s w = record w { sessions = λ i. if i == sid then s else w.sessions i }
