-- ===== src/Metrics.antt =====
-- server/internal/metrics/metrics.go: the instruments that `New` registers with the default
-- registry of Prometheus, and the series that each increment of the handlers goes to. The registry
-- is the list of its names; `promauto` panics on one that is taken.
pub mod New
use server_jt.Base.{
  ℕ, Bool, true, false, ◌||◌, Option, none, some, List, [], ◌∷◌, if◌then◌else◌, map,
}
use server_jt.Base.Text.{ascii, same}
use server_jt.Protocol.Types.{Bytes}
use server_jt.World.{
  Metric, frames_received, auth_successes, auth_violations, heartbeats, location_reports,
  sos_alarms, decode_errors, unknown_messages, connections_total, connections_active,
}

-- Buckets are in milliseconds.
pub data Kind : Type 0 where
  gauge counter : Kind
  counter_vec : List Bytes → Kind
  histogram : List ℕ → Kind

pub record Instrument : Type 0 where
  pub kind : Kind
  pub name : Bytes
  pub help : Bytes

instrument : Kind → Bytes → Bytes → Instrument
instrument kind name help = record { kind = kind; name = name; help = help }

unfoldable pub instruments : List Instrument
unfolding instrument
instruments =
    instrument gauge (ascii "jt808_connections_active")
      (ascii "Current number of active device TCP connections on this replica.")
    ∷ instrument counter (ascii "jt808_connections_total")
        (ascii "Total TCP connections accepted since startup.")
    ∷ instrument (counter_vec (ascii "msg_type" ∷ [])) (ascii "jt808_frames_received_total")
        (ascii "Total JT808 frames received, by message type.")
    ∷ instrument counter (ascii "jt808_auth_successes_total")
        (ascii "Successful device authentications.")
    ∷ instrument counter (ascii "jt808_auth_violations_total")
        (ascii "Authentication failures (bad token, unauthenticated message).")
    ∷ instrument counter (ascii "jt808_heartbeats_total") (ascii "Total heartbeat frames received.")
    ∷ instrument counter (ascii "jt808_location_reports_total")
        (ascii "Total location reports received (0x0200 + 0x0704 items).")
    ∷ instrument counter (ascii "jt808_sos_alarms_total") (ascii "Total SOS alarm events received.")
    ∷ instrument counter (ascii "jt808_decode_errors_total")
        (ascii "Frame decode failures (checksum, short body, TLV parse).")
    ∷ instrument counter (ascii "jt808_unknown_messages_total")
        (ascii "Frames with unrecognised message IDs.")
    ∷ instrument (histogram (1 ∷ 5 ∷ 10 ∷ 50 ∷ 100 ∷ 500 ∷ 1000 ∷ []))
        (ascii "jt808_stream_publish_seconds") (ascii "Redis Stream XADD latency in seconds.")
    ∷ []

-- The name and the label value of a metric's series.
unfoldable pub series : Metric → Bytes × List Bytes
series (frames_received msg_type) = (ascii "jt808_frames_received_total", msg_type ∷ [])
series auth_successes = (ascii "jt808_auth_successes_total", [])
series auth_violations = (ascii "jt808_auth_violations_total", [])
series heartbeats = (ascii "jt808_heartbeats_total", [])
series location_reports = (ascii "jt808_location_reports_total", [])
series sos_alarms = (ascii "jt808_sos_alarms_total", [])
series decode_errors = (ascii "jt808_decode_errors_total", [])
series unknown_messages = (ascii "jt808_unknown_messages_total", [])
series connections_total = (ascii "jt808_connections_total", [])
series connections_active = (ascii "jt808_connections_active", [])

unfoldable pub taken : Bytes → List Bytes → Bool
taken n [] = false
taken n (x ∷ xs) = same n x || taken n xs

unfoldable pub register_all : List Bytes → List Bytes → Option (List Bytes)
register_all [] reg = some reg
register_all (n ∷ ns) reg = if taken n reg then none else register_all ns (n ∷ reg)

unfoldable pub new : List Bytes → Option (List Bytes)
new reg = register_all (map (λ (i : Instrument). i.name) instruments) reg
