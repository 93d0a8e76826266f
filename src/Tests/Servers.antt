-- ===== src/Tests/Servers.antt =====
-- Runs of the listener's loop and of the server's invariants.
use server_jt.Base.{◌≤◌, ◌≡◌, refl, none, some, [], ◌∷◌, ◌++◌, arith}
use server_jt.Base.Text.{ascii}
use server_jt.Protocol.Types.{Bytes}
use server_jt.Protocol.Frame.{
  Frame, timeout, ok, read_frame, skip_to_flag, collect, decode_raw, guard, deliver, xor_checksum,
  xor_from, parse_header,
}
use server_jt.Protocol.Reader.{read_u16, read_bytes}
use server_jt.Protocol.Bcd.{decode_bcd, digit}
use server_jt.Protocol.Frame.Fields.{AreBytes, Fits, read_frame-Fits}
use server_jt.Protocol.Frame.RoundTrip.{plain_frame}
use server_jt.Registry.Entries.{get_session}
use server_jt.Registry.Score.{to_float64}
use server_jt.Registry.Redis.{online_after, run_tasks, prune_stale}
use server_jt.Handler.Books.{
  times, reported, publishes, sos_counted, beat, beat_event, logged_in, login_event,
  connected_total, connected_active,
}
use server_jt.Server.Counters.{counters_balance}
use server_jt.Server.Owners.{owners, registry_refines_owners}
use server_jt.Server.Expiry.{dispatch_frames, location_reports_expire}
use server_jt.Device.{build_location_body}
use server_jt.Tests.Connections.{
  cfg, answers, phone, frame, empty_world, logged_in_world, logged_in_world-Reachable,
}
use server_jt.Tests.Devices.{position, clock, imei}

abbrev location_frame : Frame
location_frame = frame 0x0200 (build_location_body position clock 18)

counters_balance_example :
    (times reported logged_in_world.trace ≡ times publishes logged_in_world.trace)
    × (times sos_counted logged_in_world.trace ≤ times reported logged_in_world.trace)
    × (times beat logged_in_world.trace ≡ times beat_event logged_in_world.trace)
    × (times logged_in logged_in_world.trace ≡ times login_event logged_in_world.trace)
    × (times connected_total logged_in_world.trace ≡ times connected_active logged_in_world.trace)
counters_balance_example = counters_balance cfg logged_in_world logged_in_world-Reachable

location_reports_expire_example :
    online_after phone
      (run_tasks
          (ascii "session:")
          1000
          (dispatch_frames cfg 3 ((answers, location_frame) ∷ []) empty_world)
          (dispatch_frames cfg 3 ((answers, location_frame) ∷ []) empty_world).pending
        ++ prune_stale 1000 360 ∷ [])
      (some (to_float64 600))
    ≡ none
location_reports_expire_example =
    location_reports_expire cfg 3 phone (ascii "session:") ((answers, location_frame) ∷ [])
      empty_world 1000 360 600 (refl, tt) refl (omega arith)

-- A heartbeat of the device, and two bytes behind it.
abbrev heartbeat_bytes : Bytes
heartbeat_bytes =
    0x7e ∷ 0x00 ∷ 0x02 ∷ 0x00 ∷ 0x00 ∷ 0x01 ∷ 0x39 ∷ 0x87 ∷ 0x65 ∷ 0x43 ∷ 0x21 ∷ 0x00 ∷ 0x05 ∷ 0xbf
    ∷ 0x7e ∷ 1 ∷ 2 ∷ []

heartbeat_read : read_frame timeout heartbeat_bytes ≡ ok (plain_frame 2 imei 5 [], 1 ∷ 2 ∷ [])
unfolding read_frame skip_to_flag collect decode_raw guard deliver xor_checksum xor_from
    parse_header read_u16 read_bytes decode_bcd digit plain_frame
heartbeat_read = refl

read_frame-Fits_example : Fits (plain_frame 2 imei 5 []) × AreBytes (1 ∷ 2 ∷ [])
read_frame-Fits_example =
    read_frame-Fits timeout heartbeat_bytes (plain_frame 2 imei 5 []) (1 ∷ 2 ∷ []) (omega arith)
      heartbeat_read

registry_refines_owners_example :
    get_session phone logged_in_world ≡ owners cfg logged_in_world logged_in_world-Reachable phone
registry_refines_owners_example =
    registry_refines_owners cfg logged_in_world logged_in_world-Reachable phone
