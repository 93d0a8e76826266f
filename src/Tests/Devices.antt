-- ===== src/Tests/Devices.antt =====
-- Runs of the simulated tracker (device/p901/main.go) against the server.
use server_jt.Base.{◌≡◌, ◌++◌, true, false, none, some, [], ◌∷◌, arith, ◌==◌, if◌then◌else◌}
use server_jt.Base.Int.{pos}
use server_jt.Base.Text.{ascii}
use server_jt.Protocol.Types.{Bytes, result_ok}
use server_jt.Protocol.Frame.{Frame, eof}
use server_jt.Session.{Session, new_session, ack}
use server_jt.Device.{Position, Clock, read_ack, refused}
use server_jt.Device.Replies.{read_ack-ack}

abbrev pub imei : Bytes
imei = ascii "013987654321"

-- South of the equator, with a battery that is read as 104 percent.
abbrev pub position : Position
position = record {
  latitude = record { negative = true; micro = 33868800 };
  longitude = record { negative = false; micro = 151209300 };
  altitude = 220;
  speed = 405;
  heading = 45;
  battery = pos 104;
}

abbrev pub clock : Clock
clock = record { year = 2024; month = 1; day = 15; hour = 12; minute = 34; second = 56 }

abbrev pub session : Session
session = record (new_session (ascii "10.0.0.1:4000") 1700000000) { phone = imei }

abbrev heartbeat : Frame
heartbeat = record {
  msg_id = 2;
  phone = imei;
  seq_num = 5;
  body = [];
  is_subpackage = false;
  total_pkg = 0;
  pkg_seq = 0;
}

read_ack-ack_example :
    read_ack eof 2 ((ack heartbeat 1 session).1 ++ 7 ∷ [])
    ≡ (if 1 == result_ok then none else some (refused 1), 7 ∷ [])
read_ack-ack_example = read_ack-ack eof session (ground arith) (7 ∷ []) heartbeat 1 (omega arith)
