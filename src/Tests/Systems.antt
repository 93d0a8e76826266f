-- ===== src/Tests/Systems.antt =====
-- Runs of the device against the server.
use server_jt.Base.{
  ℕ, ◌+◌, ◌-◌, ◌*◌, ◌/◌, ◌%◌, ◌^◌, ltb, false, ◌≤◌, ◌≡◌, ◌≢◌, refl, sym, true, some, [], ◌∷◌, ◌++◌,
  arith,
}
use server_jt.Base.Text.{ascii, same}
use server_jt.Protocol.Types.{msg_registration, msg_authentication}
use server_jt.Protocol.Frame.{Frame, timeout, ok, read_frame, write_frame}
use server_jt.Protocol.Registration.{generate_auth_token}
use server_jt.Session.{new_session, authenticated}
use server_jt.World.{World, publish_location}
use server_jt.Registry.{found}
use server_jt.Registry.Map.{get}
use server_jt.Actions.{Answers}
use server_jt.Handler.{dispatch}
use server_jt.Handler.Located.{report_phone}
use server_jt.Handler.Written.{newest}
use server_jt.Forwarder.{StreamEntry}
use server_jt.Forwarder.Publish.{publish_location as add_location, of_location, new_stream}
use server_jt.Device.{build_reg_body, build_location_body}
use server_jt.Device.Reports.{meant}
use server_jt.Device.Run.{Report, location_tick, heartbeat_tick, sent, main_loop, run_device}
use server_jt.Device.Admission.{
  reg_frame, auth_frame, registered_world, admitted_world, reg_done, device_logs_in,
}
use server_jt.Device.Arrivals.{Arrived, report_arrives}
use server_jt.Device.Settings.{DeviceState}
use server_jt.Device.Advance.{Floats, advance_state, advance_state-ranges}
use server_jt.Tests.Connections.{cfg, answers, frame, empty_world}
use server_jt.Tests.Devices.{position, clock, imei, session}

abbrev pub reports : ℕ → Report
reports n = record { position = position; clock = clock; csq = 18 }

abbrev pub kept : Answers
kept = record answers { token = found (generate_auth_token imei 1700000000) }

device_logs_in_example :
    let reg = write_frame msg_registration imei 1 (build_reg_body imei (ascii "P901")) in
    let auth = write_frame msg_authentication imei 2 (generate_auth_token imei 1700000000) in
    (read_frame timeout reg ≡ ok (reg_frame imei (ascii "P901"), []))
    × (read_frame timeout auth
        ≡ ok (auth_frame imei (ascii "P901") (generate_auth_token imei 1700000000), []))
    × (run_device timeout
          (λ k. true)
          imei
          (ascii "P901")
          reports
          (heartbeat_tick ∷ [])
          (newest 3 (registered_world cfg 3 answers kept imei (ascii "P901") empty_world).trace
            ++ (newest 3 (admitted_world cfg 3 answers kept imei (ascii "P901") empty_world).trace
                ++ []))
        ≡ sent reg (
            sent auth (
              main_loop timeout
                (λ k. true)
                imei
                (ascii "P901")
                reports
                (location_tick ∷ heartbeat_tick ∷ [])
                3
                0
                [])))
    × (((admitted_world cfg 3 answers kept imei (ascii "P901") empty_world).sessions 3).state
        ≡ authenticated)
    × (get imei (admitted_world cfg 3 answers kept imei (ascii "P901") empty_world).local ≡ some 3)
device_logs_in_example =
    device_logs_in cfg 3 answers kept imei (ascii "P901") empty_world (omega arith) refl
      (sym (reg_done cfg 3 answers kept imei (ascii "P901") empty_world (omega arith) refl).1)
      timeout (λ k. true) reports (heartbeat_tick ∷ []) [] (omega arith) refl refl

-- The session 3 belongs to the device.
abbrev joined_world : World
joined_world = record empty_world { sessions = λ i. session }

abbrev location_frame : Frame
location_frame = frame 0x0200 (build_location_body position clock 18)

report_arrives_example :
    (x : StreamEntry) × ((dispatch cfg answers 3 location_frame empty_world).pending
      ≡ []
        ++ publish_location
            (report_phone cfg answers 3 location_frame empty_world)
            (meant position clock 18)
          ∷ [])
    × (add_location
          (new_stream cfg)
          1700000000000
          (report_phone cfg answers 3 location_frame empty_world)
          (meant position clock 18)
        ≡ record {
          stream = (new_stream cfg).stream_key;
          max_len = (new_stream cfg).max_len;
          approx = true;
          values = of_location x;
        })
    × Arrived position (report_phone cfg answers 3 location_frame empty_world) 1700000000000 x
unfolding new_session same
report_arrives_example =
    report_arrives cfg answers 3 location_frame empty_world position clock 18 1700000000000
      (new_stream cfg) (omega arith) (omega arith) (omega arith) (omega arith) (omega arith) refl
      refl refl has_phone
  where
    has_phone : report_phone cfg answers 3 location_frame empty_world ≢ []
    has_phone h = ground arith

pub whole_literal : (m n : ℕ) → ltb (m / 10 ^ 0) (n / 10 ^ 0) ≡ ltb m n
whole_literal m n = ground arith

-- Whole numbers in the place of floating point ones.
abbrev pub whole : Floats ℕ
whole = record {
  add = λ x y. x + y;
  sub = λ x y. x - y;
  mul = λ x y. x * y;
  div = λ x y. x / y;
  mod_of = λ x y. x % y;
  cos = λ x. 1;
  sin = λ x. 0;
  pi = 3;
  literal = λ m d. m / 10 ^ d;
  less = λ x y. ltb x y;
  less_irrefl = λ x. ground arith;
  less-literal = λ m n hm hn. whole_literal m n;
}

abbrev pub moving : DeviceState ℕ
moving = record {
  latitude = 31;
  longitude = 74;
  heading = 350;
  speed = 88;
  battery = 5;
  altitude = 299;
  saved_at = 1700000000;
}

advance_state-ranges_example :
    let s' = advance_state whole 30 1 1 4 moving in
    (whole.less s'.speed (whole.literal 10 0) ≡ false)
    × (whole.less (whole.literal 90 0) s'.speed ≡ false)
    × (whole.less s'.battery (whole.literal 5 0) ≡ false)
    × (180 ≤ s'.altitude)
    × (s'.altitude ≤ 300)
    × (180 ≤ 299 → 299 ≤ 300 → (s'.altitude ≤ 299 + 2) × (299 ≤ s'.altitude + 2))
advance_state-ranges_example = advance_state-ranges whole 30 1 1 4 moving (omega arith)
