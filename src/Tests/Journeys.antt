-- ===== src/Tests/Journeys.antt =====
-- A whole connection of the simulated tracker, and its state file (device/p901/main.go).
use server_jt.Base.{
  ℕ, zero, suc, ◌+◌, ◌≡◌, refl, sym, ap, ◌∙◌, true, false, none, some, Option, List, [], ◌∷◌, ◌++◌,
  arith, if◌then◌else◌, append-nil,
}
use server_jt.Base.Int.{pos}
use server_jt.Base.Text.{ascii, same}
use server_jt.Protocol.Types.{Bytes, msg_registration_resp, reg_success, result_ok}
use server_jt.Protocol.Frame.{build_registration_ack, timeout}
use server_jt.Protocol.Registration.{generate_auth_token}
use server_jt.Session.{ack, send}
use server_jt.Configuration.{seconds, env_str, env_duration}
use server_jt.Actions.{Answers}
use server_jt.Registry.Keys.{same_refl}
use server_jt.Registry.Map.{get}
use server_jt.Handler.Written.{writes_of}
use server_jt.Server.{accept, handle_conn}
use server_jt.Device.Run.{Output, Run, idle, run_device, location_tick, heartbeat_tick}
use server_jt.Device.Ticks.{acks, tick_outputs}
use server_jt.Device.Conversation.{joined}
use server_jt.Device.Admission.{reg_done, auth_frame}
use server_jt.Device.Admission.Whole.{device_outputs, run_reads, whole_connection}
use server_jt.Device.Settings.{DeviceConfig, DeviceState, load_config, load_state, env_float}
use server_jt.Device.{Clock}
use server_jt.Device.Signals.{Casts}
use server_jt.Device.Journey.{
  Disk, Draws, Connection, Attempt, unreachable, reached, steps, report_at, state_at, run_files,
  supervise, main, connection_run,
}
use server_jt.Device.Journey.Resumed.{main_resumes, KeepsFile}
use server_jt.Device.Journey.Followed.{file_follows_run}
use server_jt.Tests.Connections.{cfg, answers, empty_world}
use server_jt.Tests.Devices.{clock, imei, session}
use server_jt.Tests.Systems.{reports, kept, whole, moving}

-- Redis gives back the token to the second message.
abbrev in_turn : ℕ → Answers
in_turn zero = answers
in_turn (suc n) = kept

abbrev pub model : Bytes
model = ascii "P901"

abbrev outputs : List Output
outputs =
    device_outputs timeout (λ k. true) imei model reports (heartbeat_tick ∷ [])
      (generate_auth_token imei 1700000000)

whole_connection_example :
    let w' =
      handle_conn cfg in_turn 3 timeout
        (ascii "10.0.0.1:4000")
        1700000000
        (joined outputs)
        empty_world in
    (replies : Bytes) × (writes_of 3 w'.trace ≡ writes_of 3 empty_world.trace ++ replies)
    × (run_device timeout (λ k. true) imei model reports (heartbeat_tick ∷ []) replies
        ≡ (outputs, idle))
    × (get imei w'.local ≡ none)
whole_connection_example =
    whole_connection timeout (λ k. true) imei model reports (heartbeat_tick ∷ []) cfg in_turn 3
      (ascii "10.0.0.1:4000") 1700000000 empty_world (omega arith) (omega arith) refl
      (sym
        (reg_done cfg 3 answers kept imei model
          (accept 3 (ascii "10.0.0.1:4000") 1700000000 empty_world) (omega arith) refl).1)
      (λ k. refl) (ground arith)

abbrev whole_casts : Casts ℕ
whole_casts = record { to_int = λ x. pos x; to_u16 = λ x. x; to_u32 = λ x. x; neg = λ x. 0 }

abbrev files : Disk (Bytes → Option Bytes)
files = record {
  mkdir_all = λ path fs. fs;
  write_file = λ path content fs other. if same path other then some content else fs other;
  read_file = λ path fs. fs path;
}

abbrev marshal : DeviceState ℕ → Option Bytes
marshal s =
    some (s.latitude ∷ s.longitude ∷ s.heading ∷ s.speed ∷ s.battery ∷ s.altitude ∷ s.saved_at ∷ [])

abbrev unmarshal : Bytes → Option (DeviceState ℕ)
unmarshal (a ∷ b ∷ c ∷ d ∷ x ∷ y ∷ z ∷ []) = some (record {
  latitude = a;
  longitude = b;
  heading = c;
  speed = d;
  battery = x;
  altitude = y;
  saved_at = z;
})
unmarshal other = none

abbrev settings : DeviceConfig ℕ
settings = record {
  imei = imei;
  server_addr = ascii "jt808:7018";
  location_interval = seconds 30;
  heartbeat_interval = seconds 60;
  state_file = ascii "/data/state.json";
  device_model = model;
  initial_lat = 31;
  initial_lon = 74;
  initial_heading = 45;
  initial_speed = 40;
  initial_battery = 100;
  debug = false;
}

abbrev draws : ℕ → Draws ℕ
draws n = record { turn = n; change = 1; random = 4 }

-- Every file system of the tests keeps its files.
abbrev Works : (Bytes → Option Bytes) → Type 0
Works fs = Unit

files-KeepsFile : KeepsFile files marshal settings.state_file Works
files-KeepsFile x fs h = (rw (same_refl settings.state_file) refl, tt)

-- What the server sends to the device.
abbrev stream : Bytes
stream =
    let tok = generate_auth_token imei 1700000000 in
    (send msg_registration_resp (build_registration_ack 1 reg_success tok) session).1
    ++ ((ack (auth_frame imei model tok) result_ok session).1
        ++ (acks timeout (λ k. true) imei model
              (λ i. report_at whole whole_casts files marshal 30 clock 2 draws moving (0 + i))
              (location_tick ∷ heartbeat_tick ∷ []) 3 0 session
            ++ []))

abbrev connection : Connection ℕ
connection = record {
  read_end = timeout;
  writes = λ k. true;
  ticks = heartbeat_tick ∷ [];
  stream = stream;
  clocks = λ i. clock;
  normals = λ i. 2;
  save_times = λ k. 1700000000 + k;
  failed_at = 1700000100;
}

abbrev attempts : List (Attempt ℕ)
attempts = unreachable 1700000000 ∷ reached connection ∷ []

abbrev env : Bytes → Bytes
env key = if same key (ascii "DEVICE_IMEI") then imei else []

main_resumes_example :
    let s = load_state unmarshal none settings 1700000000 in
    let p =
      supervise whole whole_casts files marshal 30 settings draws s attempts (0, λ path. none) in
    (fs' : Bytes → Option Bytes) × (main whole whole_casts files marshal 30 whole.literal
        (λ t. none)
        (λ t. none)
        env
        unmarshal
        draws
        attempts
        1700000000
        1700000200
        (λ path. none)
      ≡ some fs')
    × ((restarted m : ℕ) (t : Clock) (normal : ℕ)
        → let resumed =
            load_state unmarshal (files.read_file settings.state_file fs') settings restarted in
          report_at whole whole_casts files marshal 30 t normal (λ i. draws (p.0 + i)) resumed m
          ≡ report_at whole whole_casts files marshal 30 t normal draws s (p.0 + m))
unfolding load_config same env_str env_duration env_float
main_resumes_example =
    main_resumes whole whole_casts files marshal 30 unmarshal settings Works whole.literal
      (λ t. none) (λ t. none) env draws attempts 1700000000 1700000200 (λ path. none) _
      files-KeepsFile tt refl refl refl

abbrev done : List Output
done =
    device_outputs timeout (λ k. true) imei model
      (λ i. report_at whole whole_casts files marshal 30 clock 2 draws moving (0 + i))
      (heartbeat_tick ∷ []) (generate_auth_token imei 1700000000)

file_follows_run_example :
    let fs' =
      run_files whole whole_casts files marshal 30 settings draws moving 0 connection.save_times
        done
        (λ path. none) in
    load_state unmarshal (files.read_file settings.state_file fs') settings 1700000300
    ≡ record (state_at whole whole_casts files marshal 30 draws moving (0 + steps done)) {
      saved_at = connection.save_times (steps done);
    }
unfolding steps device_outputs tick_outputs connection_run
file_follows_run_example =
    file_follows_run whole whole_casts files marshal unmarshal 30 settings Works draws moving 0
      1700000300 connection done [] (λ path. none) _ files-KeepsFile tt ran (ground arith) refl refl
  where
    ran :
        (connection_run whole whole_casts files marshal 30 settings draws moving 0 connection).0
        ≡ done ++ []
    ran =
        ap (λ (r : Run). r.0)
          (run_reads timeout (λ k. true) imei model
            (λ i. report_at whole whole_casts files marshal 30 clock 2 draws moving (0 + i))
            (heartbeat_tick ∷ []) (generate_auth_token imei 1700000000) session session session
            (ground arith) (ground arith) (ground arith) (λ k. refl))
        ∙ sym (append-nil done)
