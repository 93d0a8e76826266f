-- ===== src/Tests/Connections.antt =====
-- Runs of a connection (server/internal/server/tcp.go) and of a registration with its login.
use server_jt.Base.{
  none, false, ℕ, ◌≡◌, ◌≢◌, ◌++◌, refl, ap, ◌∙◌, true, false, some, List, [], ◌∷◌, arith,
}
use server_jt.Base.Text.{ascii, same}
use server_jt.Protocol.Types.{Bytes, msg_registration_resp, reg_terminal_not_in_db}
use server_jt.Protocol.Frame.{Frame, timeout, closed, build_registration_ack}
use server_jt.Protocol.Frame.Errors.{read_frame-closed_iff}
use server_jt.Protocol.Registration.{RegistrationInfo, decode_registration}
use server_jt.Protocol.Registration.Layouts.{
  registration_body, info_of, decode_registration_compact,
}
use server_jt.Protocol.Location.{decoded}
use server_jt.Session.{Session, new_session, connected, registered, send}
use server_jt.World.{
  emit, inc, frames_received, put_session, World, drop_online, close_after, wrote,
}
use server_jt.Registry.{found, validate_auth_token}
use server_jt.Registry.Map.{get}
use server_jt.Registry.Redis.{online_after, run_tasks}
use server_jt.Store.{status, no_rows}
use server_jt.Configuration.{Config, load}
use server_jt.Actions.{Answers}
use server_jt.Protocol.Registration.{generate_auth_token}
use server_jt.Handler.{dispatch, msg_name, handle_registration, handle_authentication}
use server_jt.Handler.Guard.{dispatch_authentication}
use server_jt.Registry.Keys.{same_refl}
use server_jt.Handler.Registering.{
  stored, checked, handle_registration_accepts, handle_registration_rejects,
}
use server_jt.Server.{accept, leave, handle_conn}
use server_jt.Server.Frames.{Message, wire_frames, dispatch_all, handle_conn_dispatches}
use server_jt.Server.Steps.{Reachable, starts, steps, accepts, dispatches}
use server_jt.Server.Invariant.{entry_left_connected}
use server_jt.Server.Stale.{renamed_session_stays}
use server_jt.Server.Impostor.{rejected_login_drops_online}
use server_jt.Handler.Login.{handle_authentication_accepts}

abbrev pub phone : Bytes
phone = ascii "13900000001"

abbrev pub cfg : Config
cfg = record (load (λ key. []) (λ d. none) (ascii "host")) {
  db_enabled = true;
  auth_token_prefix = ascii "auth:";
}

abbrev pub answers : Answers
answers = record {
  write_ok = true;
  token = found (generate_auth_token phone 1700000000);
  row = no_rows;
  insert_ok = true;
  nanos = 1700000000000000000;
  unix = 1700000000;
}

abbrev blocked_device : Answers
blocked_device = record answers { row = status (ascii "blocked") }

abbrev pub frame : ℕ → Bytes → Frame
frame id body = record {
  msg_id = id;
  phone = phone;
  seq_num = 5;
  body = body;
  is_subpackage = false;
  total_pkg = 0;
  pkg_seq = 0;
}

abbrev pub fresh : Session
fresh = new_session (ascii "10.0.0.1:4000") 1700000000

abbrev pub empty_world : World
empty_world = record { sessions = λ i. fresh; local = []; pending = []; trace = [] }

-- A heartbeat and an authentication, and bytes that are no frame.
abbrev messages : List Message
messages =
    record { id = 2; phone = phone; seq_num = 1; body = [] }
    ∷ record { id = 0x0102; phone = phone; seq_num = 2; body = ascii "token" }
    ∷ []

handle_conn_dispatches_example :
    handle_conn cfg
      (λ k. answers)
      3
      timeout
      (ascii "10.0.0.1:4000")
      1700000000
      (wire_frames messages ++ 1 ∷ 2 ∷ [])
      empty_world
    ≡ leave 3 (
        dispatch_all cfg
          (λ k. answers)
          3
          timeout
          0
          messages
          (accept 3 (ascii "10.0.0.1:4000") 1700000000 empty_world))
handle_conn_dispatches_example =
    handle_conn_dispatches cfg (λ k. answers) 3 timeout messages (1 ∷ 2 ∷ []) (closed timeout)
      (ascii "10.0.0.1:4000") 1700000000 empty_world (ground arith)
      ((read_frame-closed_iff timeout (1 ∷ 2 ∷ [])).1 (ground arith))

abbrev manuf : Bytes
manuf = ascii "ACME1"

abbrev model : Bytes
model = ascii "P901" ++ 0 ∷ 0 ∷ 0 ∷ 0 ∷ []

abbrev device : Bytes
device = ascii "DEV0001"

abbrev info : RegistrationInfo
info = info_of 44 301 manuf model device 1 (ascii "B1234")

abbrev registering : Frame
registering = frame 0x0100 (registration_body 44 301 manuf model device 1 (ascii "B1234"))

decode_registering : decode_registration registering.body ≡ decoded info
decode_registering =
    decode_registration_compact 44 301 1 manuf model device (ascii "B1234") (omega arith)
      (omega arith) refl refl refl (omega arith)

handle_registration_rejects_example :
    let w' = handle_registration cfg blocked_device 3 registering empty_world in
    let body = build_registration_ack 5 reg_terminal_not_in_db [] in
    (w'.sessions 3 ≡ (send msg_registration_resp body fresh).0)
    × (w'.local ≡ [])
    × (w'.pending ≡ [])
    × (w'.trace
        ≡ close_after 200 3
          ∷ wrote 3 (send msg_registration_resp body fresh).1
          ∷ (checked cfg blocked_device 3 registering info empty_world).trace)
unfolding same
handle_registration_rejects_example =
    handle_registration_rejects cfg blocked_device 3 registering info empty_world decode_registering
      refl

abbrev pub login : Frame
login = frame 0x0102 (generate_auth_token phone 1700000000)

registered_run :
    let w' = handle_registration cfg answers 3 registering empty_world in
    let token = generate_auth_token phone 1700000000 in
    ((w'.sessions 3).state ≡ registered)
    × ((w'.sessions 3).phone ≡ phone)
    × ((w'.sessions 3).imei ≡ info.device_id)
    × ((w'.sessions 3).auth_token ≡ token)
    × (stored (cfg.auth_token_prefix ++ phone) w'.trace ≡ found token)
registered_run =
    handle_registration_accepts cfg answers 3 registering info empty_world decode_registering refl

abbrev secret_kept : Answers
secret_kept = record answers { token = found (ascii "secret") }

abbrev impostor : Frame
impostor = frame 0x0102 (ascii "guess")

-- The session 0 is registered under the phone.
abbrev taken_world : World
taken_world = record empty_world { local = (phone, 0) ∷ [] }

rejected_login_drops_online_example :
    let w' = leave 1 (handle_authentication cfg secret_kept 1 impostor taken_world) in
    (get phone w'.local ≡ some 0)
    × (w'.pending ≡ [] ++ drop_online 1 ∷ [])
    × (online_after phone (run_tasks (ascii "session:") 1700000000 w' (drop_online 1 ∷ [])) (some 5)
        ≡ none)
unfolding get new_session validate_auth_token same
rejected_login_drops_online_example =
    rejected_login_drops_online cfg secret_kept 1 0 impostor taken_world (ascii "session:")
      1700000000 (some 5) refl (ground arith) (omega arith) refl refl

-- The session 3 is accepted and logs in.
abbrev pub entered : World
entered = accept 3 (ascii "10.0.0.1:4000") 1700000000 empty_world

abbrev pub logged_in_world : World
logged_in_world = dispatch cfg answers 3 login entered

good_token : validate_auth_token answers.token login.body ≢ some false
unfolding validate_auth_token
good_token = ground (arith, same_refl (generate_auth_token phone 1700000000))

logged_in_entry : get phone logged_in_world.local ≡ some 3
unfolding accept emit put_session new_session same get
logged_in_entry =
    ap (λ v. get phone v.local) (dispatch_authentication cfg answers 3 login entered refl)
    ∙ (handle_authentication_accepts cfg answers 3 login
          (emit (inc (frames_received (msg_name 0x0102))) entered) good_token).2
        phone

pub logged_in_world-Reachable : Reachable cfg logged_in_world
unfolding get
logged_in_world-Reachable =
    steps entered logged_in_world
      (steps empty_world entered (starts (λ i. fresh))
        (accepts 3 (ascii "10.0.0.1:4000") 1700000000 empty_world (λ j. ground arith)))
      (dispatches answers 3 login entered)

entry_left_connected_example : (logged_in_world.sessions 3).state ≢ connected
entry_left_connected_example =
    entry_left_connected cfg logged_in_world phone 3 logged_in_world-Reachable logged_in_entry

-- The connection 3 is logged in under another phone number.
abbrev other_phone : Bytes
other_phone = ascii "13900000002"

abbrev other_login : World
other_login = record empty_world { local = (other_phone, 3) ∷ [] }

renamed_session_stays_example :
    let w' = leave 3 (handle_registration cfg answers 3 registering other_login) in
    (get other_phone w'.local ≡ some 3) × ((w'.sessions 3).conn_open ≡ false)
unfolding same get
renamed_session_stays_example =
    renamed_session_stays cfg answers 3 registering info other_login other_phone refl (ground arith)
      decode_registering refl

-- Two heartbeats of a peer that has not logged in, and bytes that are no frame.
abbrev beating : List Message
beating =
    record { id = 2; phone = phone; seq_num = 1; body = [] }
    ∷ record { id = 2; phone = other_phone; seq_num = 2; body = ascii "body" }
    ∷ []
