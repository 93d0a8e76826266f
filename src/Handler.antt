-- ===== src/Handler.antt =====
-- server/internal/handler/handler.go: `Dispatch` and the handlers of the messages. A handler takes
-- the answers of the outside (Redis, MySQL, the connection, the clock), the session's pointer, the
-- frame and the world. Log lines are left out.
pub mod Batch
pub mod Guard
pub mod Replies
pub mod Kept
pub mod Keeps
pub mod Login
pub mod Registering
pub mod Progress
pub mod Located
pub mod Written
pub mod Books
pub mod Counted
pub mod Answering
pub mod Sent
pub mod Apart
pub mod Closing
pub mod Unique
use server_jt.Base.{
  ℕ, zero, suc, ◌+◌, ◌*◌, Bool, true, false, ◌||◌, Option, none, some, List, [], ◌∷◌, ◌++◌, ltb,
  ◌==◌, if◌then◌else◌, length, take, drop,
}
use server_jt.Base.Text.{ascii, same, decimal}
use server_jt.Protocol.Types.{
  Bytes, msg_terminal_resp, msg_heartbeat, msg_registration, msg_authentication, msg_terminal_props,
  msg_upgrade_result, msg_acc_status_report, msg_location_report, msg_batch_location, alarm_sos,
  msg_registration_resp, reg_success, reg_terminal_not_in_db, result_ok, result_fail,
  result_msg_error,
}
use server_jt.Protocol.Frame.{Frame, build_registration_ack}
use server_jt.Protocol.Location.{
  LocationReport, Decoded, decoded, body_too_short, decode_location, has_alarm,
}
use server_jt.Protocol.Registration.{RegistrationInfo, decode_registration, generate_auth_token}
use server_jt.Session.{
  Session, State, rank, registered, authenticated, set_state, send, ack, touch_location,
}
use server_jt.World.{
  World, Metric, Effect, Task, Payload, emit, go, put_session, inc, wrote, close_after,
  token_checked, publish_event, publish_location, no_payload, registration, login, frames_received,
  auth_successes, auth_violations, heartbeats, location_reports, sos_alarms, decode_errors,
  unknown_messages,
}
use server_jt.Configuration.{Config}
use server_jt.Actions.{Answers, update, ack_to, reply_to}
use server_jt.Registry.{TokenReply, register, heartbeat, store_auth_token, validate_auth_token}
use server_jt.Store.{
  Row, Approval, approved, blocked, auto_created, check_failed, check_or_create, record_heartbeat,
}

pub msg_name : ℕ → Bytes
msg_name id =
    if id == msg_heartbeat
    then ascii "heartbeat"
    else if id == msg_registration
    then ascii "registration"
    else if id == msg_authentication
    then ascii "authentication"
    else if id == msg_location_report
    then ascii "location"
    else if id == msg_batch_location
    then ascii "batch_location"
    else if id == msg_terminal_resp
    then ascii "terminal_resp"
    else if id == msg_terminal_props
    then ascii "terminal_props"
    else if id == msg_upgrade_result
    then ascii "upgrade_result"
    else if id == msg_acc_status_report
    then ascii "acc_status"
    else ascii "unknown"

module _ (cfg : Config) (a : Answers) (sid : ℕ) (f : Frame) where
  pub handle_heartbeat : World → World
  handle_heartbeat w =
      let w1 = heartbeat sid a.nanos w in
      let w2 = ack_to sid f result_ok w1 in
      let w3 = emit (inc heartbeats) w2 in
      let phone = (w3.sessions sid).phone in
      let w4 = record_heartbeat cfg.db_enabled phone w3 in
      go (publish_event (ascii "heartbeat") phone no_payload) w4

  pub reject_registration : World → World
  reject_registration w =
      let body = build_registration_ack f.seq_num reg_terminal_not_in_db [] in
      emit (close_after 200 sid) (reply_to sid msg_registration_resp body w)

  pub accept_registration : RegistrationInfo → World → World
  accept_registration info w =
      let token = generate_auth_token f.phone a.unix in
      let w1 = update sid (λ s. record s { phone = f.phone; imei = info.device_id }) w in
      let w2 = store_auth_token cfg.auth_token_prefix f.phone token w1 in
      let w3 = update sid (λ s. set_state registered (record s { auth_token = token })) w2 in
      let w4 =
        reply_to sid msg_registration_resp (build_registration_ack f.seq_num reg_success token)
          w3 in
      go
        (publish_event (ascii "device.registered") f.phone
          (registration f.phone info.device_id info.device_model info.province_id info.city_id))
        w4

  after_check : RegistrationInfo → Approval × World → World
  unfolding reject_registration accept_registration
  after_check info (check_failed, w) = reject_registration w
  after_check info (blocked, w) = reject_registration w
  after_check info (auto_created, w) = accept_registration info w
  after_check info (approved, w) = accept_registration info w

  decoded_registration : Decoded RegistrationInfo → World → World
  unfolding after_check
  decoded_registration (body_too_short n) w = ack_to sid f result_msg_error w
  decoded_registration (decoded info) w =
      after_check info (
        check_or_create cfg.db_enabled a.row a.insert_ok f.phone info.device_model info.device_id w)

  pub handle_registration : World → World
  unfolding decoded_registration
  handle_registration w = decoded_registration (decode_registration f.body) w

  -- `if s.Phone == "" { s.Phone = phone }`.
  pub adopt_phone : Session → Session
  adopt_phone s = if same s.phone [] then record s { phone = f.phone } else s

  pub accept_login : World → World
  accept_login w =
      let w1 = register sid (update sid (set_state authenticated) w) in
      let w2 = emit (inc auth_successes) (ack_to sid f result_ok w1) in
      let s = w2.sessions sid in
      go
        (publish_event (ascii "device.authenticated") f.phone
          (login f.phone s.imei s.remote_addr a.unix))
        w2

  reject_login : World → World
  reject_login w =
      emit (close_after 500 sid) (emit (inc auth_violations) (ack_to sid f result_fail w))

  -- A Redis error counts as valid.
  pub after_validation : Option Bool → World → World
  unfolding accept_login reject_login
  after_validation none w = accept_login w
  after_validation (some true) w = accept_login w
  after_validation (some false) w = reject_login w

  pub handle_authentication : World → World
  unfolding adopt_phone after_validation
  handle_authentication w =
      let w1 = update sid adopt_phone w in
      let w2 = emit (token_checked (cfg.auth_token_prefix ++ f.phone) f.body) w1 in
      after_validation (validate_auth_token a.token f.body) w2

  count_sos : LocationReport → World → World
  count_sos loc w = if has_alarm loc alarm_sos then emit (inc sos_alarms) w else w

  located : Bytes → Decoded LocationReport → World → World
  unfolding count_sos
  located phone (body_too_short n) w = emit (inc decode_errors) w
  located phone (decoded loc) w =
      let w1 = emit (inc location_reports) (update sid (touch_location a.nanos) w) in
      go (publish_location phone loc) (count_sos loc w1)

  pub handle_location : World → World
  unfolding located
  handle_location w =
      let w1 = ack_to sid f result_ok w in
      let own = (w1.sessions sid).phone in
      let phone = if same own [] then f.phone else own in
      if a.write_ok
      then (if same phone [] then w1 else located phone (decode_location f.body) w1)
      else w1

  batch_item : Decoded LocationReport → World → World
  batch_item (body_too_short n) w = emit (inc decode_errors) w
  batch_item (decoded loc) w =
      go (publish_location (w.sessions sid).phone loc) (emit (inc location_reports) w)

  -- The loop with `rounds` of `count` left, on the body from `offset` on.
  pub batch_loop : ℕ → Bytes → World → World
  batch_loop zero r w = w
  batch_loop (suc rounds) [] w = w
  batch_loop (suc rounds) (x ∷ []) w = w
  batch_loop (suc rounds) (x ∷ y ∷ r) w =
      let item_len = x * 256 + y in
      let next =
        batch_loop rounds (drop item_len r) (batch_item (decode_location (take item_len r)) w) in
      if ltb (length r) item_len then w else next

  batch_body : Bytes → World → World
  batch_body (x ∷ y ∷ z ∷ r) w = batch_loop (x * 256 + y) r w
  batch_body (x ∷ y ∷ []) w = w
  batch_body (x ∷ []) w = w
  batch_body [] w = w

  pub handle_batch_location : World → World
  unfolding batch_body
  handle_batch_location w =
      let w1 = ack_to sid f result_ok w in if a.write_ok then batch_body f.body w1 else w1

  unknown_message : World → World
  unknown_message w = ack_to sid f result_ok (emit (inc unknown_messages) w)

  -- The second `switch`.
  pub handle : World → World
  handle w =
      if f.msg_id == msg_heartbeat
      then handle_heartbeat w
      else if f.msg_id == msg_registration
      then handle_registration w
      else if f.msg_id == msg_authentication
      then handle_authentication w
      else if f.msg_id == msg_location_report
      then handle_location w
      else if f.msg_id == msg_batch_location
      then handle_batch_location w
      else if f.msg_id == msg_terminal_resp
      then w
      else if f.msg_id == msg_terminal_props
      then ack_to sid f result_ok w
      else if f.msg_id == msg_upgrade_result
      then ack_to sid f result_ok w
      else if f.msg_id == msg_acc_status_report
      then ack_to sid f result_ok w
      else unknown_message w

  unfoldable pub allowed_before_auth : Bool
  allowed_before_auth =
      f.msg_id == msg_registration
      || f.msg_id == msg_authentication
      || f.msg_id == msg_terminal_resp
      || f.msg_id == msg_location_report
      || f.msg_id == msg_batch_location

  pub dispatch : World → World
  dispatch w =
      let w1 = emit (inc (frames_received (msg_name f.msg_id))) w in
      if ltb (rank (w1.sessions sid).state) (rank authenticated)
      then (if allowed_before_auth then handle w1 else ack_to sid f result_ok w1)
      else handle w1
