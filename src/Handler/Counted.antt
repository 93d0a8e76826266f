-- ===== src/Handler/Counted.antt =====
-- Every dispatch keeps the books of the counters.
use server_jt.Base.{
  ℕ, zero, suc, ◌+◌, ◌*◌, ap, Bool, true, false, Option, none, some, [], ◌∷◌, arith, ◌==◌, take,
  drop, Bool-cases, inl, inr, ltb, length,
}
use server_jt.Base.Text.{ascii, same}
use server_jt.Protocol.Types.{
  Bytes, result_ok, result_fail, alarm_sos, msg_heartbeat, msg_registration, msg_authentication,
  msg_location_report, msg_batch_location, msg_terminal_resp, msg_terminal_props,
  msg_upgrade_result, msg_acc_status_report,
}
use server_jt.Protocol.Frame.{Frame}
use server_jt.Protocol.Location.{
  LocationReport, Decoded, decoded, body_too_short, decode_location, has_alarm,
}
use server_jt.Protocol.Registration.{RegistrationInfo, decode_registration}
use server_jt.Session.{set_state, authenticated, rank}
use server_jt.World.{World, inc, frames_received, emit, go, put_session}
use server_jt.Registry.{register, heartbeat, store_auth_token}
use server_jt.Store.{Approval, approved, blocked, auto_created, check_failed}
use server_jt.Configuration.{Config}
use server_jt.Actions.{Answers, ack_to, reply_to, update}
use server_jt.Handler.{
  dispatch, handle, handle_heartbeat, handle_registration, handle_authentication, handle_location,
  handle_batch_location, reject_registration, accept_registration, after_check,
  decoded_registration, accept_login, reject_login, after_validation, located, count_sos,
  batch_item, batch_loop, batch_body, unknown_message, msg_name, allowed_before_auth,
}
use server_jt.Handler.Books.{
  Books, ack_to-Books, register-Books, beat-Books, success-Books, check-Books, Books-if,
}

module _ (cfg : Config) (a : Answers) (sid : ℕ) (f : Frame) where
  reject-Books : (w : World) → Books w.trace → Books (reject_registration cfg a sid f w).trace
  unfolding reject_registration reply_to emit put_session
  reject-Books w h = h

  accept-Books :
      (info : RegistrationInfo) (w : World)
      → Books w.trace
      → Books (accept_registration cfg a sid f info w).trace
  unfolding accept_registration reply_to emit put_session go update store_auth_token
  accept-Books info w h = h

  after_check-Books :
      (info : RegistrationInfo) (p : Approval × World)
      → Books p.1.trace
      → Books (after_check cfg a sid f info p).trace
  unfolding after_check
  after_check-Books info (check_failed, w) = reject-Books w
  after_check-Books info (blocked, w) = reject-Books w
  after_check-Books info (auto_created, w) = accept-Books info w
  after_check-Books info (approved, w) = accept-Books info w

  decoded-Books :
      (d : Decoded RegistrationInfo) (w : World)
      → Books w.trace
      → Books (decoded_registration cfg a sid f d w).trace
  unfolding decoded_registration
  decoded-Books (body_too_short n) w h = ack_to-Books sid f _ w h
  decoded-Books (decoded info) w h =
      after_check-Books info _
        (check-Books cfg.db_enabled a.row a.insert_ok f.phone info.device_model info.device_id w h)

  heartbeat-Books : (w : World) → Books w.trace → Books (handle_heartbeat cfg a sid f w).trace
  unfolding handle_heartbeat heartbeat go put_session emit ack_to
  heartbeat-Books w h =
      let v = ack_to sid f result_ok (heartbeat sid a.nanos w) in
      let phone = (v.sessions sid).phone in
      beat-Books cfg.db_enabled phone (ascii "heartbeat") phone v
        (ack_to-Books sid f result_ok (heartbeat sid a.nanos w) h)

  accept_login-Books : (w : World) → Books w.trace → Books (accept_login cfg a sid f w).trace
  unfolding accept_login update put_session
  accept_login-Books w h =
      let v = update sid (set_state authenticated) w in
      success-Books _ _ _ _ _ _ _
        (ack_to-Books sid f result_ok (register sid v) (register-Books sid v h))

  reject_login-Books : (w : World) → Books w.trace → Books (reject_login cfg a sid f w).trace
  unfolding reject_login emit
  reject_login-Books w h = ack_to-Books sid f result_fail w h

  login-Books :
      (o : Option Bool) (w : World) → Books w.trace → Books (after_validation cfg a sid f o w).trace
  unfolding after_validation
  login-Books none w = accept_login-Books w
  login-Books (some true) w = accept_login-Books w
  login-Books (some false) w = reject_login-Books w

  authentication-Books :
      (w : World) → Books w.trace → Books (handle_authentication cfg a sid f w).trace
  unfolding handle_authentication emit update put_session
  authentication-Books w h = login-Books _ _ h

  -- A report is counted and published; its alarm is counted with it.
  located-Books :
      (p : Bytes) (d : Decoded LocationReport) (w : World)
      → Books w.trace
      → Books (located cfg a sid f p d w).trace
  unfolding located emit go update put_session count_sos
  located-Books p (body_too_short n) w h = h
  located-Books p (decoded loc) w (r, s, b, l, c) = elim (Bool-cases (has_alarm loc alarm_sos)) [
    | inl e ↦ rw e (ap suc r, omega arith, b, l, c)
    | inr e ↦ rw e (ap suc r, omega arith, b, l, c)
  ]

  location-Books : (w : World) → Books w.trace → Books (handle_location cfg a sid f w).trace
  unfolding handle_location
  location-Books w h =
      let w1 = ack_to sid f result_ok w in
      let h1 = ack_to-Books sid f result_ok w h in
      Books-if a.write_ok _ w1
        (Books-if (same _ []) w1 _ h1 (located-Books _ (decode_location f.body) w1 h1)) h1

  item-Books :
      (d : Decoded LocationReport) (w : World)
      → Books w.trace
      → Books (batch_item cfg a sid f d w).trace
  unfolding batch_item emit go
  item-Books (body_too_short n) w h = h
  item-Books (decoded loc) w (r, s, b, l, c) = (ap suc r, omega arith, b, l, c)

  batch_loop-Books :
      (n : ℕ) (r : Bytes) (w : World) → Books w.trace → Books (batch_loop cfg a sid f n r w).trace
  unfolding batch_loop
  batch_loop-Books zero r w h = h
  batch_loop-Books (suc n) [] w h = h
  batch_loop-Books (suc n) (x ∷ []) w h = h
  batch_loop-Books (suc n) (x ∷ y ∷ r) w h =
      let item = decode_location (take (x * 256 + y) r) in
      Books-if (ltb (length r) (x * 256 + y)) w _ h (
        batch_loop-Books n (drop (x * 256 + y) r) (batch_item cfg a sid f item w)
          (item-Books item w h))

  batch_body-Books :
      (r : Bytes) (w : World) → Books w.trace → Books (batch_body cfg a sid f r w).trace
  unfolding batch_body
  batch_body-Books (x ∷ y ∷ z ∷ r) w h = batch_loop-Books _ r w h
  batch_body-Books (x ∷ y ∷ []) w h = h
  batch_body-Books (x ∷ []) w h = h
  batch_body-Books [] w h = h

  batch-Books : (w : World) → Books w.trace → Books (handle_batch_location cfg a sid f w).trace
  unfolding handle_batch_location
  batch-Books w h =
      let h1 = ack_to-Books sid f result_ok w h in
      Books-if a.write_ok _ _ (batch_body-Books f.body _ h1) h1

  unknown-Books : (w : World) → Books w.trace → Books (unknown_message cfg a sid f w).trace
  unfolding unknown_message emit
  unknown-Books w h = ack_to-Books sid f _ _ h

  registration-Books : (w : World) → Books w.trace → Books (handle_registration cfg a sid f w).trace
  unfolding handle_registration
  registration-Books w h = decoded-Books (decode_registration f.body) w h

  handle-Books : (w : World) → Books w.trace → Books (handle cfg a sid f w).trace
  unfolding handle
  handle-Books w h =
      let acked = ack_to-Books sid f result_ok w h in
      Books-if (f.msg_id == msg_heartbeat) _ _ (heartbeat-Books w h) (
        Books-if (f.msg_id == msg_registration) _ _ (registration-Books w h) (
          Books-if (f.msg_id == msg_authentication) _ _ (authentication-Books w h) (
            Books-if (f.msg_id == msg_location_report) _ _ (location-Books w h) (
              Books-if (f.msg_id == msg_batch_location) _ _ (batch-Books w h) (
                Books-if (f.msg_id == msg_terminal_resp) _ _ h (
                  Books-if (f.msg_id == msg_terminal_props) _ _ acked (
                    Books-if (f.msg_id == msg_upgrade_result) _ _ acked (
                      Books-if (f.msg_id == msg_acc_status_report) _ _ acked
                        (unknown-Books w h)))))))))

  -- A dispatch keeps the books.
  pub dispatch-Books : (w : World) → Books w.trace → Books (dispatch cfg a sid f w).trace
  unfolding dispatch emit
  dispatch-Books w h =
      let w1 = emit (inc (frames_received (msg_name f.msg_id))) w in
      Books-if (ltb (rank (w.sessions sid).state) (rank authenticated)) _ _
        (Books-if (allowed_before_auth cfg a sid f) _ _ (handle-Books w1 h)
          (ack_to-Books sid f result_ok w1 h))
        (handle-Books w1 h)
