-- ===== src/Device/Admission/Whole.antt =====
-- One connection from the first frame to the last: `runDevice` on what `handleConn` writes, and
-- `handleConn` on what `runDevice` writes.
use server_jt.Base.{
  ℕ, ◌≤◌, ◌≡◌, ◌≢◌, sym, ap, ◌∙◌, Bool, true, false, List, [], ◌∷◌, ◌++◌, arith, length, append-nil,
  none,
}
use server_jt.Protocol.Types.{
  Bytes, msg_registration, msg_authentication, msg_registration_resp, reg_success, result_ok,
}
use server_jt.Protocol.Bcd.{IsPhone}
use server_jt.Protocol.Frame.{ReadError, closed, write_frame, build_registration_ack}
use server_jt.Protocol.Frame.Errors.{read_frame-closed_iff}
use server_jt.Protocol.Registration.{generate_auth_token}
use server_jt.Session.{Session, ack, send}
use server_jt.World.{World}
use server_jt.Configuration.{Config}
use server_jt.Actions.{Answers}
use server_jt.Registry.Map.{get}
use server_jt.Handler.Written.{writes_of}
use server_jt.Handler.Registering.{refuses, stored}
use server_jt.Server.{accept, leave, handle_conn}
use server_jt.Server.Frames.{Message, wire_frames, dispatch_all, handle_conn_dispatches}
use server_jt.Device.{build_reg_body}
use server_jt.Device.Run.{
  Output, written, idle, Tick, location_tick, Report, sent, write, run_device,
}
use server_jt.Device.Ticks.{tick_outputs, acks, main_loop-acks}
use server_jt.Device.Conversation.{
  joined, messages, messages-AreMessages, wire_frames-messages, tick_dispatches,
  tick_dispatches-kept, dispatch_all-messages, writes_of-dispatches,
}
use server_jt.Device.Admission.{
  reg_frame, auth_frame, registered_world, admitted_world, issued, login_done, reply_read,
  login_read,
}
use server_jt.Device.Admission.Replied.{
  accept-writes, leave-writes, leave-get, append_four, reg_sent, login_sent,
}
use mathlib.Core.Path.{subst}

module _ (e : ReadError) (writes : ℕ → Bool) (imei model : Bytes) (reports : ℕ → Report)
    (ts : List Tick) where
  -- What the device does in a run.
  unfoldable pub device_outputs : Bytes → List Output
  device_outputs token =
      written (write_frame msg_registration imei 1 (build_reg_body imei model))
      ∷ written (write_frame msg_authentication imei 2 token)
      ∷ tick_outputs e writes imei model reports (location_tick ∷ ts) 3 0

  pub run_reads :
      (token : Bytes) (s1 s2 s3 : Session)
      → IsPhone s1.phone
      → IsPhone s2.phone
      → IsPhone s3.phone
      → ((i : ℕ) → writes i ≡ true)
      → run_device e writes imei model reports ts (
          (send msg_registration_resp (build_registration_ack 1 reg_success token) s1).1
          ++ ((ack (auth_frame imei model token) result_ok s2).1
              ++ (acks e writes imei model reports (location_tick ∷ ts) 3 0 s3 ++ [])))
        ≡ (device_outputs token, idle)
  unfolding device_outputs run_device write sent
  run_reads token s1 s2 s3 h1 h2 h3 hw = rw (hw 1) (
      ap (sent (write_frame msg_registration imei 1 (build_reg_body imei model))) (
        reply_read e writes imei model reports ts s1 1 token _ h1
        ∙ rw (hw 2) (
            ap (sent (write_frame msg_authentication imei 2 token)) (
              login_read e writes imei model reports ts (auth_frame imei model token) s2 _ h2
              ∙ main_loop-acks e writes imei model reports (location_tick ∷ ts) 3 0 s3 [] h3 hw))))

  module _ (cfg : Config) (answers : ℕ → Answers) (sid : ℕ) where
    session_messages : Bytes → List Message
    session_messages token =
        record {
          id = msg_registration;
          phone = imei;
          seq_num = 1;
          body = build_reg_body imei model;
        }
        ∷ record { id = msg_authentication; phone = imei; seq_num = 2; body = token }
        ∷ messages e writes imei model reports cfg answers sid (location_tick ∷ ts) 3 0

    session_wire :
        (token : Bytes) → wire_frames (session_messages token) ++ [] ≡ joined (device_outputs token)
    unfolding session_messages wire_frames joined device_outputs
    session_wire token =
        let reg = write_frame msg_registration imei 1 (build_reg_body imei model) in
        append-nil (wire_frames (session_messages token))
        ∙ ap (λ bs. reg ++ (write_frame msg_authentication imei 2 token ++ bs))
            (wire_frames-messages e writes imei model reports cfg answers sid (location_tick ∷ ts) 3
              0)

    -- The connection handles the frames of the run.
    session_served :
        (addr : Bytes) (now : ℕ) (w : World)
        → IsPhone imei
        → let w0 = accept sid addr now w in
          let token = issued cfg sid (answers 0) (answers 1) imei model w0 in
          handle_conn cfg answers sid e addr now (joined (device_outputs token)) w
          ≡ leave sid (
              tick_dispatches e writes imei model reports cfg answers sid
                (location_tick ∷ ts)
                2
                3
                0
                (admitted_world cfg sid (answers 0) (answers 1) imei model w0))
    unfolding session_messages dispatch_all admitted_world registered_world reg_frame auth_frame
    session_served addr now w h =
        let w0 = accept sid addr now w in
        let token = issued cfg sid (answers 0) (answers 1) imei model w0 in
        ap (λ s. handle_conn cfg answers sid e addr now s w) (sym (session_wire token))
        ∙ handle_conn_dispatches cfg answers sid e (session_messages token) [] (closed e) addr now w
            (
              (omega arith, omega arith, h),
              (
                (omega arith, omega arith, h),
                messages-AreMessages e writes imei model reports cfg answers sid
                    (location_tick ∷ ts) 3 0 h,
              ),
            )
            ((read_frame-closed_iff e []).1 tt)
        ∙ ap (leave sid) (
            dispatch_all-messages e writes imei model reports cfg answers sid (location_tick ∷ ts) 2
              3 0 (admitted_world cfg sid (answers 0) (answers 1) imei model w0))

    -- The whole of a connection. There are bytes that the server writes while it handles the frames
    -- of a device, and on which the device sends just these frames, registration, login, a first
    -- report and one message for each of any ticks, and is still running, whatever MySQL, Redis and
    -- the clock answer to the messages behind the login; when the stream ends, the phone has no
    -- entry in the registry any more. The conditions: the phone fits the codec and is not empty, the
    -- model has at most 20 bytes, the database does not turn the device away, Redis has kept the
    -- token, and the device's writes succeed.
    pub whole_connection :
        (addr : Bytes) (now : ℕ) (w : World)
        → let w0 = accept sid addr now w in
          let token = generate_auth_token imei (answers 0).unix in
          IsPhone imei
          → length model ≤ 20
          → refuses cfg.db_enabled (answers 0).row (answers 0).insert_ok ≡ false
          → (answers 1).token
            ≡ stored
                (cfg.auth_token_prefix ++ imei)
                (registered_world cfg sid (answers 0) (answers 1) imei model w0).trace
          → ((i : ℕ) → writes i ≡ true)
          → imei ≢ []
          → let w' = handle_conn cfg answers sid e addr now (joined (device_outputs token)) w in
            (replies : Bytes) × (writes_of sid w'.trace ≡ writes_of sid w.trace ++ replies)
            × (run_device e writes imei model reports ts replies ≡ (device_outputs token, idle))
            × (get imei w'.local ≡ none)
    whole_connection addr now w hp hm hr ht hw hn =
        let w0 = accept sid addr now w in
        let a = answers 0 in
        let b = answers 1 in
        let w2 = admitted_world cfg sid a b imei model w0 in
        let token = generate_auth_token imei a.unix in
        let reg = reg_sent cfg sid a b imei model w0 hm hr in
        let login = login_sent cfg sid a b imei model w0 hm hr ht in
        let auth = login.1 in
        let s3 = w2.sessions sid in
        let served = session_served addr now w hp in
        let kept =
          tick_dispatches-kept e writes imei model reports cfg answers sid (location_tick ∷ ts) 2 3
            0 w2 in
        let reg_bytes =
          (send msg_registration_resp (build_registration_ack 1 reg_success token) reg.0).1 in
        let auth_bytes = (ack (auth_frame imei model token) result_ok auth.0).1 in
        let tick_bytes = acks e writes imei model reports (location_tick ∷ ts) 3 0 s3 in
        (
          reg_bytes ++ (auth_bytes ++ (tick_bytes ++ [])),
          ap (λ (v : World). writes_of sid v.trace) served
              ∙ leave-writes sid _
              ∙ writes_of-dispatches e writes imei model reports cfg answers sid
                  (location_tick ∷ ts) 2 3 0 w2
              ∙ ap (λ bs. bs ++ tick_bytes) (auth.2 ∙ ap (λ bs. bs ++ auth_bytes) reg.2)
              ∙ append_four reg_bytes auth_bytes tick_bytes (accept-writes sid addr now w),
          run_reads token reg.0 auth.0 s3 (subst IsPhone (sym reg.1) hp)
              (subst IsPhone (sym auth.1) hp) (subst IsPhone (sym login.0) hp) hw,
          ap (λ (v : World). get imei v.local) served
              ∙ leave-get sid imei
                  (tick_dispatches e writes imei model reports cfg answers sid (location_tick ∷ ts)
                    2 3 0 w2)
                  (kept.1 ∙ login.0) hn
                  (ap (get imei) kept.0 ∙ (login_done cfg sid a b imei model w0 hm hr ht).1),
        )
