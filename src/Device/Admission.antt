-- ===== src/Device/Admission.antt =====
-- The device and the server together: the login of `runDevice` against `Dispatch`.
pub mod Replied
pub mod Whole
use server_jt.Base.{
  ℕ, append-nil, ◌≤◌, ◌≡◌, refl, sym, ap, ◌∙◌, Bool, true, false, List, [], ◌∷◌, ◌++◌, arith,
  length, some,
}
use server_jt.Base.Text.{ascii}
use server_jt.Protocol.Types.{
  Bytes, IsU16, msg_registration, msg_authentication, msg_platform_resp, msg_registration_resp,
  reg_success, result_ok,
}
use server_jt.Protocol.Reader.{put_u16}
use server_jt.Protocol.Bcd.{IsPhone}
use server_jt.Protocol.Frame.{
  Frame, ReadError, ok, read_frame, write_frame, build_platform_ack, build_registration_ack,
}
use server_jt.Protocol.Frame.RoundTrip.{plain_frame, read_frame-write_frame}
use server_jt.Protocol.Registration.{RegistrationInfo, null_trimmed, generate_auth_token}
use server_jt.Session.{Session, ack, send, authenticated}
use server_jt.Session.Sequence.{read_frame-send}
use server_jt.World.{World, inc, frames_received, emit}
use server_jt.Configuration.{Config}
use server_jt.Actions.{Answers}
use server_jt.Registry.Map.{get}
use server_jt.Registry.Keys.{same_refl}
use server_jt.Registry.{found}
use server_jt.Handler.{dispatch, handle_registration, handle_authentication, msg_name}
use server_jt.Handler.Guard.{dispatch_registration, dispatch_authentication}
use server_jt.Handler.Written.{newest}
use server_jt.Handler.Registering.{
  refuses, stored, not_refuted, one_phone, handle_registration_accepts, handle_registration-newest,
}
use server_jt.Handler.Login.{handle_authentication_accepts, handle_authentication-newest}
use server_jt.Device.{build_reg_body, dev_id}
use server_jt.Device.Registers.{decode_registration-build_reg_body}
use server_jt.Device.Replies.{reg_reply-send}
use server_jt.Device.Run.{
  Tick, location_tick, Report, sent, write, main_loop, after_auth, after_reply, after_registration,
  run_device, auth_acked,
}
use mathlib.Core.Path.{subst}

module _ (e : ReadError) (writes : ℕ → Bool) (imei model : Bytes) (reports : ℕ → Report)
    (ts : List Tick) where
  -- The device accepts the reply to its registration and sends the token that is in it.
  reply_read :
      (s : Session) (seq : ℕ) (tok rest : Bytes)
      → IsPhone s.phone
      → after_registration e writes imei model reports ts (
          read_frame e
            ((send msg_registration_resp (build_registration_ack seq reg_success tok) s).1 ++ rest))
        ≡ write e writes imei model reports 2 msg_authentication tok
            (after_auth e writes imei model reports ts (read_frame e rest))
  unfolding after_registration after_reply
  reply_read s seq tok rest hp =
      let r = reg_reply-send e s hp rest seq reg_success tok in rw (r.0, r.1) refl

  -- The acknowledgement of the login takes it to its main loop.
  login_read :
      (f : Frame) (s : Session) (rest : Bytes)
      → IsPhone s.phone
      → after_auth e writes imei model reports ts (read_frame e ((ack f result_ok s).1 ++ rest))
        ≡ main_loop e writes imei model reports (location_tick ∷ ts) 3 0 rest
  unfolding after_auth ack plain_frame auth_acked build_platform_ack put_u16
  login_read f s rest hp =
      rw
        (read_frame-send e msg_platform_resp (build_platform_ack f.seq_num f.msg_id result_ok) rest
          s (omega arith) hp)
        refl

-- What the server decodes of the device's registration.
abbrev pub device_info : Bytes → Bytes → RegistrationInfo
device_info imei model = record {
  province_id = 6;
  city_id = 1;
  manuf_id = null_trimmed (ascii "SIMCO");
  device_model = null_trimmed model;
  device_id = null_trimmed (dev_id imei);
  plate_color = 2;
  plate_number = null_trimmed (ascii "P901");
}

module _ (imei model : Bytes) where
  -- The two frames of a login, as the server reads them.
  pub reg_frame : Frame
  reg_frame = plain_frame msg_registration imei 1 (build_reg_body imei model)

  pub auth_frame : Bytes → Frame
  auth_frame tok = plain_frame msg_authentication imei 2 tok

module _ (cfg : Config) (sid : ℕ) (a b : Answers) (imei model : Bytes) (w : World) where
  -- The world behind the registration, and behind the login with the token that was sent.
  pub registered_world : World
  registered_world = dispatch cfg a sid (reg_frame imei model) w

  abbrev pub issued : Bytes
  issued = generate_auth_token imei a.unix

  pub admitted_world : World
  admitted_world = dispatch cfg b sid (auth_frame imei model issued) registered_world

  counted : World → World
  counted v = emit (inc (frames_received (msg_name msg_registration))) v

  by_registration :
      registered_world ≡ handle_registration cfg a sid (reg_frame imei model) (counted w)
  unfolding registered_world counted reg_frame plain_frame
  by_registration = dispatch_registration cfg a sid (reg_frame imei model) w refl

  by_authentication :
      admitted_world
      ≡ handle_authentication cfg b sid
          (auth_frame imei model issued)
          (emit (inc (frames_received (msg_name msg_authentication))) registered_world)
  unfolding admitted_world auth_frame plain_frame
  by_authentication =
      dispatch_authentication cfg b sid (auth_frame imei model issued) registered_world refl

  module _ (hm : length model ≤ 20) (hr : refuses cfg.db_enabled a.row a.insert_ok ≡ false) where
    pub reg_done :
        ((registered_world.sessions sid).phone ≡ imei)
        × (stored (cfg.auth_token_prefix ++ imei) registered_world.trace ≡ found issued)
        × ((s : Session) × (s.phone ≡ imei)
            × (newest sid registered_world.trace
                ≡ (send msg_registration_resp (build_registration_ack 1 reg_success issued) s).1))
    unfolding reg_frame plain_frame issued
    reg_done =
        let f = reg_frame imei model in
        let hd = decode_registration-build_reg_body imei model hm in
        let done =
          handle_registration_accepts cfg a sid f (device_info imei model) (counted w) hd hr in
        rw by_registration (
          done.1,
          done.4,
          handle_registration-newest cfg a sid f (device_info imei model) (counted w) hd hr,
        )

    module _ (ht : b.token ≡ stored (cfg.auth_token_prefix ++ imei) registered_world.trace) where
      login_done :
          ((admitted_world.sessions sid).state ≡ authenticated)
          × (get imei admitted_world.local ≡ some sid)
          × ((s : Session) × (s.phone ≡ imei)
              × (newest sid admitted_world.trace
                  ≡ (ack (auth_frame imei model issued) result_ok s).1))
      unfolding auth_frame plain_frame emit
      login_done =
          let g = auth_frame imei model issued in
          let v = emit (inc (frames_received (msg_name msg_authentication))) registered_world in
          let valid = not_refuted b.token issued issued (ht ∙ reg_done.1) refl in
          let own = one_phone (registered_world.sessions sid).phone imei imei reg_done.0 refl in
          let taken = handle_authentication_accepts cfg b sid g v valid in
          let reply = handle_authentication-newest cfg b sid g v valid in
          rw by_authentication (
            taken.0,
            taken.2 imei ∙ ground (arith, own, same_refl imei),
            (reply.0, reply.1 ∙ own, reply.2),
          )

      -- A device logs in. The server reads the device's two frames as they were written; its
      -- replies take the device through the login into its main loop, on whatever follows them; and
      -- it has made the connection the authenticated entry of the device's phone. The conditions:
      -- the phone fits the codec, the model has at most 20 bytes, the database does not turn the
      -- device away, Redis has kept the token, and the device's writes succeed.
      pub device_logs_in :
          (e : ReadError) (writes : ℕ → Bool) (reports : ℕ → Report) (ts : List Tick) (rest : Bytes)
          → IsPhone imei
          → writes 1 ≡ true
          → writes 2 ≡ true
          → let reg = write_frame msg_registration imei 1 (build_reg_body imei model) in
            let auth = write_frame msg_authentication imei 2 issued in
            (read_frame e reg ≡ ok (reg_frame imei model, []))
            × (read_frame e auth ≡ ok (auth_frame imei model issued, []))
            × (run_device e writes imei model reports ts
                  (newest sid registered_world.trace ++ (newest sid admitted_world.trace ++ rest))
                ≡ sent reg (
                    sent auth
                      (main_loop e writes imei model reports (location_tick ∷ ts) 3 0 rest)))
            × ((admitted_world.sessions sid).state ≡ authenticated)
            × (get imei admitted_world.local ≡ some sid)
      unfolding reg_frame auth_frame run_device write
      device_logs_in e writes reports ts rest hp h1 h2 =
          let reg_reply_of = reg_done.2 in
          let auth_reply_of = login_done.2 in
          let s1 = reg_reply_of.0 in
          let s2 = auth_reply_of.0 in
          let body = build_reg_body imei model in
          (
            one_frame e msg_registration 1 body (omega arith) (omega arith),
            one_frame e msg_authentication 2 issued (omega arith) (omega arith),
            rw (h1, reg_reply_of.2, auth_reply_of.2)
                (ap (sent (write_frame msg_registration imei 1 body)) (
                  reply_read e writes imei model reports ts s1 1 issued _
                    (subst IsPhone (sym reg_reply_of.1) hp)
                  ∙ rw h2 (
                      ap (sent (write_frame msg_authentication imei 2 issued)) (
                        login_read e writes imei model reports ts (auth_frame imei model issued) s2
                          rest (subst IsPhone (sym auth_reply_of.1) hp))))),
            login_done.0,
            login_done.1,
          )
        where
          one_frame :
              (r : ReadError) (id seq : ℕ) (body : Bytes)
              → IsU16 id
              → IsU16 seq
              → read_frame r (write_frame id imei seq body) ≡ ok (plain_frame id imei seq body, [])
          one_frame r id seq body hi hs =
              ap (read_frame r) (sym (append-nil (write_frame id imei seq body)))
              ∙ read_frame-write_frame id seq imei body r [] [] hi hs hp tt
