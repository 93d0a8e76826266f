-- ===== src/Handler/Sent.antt =====
-- What a connection is sent for a registration and for an authentication.
use server_jt.Base.{
  ℕ, ◌≡◌, ◌≢◌, refl, ap, ◌∙◌, Bool, true, false, Option, none, some, ◌++◌, arith, ==_refl,
}
use server_jt.Protocol.Types.{Bytes, msg_registration_resp, reg_success, result_ok}
use server_jt.Protocol.Frame.{Frame, build_registration_ack}
use server_jt.Protocol.Location.{decoded}
use server_jt.Protocol.Registration.{RegistrationInfo, decode_registration, generate_auth_token}
use server_jt.Session.{Session, registered, send, ack, set_state}
use server_jt.World.{World, token_checked, emit, go, put_session}
use server_jt.Registry.{register, evict, close_session, store_auth_token, validate_auth_token}
use server_jt.Registry.Map.{get}
use server_jt.Store.{Row, check_or_create, status, no_rows, lookup_failed}
use server_jt.Configuration.{Config}
use server_jt.Actions.{Answers, ack_to, update, reply_to}
use server_jt.Handler.{
  handle_registration, handle_authentication, accept_registration, accept_login,
}
use server_jt.Handler.Registering.{refuses, checked, registered_by}
use server_jt.Handler.Login.{
  login_phone, adopted, own-adopted, promoted, own-registered, accepted-by,
}
use server_jt.Handler.Written.{writes_of}

module _ (cfg : Config) (a : Answers) (sid : ℕ) (f : Frame) where
  check-writes :
      (db : Bool) (row : Row) (ok : Bool) (model id : Bytes) (w : World)
      → writes_of sid (check_or_create db row ok f.phone model id w).1.trace ≡ writes_of sid w.trace
  unfolding check_or_create emit writes_of
  check-writes false row ok model id w = refl
  check-writes true (status st) ok model id w = refl
  check-writes true no_rows ok model id w = refl
  check-writes true lookup_failed ok model id w = refl

  accept_registration-writes :
      (info : RegistrationInfo) (w : World)
      → let token = generate_auth_token f.phone a.unix in
        (s : Session) × (s.phone ≡ f.phone)
        × (writes_of sid (accept_registration cfg a sid f info w).trace
            ≡ writes_of sid w.trace
              ++ (send msg_registration_resp
                  (build_registration_ack f.seq_num reg_success token)
                  s).1)
  unfolding accept_registration update put_session set_state store_auth_token emit reply_to go
      writes_of
  accept_registration-writes info w =
      let token = generate_auth_token f.phone a.unix in
      (
        record (w.sessions sid) {
          phone = f.phone;
          imei = info.device_id;
          state = registered;
          auth_token = token;
        },
        refl,
        rw (==_refl sid) refl,
      )

  -- An accepted registration is sent one frame: the reply with the token.
  pub handle_registration-writes :
      (info : RegistrationInfo) (w : World)
      → decode_registration f.body ≡ decoded info
      → refuses cfg.db_enabled a.row a.insert_ok ≡ false
      → let token = generate_auth_token f.phone a.unix in
        (s : Session) × (s.phone ≡ f.phone)
        × (writes_of sid (handle_registration cfg a sid f w).trace
            ≡ writes_of sid w.trace
              ++ (send msg_registration_resp
                  (build_registration_ack f.seq_num reg_success token)
                  s).1)
  unfolding checked
  handle_registration-writes info w hd hr =
      let v = checked cfg a sid f info w in
      let reply = accept_registration-writes info v in
      (
        reply.0,
        reply.1,
        rw (registered_by cfg a sid f info w hd, hr)
            (reply.2
              ∙ ap
                  (λ b.
                    b
                    ++ (send msg_registration_resp
                        (build_registration_ack f.seq_num reg_success
                          (generate_auth_token f.phone a.unix))
                        reply.0).1)
                  (check-writes cfg.db_enabled a.row a.insert_ok info.device_model info.device_id
                    w)),
      )

  evict-writes :
      (phone : Bytes) (o : Option ℕ) (w : World)
      → writes_of sid (evict sid phone o w).trace ≡ writes_of sid w.trace
  unfolding evict close_session emit put_session writes_of
  evict-writes phone none w = refl
  evict-writes phone (some old) w = ground arith

  register-writes : (w : World) → writes_of sid (register sid w).trace ≡ writes_of sid w.trace
  unfolding register go writes_of
  register-writes w = let phone = (w.sessions sid).phone in evict-writes phone (get phone w.local) w

  accept_login-writes :
      (w : World)
      → let w1 = register sid (promoted cfg a sid f w) in
        writes_of sid (accept_login cfg a sid f w).trace
        ≡ writes_of sid w.trace ++ (ack f result_ok (w1.sessions sid)).1
  unfolding accept_login emit go ack_to put_session update promoted writes_of
  accept_login-writes w =
      let w1 = register sid (promoted cfg a sid f w) in
      rw (==_refl sid) (
        ap (λ b. b ++ (ack f result_ok (w1.sessions sid)).1)
          (register-writes (promoted cfg a sid f w)))

  -- An accepted login is sent one frame: its acknowledgement.
  pub handle_authentication-writes :
      (w : World)
      → validate_auth_token a.token f.body ≢ some false
      → (s : Session) × (s.phone ≡ login_phone cfg a sid f w)
        × (writes_of sid (handle_authentication cfg a sid f w).trace
            ≡ writes_of sid w.trace ++ (ack f result_ok s).1)
  unfolding handle_authentication adopted emit update put_session set_state writes_of
  handle_authentication-writes w h =
      let v =
        emit (token_checked (cfg.auth_token_prefix ++ f.phone) f.body) (adopted cfg a sid f w) in
      let w1 = register sid (promoted cfg a sid f v) in
      (
        w1.sessions sid,
        ap (λ (s : Session). s.phone) (own-registered cfg a sid f v) ∙ own-adopted cfg a sid f w,
        ap (λ (u : World). writes_of sid u.trace)
              (accepted-by cfg a sid f v (validate_auth_token a.token f.body) h)
            ∙ accept_login-writes v,
      )
