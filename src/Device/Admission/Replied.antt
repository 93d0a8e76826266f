-- ===== src/Device/Admission/Replied.antt =====
-- The bytes that a connection is sent while a device logs in, and what its ends change.
use server_jt.Base.{
  ℕ, ◌≤◌, ◌≡◌, ◌≢◌, refl, sym, ap, ◌∙◌, false, [], ◌++◌, arith, length, append_assoc, append-nil,
  some, none,
}
use server_jt.Protocol.Types.{
  Bytes, msg_authentication, msg_registration_resp, reg_success, result_ok,
}
use server_jt.Protocol.Frame.{build_registration_ack}
use server_jt.Protocol.Frame.RoundTrip.{plain_frame}
use server_jt.Session.{Session, ack, send}
use server_jt.World.{World, auth_timer_stopped, inc, frames_received, emit, go, put_session}
use server_jt.Configuration.{Config}
use server_jt.Actions.{Answers}
use server_jt.Registry.{unregister}
use server_jt.Registry.Map.{get}
use server_jt.Registry.Keys.{same_iff}
use server_jt.Registry.Laws.{get-unregister}
use server_jt.Handler.{msg_name}
use server_jt.Handler.Written.{writes_of}
use server_jt.Handler.Registering.{refuses, stored, not_refuted, one_phone}
use server_jt.Handler.Login.{handle_authentication_accepts}
use server_jt.Handler.Sent.{handle_registration-writes, handle_authentication-writes}
use server_jt.Server.{close_conn, accept, leave}
use server_jt.Device.Registers.{decode_registration-build_reg_body}
use server_jt.Device.Admission.{
  reg_frame, auth_frame, device_info, registered_world, admitted_world, issued, counted,
  by_registration, by_authentication, reg_done,
}

pub accept-writes :
    (sid : ℕ) (addr : Bytes) (now : ℕ) (w : World)
    → writes_of sid (accept sid addr now w).trace ≡ writes_of sid w.trace
unfolding accept emit put_session writes_of
accept-writes sid addr now w = refl

pub leave-writes : (sid : ℕ) (w : World) → writes_of sid (leave sid w).trace ≡ writes_of sid w.trace
unfolding leave emit unregister go writes_of close_conn put_session
leave-writes sid w = ground arith

-- A connection that is the entry of its phone takes it out when it ends.
pub leave-get :
    (sid : ℕ) (phone : Bytes) (w : World)
    → (w.sessions sid).phone ≡ phone
    → phone ≢ []
    → get phone w.local ≡ some sid
    → get phone (leave sid w).local ≡ none
unfolding leave emit close_conn put_session
leave-get sid phone w hp hn hg =
    get-unregister sid (emit (auth_timer_stopped sid) w) phone
    ∙ ground
        (arith, hp, hg, same_iff (w.sessions sid).phone [], same_iff (w.sessions sid).phone phone)

pub append_four :
    {o p : Bytes} (a b c : Bytes) → o ≡ p → ((o ++ a) ++ b) ++ c ≡ p ++ (a ++ (b ++ (c ++ [])))
append_four {o} {p} a b c h =
    append_assoc (o ++ a) b c
    ∙ append_assoc o a (b ++ c)
    ∙ ap (λ x. x ++ (a ++ (b ++ c))) h
    ∙ ap (λ x. p ++ (a ++ (b ++ x))) (sym (append-nil c))

module _ (cfg : Config) (sid : ℕ) (a b : Answers) (imei model : Bytes) (w : World)
    (hm : length model ≤ 20) (hr : refuses cfg.db_enabled a.row a.insert_ok ≡ false) where
  -- What the connection is sent for the registration of the device.
  pub reg_sent :
      (s : Session) × (s.phone ≡ imei)
      × (writes_of sid (registered_world cfg sid a b imei model w).trace
          ≡ writes_of sid w.trace
            ++ (send msg_registration_resp
                (build_registration_ack 1 reg_success (issued cfg sid a b imei model w))
                s).1)
  unfolding reg_frame plain_frame counted emit writes_of
  reg_sent =
      let hd = decode_registration-build_reg_body imei model hm in
      rw (by_registration cfg sid a b imei model w) (
        handle_registration-writes cfg a sid (reg_frame imei model) (device_info imei model)
          (counted cfg sid a b imei model w w) hd hr)

  -- What it is sent for the login behind it.
  pub login_sent :
      b.token
        ≡ stored (cfg.auth_token_prefix ++ imei) (registered_world cfg sid a b imei model w).trace
      → (((admitted_world cfg sid a b imei model w).sessions sid).phone ≡ imei)
        × ((s : Session) × (s.phone ≡ imei)
            × (writes_of sid (admitted_world cfg sid a b imei model w).trace
                ≡ writes_of sid (registered_world cfg sid a b imei model w).trace
                  ++ (ack (auth_frame imei model (issued cfg sid a b imei model w)) result_ok s).1))
  unfolding auth_frame plain_frame emit writes_of
  login_sent ht =
      let token = issued cfg sid a b imei model w in
      let w1 = registered_world cfg sid a b imei model w in
      let done = reg_done cfg sid a b imei model w hm hr in
      let valid = not_refuted b.token token token (ht ∙ done.1) refl in
      let own = one_phone (w1.sessions sid).phone imei imei done.0 refl in
      let v = emit (inc (frames_received (msg_name msg_authentication))) w1 in
      let g = auth_frame imei model token in
      let reply = handle_authentication-writes cfg b sid g v valid in
      rw (by_authentication cfg sid a b imei model w) (
        (handle_authentication_accepts cfg b sid g v valid).1 ∙ own,
        (reply.0, reply.1 ∙ own, reply.2),
      )
