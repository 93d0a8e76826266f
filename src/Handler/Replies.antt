-- ===== src/Handler/Replies.antt =====
-- Every message gets one reply.
use server_jt.Base.{
  ℕ, zero, suc, ◌+◌, ◌*◌, ◌≡◌, refl, ap, ◌∙◌, Bool, true, false, Option, none, some, List, [], ◌∷◌,
  arith, ◌==◌, if◌then◌else◌, take, drop,
}
use server_jt.Protocol.Types.{Bytes, msg_terminal_resp, result_ok, result_fail}
use server_jt.Protocol.Frame.{Frame}
use server_jt.Protocol.Location.{LocationReport, Decoded, decoded, body_too_short, decode_location}
use server_jt.Protocol.Registration.{RegistrationInfo, decode_registration}
use server_jt.Session.{set_state, authenticated}
use server_jt.World.{
  World, Effect, inc, dec, auth_timer_started, auth_timer_stopped, frames_received, wrote,
  conn_closed, close_after, started, token_set, token_checked, device_lookup, device_heartbeat,
  device_insert, emit, go, put_session,
}
use server_jt.Registry.{register, heartbeat, store_auth_token}
use server_jt.Store.{
  Row, Approval, approved, blocked, auto_created, check_failed, check_or_create, record_heartbeat,
  status, no_rows, lookup_failed,
}
use server_jt.Configuration.{Config}
use server_jt.Actions.{Answers, ack_to, reply_to, update}
use server_jt.Handler.{
  dispatch, handle, handle_heartbeat, handle_registration, handle_authentication, handle_location,
  handle_batch_location, reject_registration, accept_registration, after_check,
  decoded_registration, accept_login, reject_login, after_validation, located, count_sos,
  batch_item, batch_loop, batch_body, unknown_message, msg_name, allowed_before_auth,
}

-- The number of frames written.
unfoldable pub writes : List Effect → ℕ
writes [] = 0
writes (wrote sid bytes ∷ xs) = suc (writes xs)
writes (inc m ∷ xs) = writes xs
writes (dec m ∷ xs) = writes xs
writes (auth_timer_started sid ∷ xs) = writes xs
writes (auth_timer_stopped sid ∷ xs) = writes xs
writes (conn_closed sid ∷ xs) = writes xs
writes (close_after ms sid ∷ xs) = writes xs
writes (started t ∷ xs) = writes xs
writes (token_set k v ∷ xs) = writes xs
writes (token_checked k v ∷ xs) = writes xs
writes (device_lookup p ∷ xs) = writes xs
writes (device_heartbeat p ∷ xs) = writes xs
writes (device_insert p n st m ∷ xs) = writes xs

count : World → ℕ
count w = writes w.trace

ack_to-count : (sid : ℕ) (f : Frame) (r : ℕ) (w : World) → count (ack_to sid f r w) ≡ suc (count w)
unfolding count writes ack_to emit put_session
ack_to-count sid f r w = refl

register-count : (sid : ℕ) (w : World) → count (register sid w) ≡ count w
unfolding count writes register go emit put_session
register-count sid w = ground arith

record_heartbeat-count :
    (b : Bool) (p : Bytes) (w : World) → count (record_heartbeat b p w) ≡ count w
unfolding count writes record_heartbeat emit
record_heartbeat-count b p w = ground arith

check-count :
    (db : Bool) (row : Row) (ok : Bool) (p m d : Bytes) (w : World)
    → count (check_or_create db row ok p m d w).1 ≡ count w
unfolding count writes check_or_create emit
check-count false row ok p m d w = refl
check-count true (status st) ok p m d w = refl
check-count true no_rows ok p m d w = refl
check-count true lookup_failed ok p m d w = refl

module _ (cfg : Config) (a : Answers) (sid : ℕ) (f : Frame) where
  heartbeat-count : (w : World) → count (handle_heartbeat cfg a sid f w) ≡ suc (count w)
  unfolding count writes handle_heartbeat ack_to emit put_session go heartbeat record_heartbeat
  heartbeat-count w = ground arith

  reject-count : (w : World) → count (reject_registration cfg a sid f w) ≡ suc (count w)
  unfolding count writes reject_registration reply_to emit put_session
  reject-count w = refl

  accept-count :
      (info : RegistrationInfo) (w : World)
      → count (accept_registration cfg a sid f info w) ≡ suc (count w)
  unfolding count writes accept_registration reply_to emit put_session go update store_auth_token
  accept-count info w = refl

  after_check-count :
      (info : RegistrationInfo) (p : Approval × World)
      → count (after_check cfg a sid f info p) ≡ suc (count p.1)
  unfolding after_check
  after_check-count info (check_failed, w) = reject-count w
  after_check-count info (blocked, w) = reject-count w
  after_check-count info (auto_created, w) = accept-count info w
  after_check-count info (approved, w) = accept-count info w

  decoded-count :
      (d : Decoded RegistrationInfo) (w : World)
      → count (decoded_registration cfg a sid f d w) ≡ suc (count w)
  unfolding decoded_registration
  decoded-count (body_too_short n) w = ack_to-count sid f _ w
  decoded-count (decoded info) w =
      after_check-count info _
      ∙ ap suc
          (check-count cfg.db_enabled a.row a.insert_ok f.phone info.device_model info.device_id w)

  accept_login-count : (w : World) → count (accept_login cfg a sid f w) ≡ suc (count w)
  unfolding accept_login go emit count writes update put_session
  accept_login-count w =
      ack_to-count sid f result_ok (register sid (update sid (set_state authenticated) w))
      ∙ ap suc (register-count sid (update sid (set_state authenticated) w))

  reject_login-count : (w : World) → count (reject_login cfg a sid f w) ≡ suc (count w)
  unfolding reject_login count writes emit
  reject_login-count w = ack_to-count sid f result_fail w

  login-count :
      (o : Option Bool) (w : World) → count (after_validation cfg a sid f o w) ≡ suc (count w)
  unfolding after_validation
  login-count none w = accept_login-count w
  login-count (some true) w = accept_login-count w
  login-count (some false) w = reject_login-count w

  authentication-count : (w : World) → count (handle_authentication cfg a sid f w) ≡ suc (count w)
  unfolding handle_authentication emit count writes update put_session
  authentication-count w = login-count _ _

  located-count :
      (p : Bytes) (d : Decoded LocationReport) (w : World)
      → count (located cfg a sid f p d w) ≡ count w
  unfolding located count writes emit go update put_session count_sos
  located-count p (body_too_short n) w = refl
  located-count p (decoded loc) w = ground arith

  location-count : (w : World) → count (handle_location cfg a sid f w) ≡ suc (count w)
  unfolding handle_location
  location-count w = ground (
    arith,
    ack_to-count sid f result_ok w,
    located-count f.phone (decode_location f.body) (ack_to sid f result_ok w),
    located-count ((ack_to sid f result_ok w).sessions sid).phone (decode_location f.body)
        (ack_to sid f result_ok w),
  )

  item-count :
      (d : Decoded LocationReport) (w : World) → count (batch_item cfg a sid f d w) ≡ count w
  unfolding batch_item count writes emit go
  item-count (body_too_short n) w = refl
  item-count (decoded loc) w = refl

  batch_loop-count :
      (n : ℕ) (r : Bytes) (w : World) → count (batch_loop cfg a sid f n r w) ≡ count w
  unfolding batch_loop
  batch_loop-count zero r w = refl
  batch_loop-count (suc n) [] w = refl
  batch_loop-count (suc n) (x ∷ []) w = refl
  batch_loop-count (suc n) (x ∷ y ∷ r) w =
      let item = decode_location (take (x * 256 + y) r) in
      ground (
        arith,
        item-count item w,
        batch_loop-count n (drop (x * 256 + y) r) (batch_item cfg a sid f item w),
      )

  batch_body-count : (r : Bytes) (w : World) → count (batch_body cfg a sid f r w) ≡ count w
  unfolding batch_body
  batch_body-count (x ∷ y ∷ z ∷ r) w = batch_loop-count _ r w
  batch_body-count (x ∷ y ∷ []) w = refl
  batch_body-count (x ∷ []) w = refl
  batch_body-count [] w = refl

  batch-count : (w : World) → count (handle_batch_location cfg a sid f w) ≡ suc (count w)
  unfolding handle_batch_location
  batch-count w =
      ground
        (arith, ack_to-count sid f result_ok w, batch_body-count f.body (ack_to sid f result_ok w))

  unknown-count : (w : World) → count (unknown_message cfg a sid f w) ≡ suc (count w)
  unfolding unknown_message emit count writes
  unknown-count w = ack_to-count sid f _ _

  registration-count : (w : World) → count (handle_registration cfg a sid f w) ≡ suc (count w)
  unfolding handle_registration
  registration-count w = decoded-count (decode_registration f.body) w

  handle-count :
      (w : World)
      → count (handle cfg a sid f w)
        ≡ (if f.msg_id == msg_terminal_resp then count w else suc (count w))
  unfolding handle
  handle-count w = ground (
    arith,
    heartbeat-count w,
    registration-count w,
    authentication-count w,
    location-count w,
    batch-count w,
    ack_to-count sid f result_ok w,
    unknown-count w,
  )

  -- The dispatch of a message calls `Write` exactly once, whether or not that call succeeds, in every
  -- state of the session and on every branch; but for the terminal's own general response, where it
  -- does not call it.
  pub dispatch-replies :
      (w : World)
      → writes (dispatch cfg a sid f w).trace
        ≡ (if f.msg_id == msg_terminal_resp then writes w.trace else suc (writes w.trace))
  unfolding dispatch allowed_before_auth count emit writes
  dispatch-replies w =
      let entered = emit (inc (frames_received (msg_name f.msg_id))) w in
      ground (arith, handle-count entered, ack_to-count sid f result_ok entered)
