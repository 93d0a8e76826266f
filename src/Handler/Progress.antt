-- ===== src/Handler/Progress.antt =====
-- A message never takes a session back to `connected`.
use server_jt.Base.{
  ℕ, zero, suc, ◌+◌, ◌*◌, ◌≡◌, ◌≢◌, refl, ap, ◌∙◌, Bool, true, false, [], ◌∷◌, arith, ltb,
  Bool-cases, ◌⊎◌, inl, inr, if◌then◌else◌, take, drop, length,
}
use server_jt.Protocol.Types.{Bytes, msg_authentication, result_ok, result_msg_error}
use server_jt.Protocol.Frame.{Frame}
use server_jt.Protocol.Location.{LocationReport, Decoded, decoded, body_too_short, decode_location}
use server_jt.Protocol.Registration.{RegistrationInfo, decode_registration}
use server_jt.Session.{
  State, connected, registered, authenticated, closing, ack, send, touch, touch_location,
}
use server_jt.World.{World, inc, frames_received, emit, go, put_session}
use server_jt.Registry.{heartbeat}
use server_jt.Store.{record_heartbeat}
use server_jt.Configuration.{Config}
use server_jt.Actions.{Answers, ack_to, update}
use server_jt.Handler.{
  dispatch, handle, handle_heartbeat, handle_registration, handle_location, handle_batch_location,
  decoded_registration, located, count_sos, batch_item, batch_loop, batch_body, unknown_message,
  msg_name,
}
use server_jt.Handler.Registering.{
  handle_registration_accepts, handle_registration_rejects, refuses,
}

abbrev pub is_connected : State → Bool
is_connected connected = true
is_connected registered = false
is_connected authenticated = false
is_connected closing = false

abbrev pub state_of : ℕ → World → State
state_of sid w = (w.sessions sid).state

state_of-if :
    (sid : ℕ) (b : Bool) (v w : World) {st : State}
    → state_of sid v ≡ st
    → state_of sid w ≡ st
    → state_of sid (if b then v else w) ≡ st
state_of-if sid true v w hv hw = hv
state_of-if sid false v w hv hw = hw

module _ (cfg : Config) (a : Answers) (sid : ℕ) (f : Frame) where
  ack_to-state :
      (r : ℕ) (w : World) → ((ack_to sid f r w).sessions sid).state ≡ (w.sessions sid).state
  unfolding ack_to emit put_session ack send
  ack_to-state r w = ground arith

  handle_heartbeat-state :
      (w : World) → ((handle_heartbeat cfg a sid f w).sessions sid).state ≡ (w.sessions sid).state
  unfolding handle_heartbeat ack_to emit put_session go heartbeat record_heartbeat ack send touch
  handle_heartbeat-state w = ground arith

  located-state :
      (p : Bytes) (d : Decoded LocationReport) (w : World)
      → ((located cfg a sid f p d w).sessions sid).state ≡ (w.sessions sid).state
  unfolding located emit go update put_session count_sos touch_location
  located-state p (body_too_short n) w = refl
  located-state p (decoded loc) w = ground arith

  handle_location-state :
      (w : World) → ((handle_location cfg a sid f w).sessions sid).state ≡ (w.sessions sid).state
  unfolding handle_location
  handle_location-state w =
      let w1 = ack_to sid f result_ok w in
      ground (
        arith,
        ack_to-state result_ok w,
        located-state f.phone (decode_location f.body) w1,
        located-state (w1.sessions sid).phone (decode_location f.body) w1,
      )

  batch_item-state :
      (d : Decoded LocationReport) (w : World)
      → state_of sid (batch_item cfg a sid f d w) ≡ state_of sid w
  unfolding batch_item emit go
  batch_item-state (body_too_short n) w = refl
  batch_item-state (decoded loc) w = refl

  batch_loop-state :
      (n : ℕ) (r : Bytes) (w : World) → state_of sid (batch_loop cfg a sid f n r w) ≡ state_of sid w
  unfolding batch_loop
  batch_loop-state zero r w = refl
  batch_loop-state (suc n) [] w = refl
  batch_loop-state (suc n) (x ∷ []) w = refl
  batch_loop-state (suc n) (x ∷ y ∷ r) w =
      let len = x * 256 + y in
      let w1 = batch_item cfg a sid f (decode_location (take len r)) w in
      state_of-if sid (ltb (length r) len) w _ refl
        (batch_loop-state n (drop len r) w1 ∙ batch_item-state (decode_location (take len r)) w)

  batch_body-state :
      (r : Bytes) (w : World) → state_of sid (batch_body cfg a sid f r w) ≡ state_of sid w
  unfolding batch_body
  batch_body-state (x ∷ y ∷ z ∷ r) w = batch_loop-state _ r w
  batch_body-state (x ∷ y ∷ []) w = refl
  batch_body-state (x ∷ []) w = refl
  batch_body-state [] w = refl

  handle_batch_location-state :
      (w : World) → state_of sid (handle_batch_location cfg a sid f w) ≡ state_of sid w
  unfolding handle_batch_location
  handle_batch_location-state w =
      let w1 = ack_to sid f result_ok w in
      state_of-if sid a.write_ok (batch_body cfg a sid f f.body w1) w1
        (batch_body-state f.body w1 ∙ ack_to-state result_ok w) (ack_to-state result_ok w)

  unknown-state : (w : World) → state_of sid (unknown_message cfg a sid f w) ≡ state_of sid w
  unfolding unknown_message emit ack_to put_session ack send
  unknown-state w = ground arith

  -- A registration is answered with an error and leaves the state, or it sets `registered`.
  registered_or_same :
      (d : Decoded RegistrationInfo) (w : World)
      → decode_registration f.body ≡ d
      → (state_of sid (handle_registration cfg a sid f w) ≡ state_of sid w)
        ⊎ (state_of sid (handle_registration cfg a sid f w) ≡ registered)
  unfolding handle_registration decoded_registration send
  registered_or_same (body_too_short n) w h = inl (
      ap (λ d. state_of sid (decoded_registration cfg a sid f d w)) h
      ∙ ack_to-state result_msg_error w)
  registered_or_same (decoded info) w h =
      elim (Bool-cases (refuses cfg.db_enabled a.row a.insert_ok)) [
        | inl refused ↦
            inl (ap (λ s. s.state) (handle_registration_rejects cfg a sid f info w h refused).0)
        | inr taken ↦ inr (handle_registration_accepts cfg a sid f info w h taken).0
      ]

  handle-connected :
      (w : World)
      → f.msg_id ≢ msg_authentication
      → is_connected (state_of sid w) ≡ false
      → is_connected (state_of sid (handle cfg a sid f w)) ≡ false
  unfolding handle
  handle-connected w h past = ground (
    arith,
    handle_heartbeat-state w,
    registered_or_same (decode_registration f.body) w refl,
    handle_location-state w,
    handle_batch_location-state w,
    ack_to-state result_ok w,
    unknown-state w,
  )

  -- A message other than an authentication leaves a session that is not `connected` any more in a
  -- state other than `connected`.
  pub dispatch-connected :
      (w : World)
      → f.msg_id ≢ msg_authentication
      → is_connected (state_of sid w) ≡ false
      → is_connected (state_of sid (dispatch cfg a sid f w)) ≡ false
  unfolding dispatch emit
  dispatch-connected w h past =
      let w1 = emit (inc (frames_received (msg_name f.msg_id))) w in
      ground (arith, handle-connected w1 h past, ack_to-state result_ok w1)
