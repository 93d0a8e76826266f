-- ===== src/Device/Conversation.antt =====
-- The main loop of `runDevice` and the server's dispatcher, each on what the other writes.
pub mod Others
use server_jt.Base.{
  ℕ, suc, ◌%◌, ◌≡◌, ◌≢◌, refl, sym, ap, ◌∙◌, Bool, true, List, [], ◌∷◌, ◌++◌, arith, append_assoc,
  append-nil, All, length, ◌⊎◌, inl, inr,
}
use server_jt.Protocol.Types.{
  Bytes, msg_authentication, msg_heartbeat, msg_location_report, result_ok,
}
use server_jt.Protocol.Bcd.{IsPhone}
use server_jt.Protocol.Frame.{Frame, ReadError, closed, write_frame}
use server_jt.Protocol.Frame.Errors.{read_frame-closed_iff}
use server_jt.Protocol.Frame.RoundTrip.{plain_frame}
use server_jt.Session.{Session, ack, send, next_seq}
use server_jt.World.{World}
use server_jt.Configuration.{Config}
use server_jt.Actions.{Answers}
use server_jt.Handler.{dispatch}
use server_jt.Handler.Answering.{ack-cong, next_seq-cong, dispatch-Acked}
use server_jt.Handler.Keeps.{dispatch_local}
use server_jt.Handler.Written.{writes_of}
use server_jt.Server.{serve}
use server_jt.Server.Among.{Way, over, handled, frame_acks, IsAnswered, answered_among_others}
use server_jt.Server.Frames.{Message, IsMessage, wire_frames, dispatch_all, serve_messages}
use server_jt.Device.Run.{
  Output, written, saved, idle, Tick, location_tick, heartbeat_tick, Report, main_loop,
}
use server_jt.Device.Ticks.{tick_frame, next_report, tick_outputs, acks, main_loop-acks}

-- The bytes that are written.
unfoldable pub joined : List Output → Bytes
joined [] = []
joined (written b ∷ bs) = b ++ joined bs
joined (saved n ∷ bs) = joined bs

module _ (e : ReadError) (writes : ℕ → Bool) (imei model : Bytes) (reports : ℕ → Report) where
  -- The frames of the ticks.
  unfoldable pub tick_list : List Tick → ℕ → ℕ → List Frame
  tick_list [] k n = []
  tick_list (t ∷ ts) k n =
      tick_frame e writes imei model reports t k n
      ∷ tick_list ts (suc k) (next_report e writes imei model reports t n)

  pub acks-frames :
      (ts : List Tick) (k n : ℕ) (s : Session)
      → acks e writes imei model reports ts k n s ≡ frame_acks (tick_list ts k n) s
  unfolding acks tick_list frame_acks
  acks-frames [] k n s = refl
  acks-frames (t ∷ ts) k n s =
      let r = ack (tick_frame e writes imei model reports t k n) result_ok s in
      ap (λ b. r.1 ++ b) (acks-frames ts (suc k) (next_report e writes imei model reports t n) r.0)

  tick-IsAnswered : (t : Tick) (k n : ℕ) → IsAnswered (tick_frame e writes imei model reports t k n)
  unfolding tick_frame plain_frame
  tick-IsAnswered location_tick k n = inr refl
  tick-IsAnswered heartbeat_tick k n = inl refl

  not_a_login : (f : Frame) → IsAnswered f → f.msg_id ≢ msg_authentication
  not_a_login f (inl h) = omega (arith, h)
  not_a_login f (inr h) = omega (arith, h)

  pub tick_list-AreAnswered : (ts : List Tick) (k n : ℕ) → All IsAnswered (tick_list ts k n)
  unfolding tick_list
  tick_list-AreAnswered [] k n = tt
  tick_list-AreAnswered (t ∷ ts) k n = (
    tick-IsAnswered t k n,
    tick_list-AreAnswered ts (suc k) (next_report e writes imei model reports t n),
  )

  module _ (cfg : Config) (answers : ℕ → Answers) (sid : ℕ) where
    -- The dispatches of the frames of the ticks, the first one with the answers `j`.
    pub tick_dispatches : List Tick → ℕ → ℕ → ℕ → World → World
    tick_dispatches [] j k n w = w
    tick_dispatches (t ∷ ts) j k n w =
        tick_dispatches ts (suc j) (suc k) (next_report e writes imei model reports t n)
          (dispatch cfg (answers j) sid (tick_frame e writes imei model reports t k n) w)

    dispatches-Way :
        (ts : List Tick) (j k n : ℕ) (w : World)
        → Way cfg sid (tick_list ts k n) w (tick_dispatches ts j k n w)
    unfolding tick_dispatches tick_list
    dispatches-Way [] j k n w = over w
    dispatches-Way (t ∷ ts) j k n w =
        let f = tick_frame e writes imei model reports t k n in
        let m = next_report e writes imei model reports t n in
        let w1 = dispatch cfg (answers j) sid f w in
        handled (answers j) f (tick_list ts (suc k) m) w _ (dispatches-Way ts (suc j) (suc k) m w1)

    pub writes_of-dispatches :
        (ts : List Tick) (j k n : ℕ) (w : World)
        → writes_of sid (tick_dispatches ts j k n w).trace
          ≡ writes_of sid w.trace ++ acks e writes imei model reports ts k n (w.sessions sid)
    writes_of-dispatches ts j k n w =
        answered_among_others cfg sid (tick_list ts k n) w _ (tick_list-AreAnswered ts k n)
          (dispatches-Way ts j k n w)
        ∙ ap (λ b. writes_of sid w.trace ++ b) (sym (acks-frames ts k n (w.sessions sid)))

    -- They leave the registry and the phone of the session as they are.
    pub tick_dispatches-kept :
        (ts : List Tick) (j k n : ℕ) (w : World)
        → let w' = tick_dispatches ts j k n w in
          (w'.local ≡ w.local) × ((w'.sessions sid).phone ≡ (w.sessions sid).phone)
    unfolding tick_dispatches
    tick_dispatches-kept [] j k n w = (refl, refl)
    tick_dispatches-kept (t ∷ ts) j k n w =
        let f = tick_frame e writes imei model reports t k n in
        let m = next_report e writes imei model reports t n in
        let answered = tick-IsAnswered t k n in
        let later = tick_dispatches-kept ts (suc j) (suc k) m (dispatch cfg (answers j) sid f w) in
        (
          later.0 ∙ (dispatch_local cfg (answers j) sid f w (not_a_login f answered)).0,
          later.1 ∙ (dispatch-Acked cfg (answers j) sid f w answered).1,
        )

    -- The messages that the server reads.
    pub messages : List Tick → ℕ → ℕ → List Message
    messages [] k n = []
    messages (t ∷ ts) k n =
        let f = tick_frame e writes imei model reports t k n in
        record { id = f.msg_id; phone = imei; seq_num = k % 65536; body = f.body }
        ∷ messages ts (suc k) (next_report e writes imei model reports t n)

    pub messages-AreMessages :
        (ts : List Tick) (k n : ℕ) → IsPhone imei → All IsMessage (messages ts k n)
    unfolding messages tick_frame plain_frame
    messages-AreMessages [] k n h = tt
    messages-AreMessages (location_tick ∷ ts) k n h =
        ((omega arith, omega arith, h), messages-AreMessages ts (suc k) (suc n) h)
    messages-AreMessages (heartbeat_tick ∷ ts) k n h =
        ((omega arith, omega arith, h), messages-AreMessages ts (suc k) n h)

    pub wire_frames-messages :
        (ts : List Tick) (k n : ℕ)
        → wire_frames (messages ts k n) ≡ joined (tick_outputs e writes imei model reports ts k n)
    unfolding wire_frames messages joined tick_outputs
    wire_frames-messages [] k n = refl
    wire_frames-messages (location_tick ∷ ts) k n =
        let f = tick_frame e writes imei model reports location_tick k n in
        ap (λ b. write_frame f.msg_id imei (k % 65536) f.body ++ b)
          (wire_frames-messages ts (suc k) (suc n))
    wire_frames-messages (heartbeat_tick ∷ ts) k n =
        let f = tick_frame e writes imei model reports heartbeat_tick k n in
        ap (λ b. write_frame f.msg_id imei (k % 65536) f.body ++ b)
          (wire_frames-messages ts (suc k) n)

    pub dispatch_all-messages :
        (ts : List Tick) (j k n : ℕ) (w : World)
        → dispatch_all cfg answers sid e j (messages ts k n) w ≡ tick_dispatches ts j k n w
    unfolding dispatch_all messages tick_dispatches tick_frame plain_frame
    dispatch_all-messages [] j k n w = refl
    dispatch_all-messages (location_tick ∷ ts) j k n w =
        dispatch_all-messages ts (suc j) (suc k) (suc n) _
    dispatch_all-messages (heartbeat_tick ∷ ts) j k n w =
        dispatch_all-messages ts (suc j) (suc k) n _

    served :
        (ts : List Tick) (j k n : ℕ) (w : World)
        → IsPhone imei
        → let stream = joined (tick_outputs e writes imei model reports ts k n) in
          serve cfg answers sid e (length stream) j stream w ≡ tick_dispatches ts j k n w
    served ts j k n w h =
        let stream = joined (tick_outputs e writes imei model reports ts k n) in
        let same_bytes = append-nil (wire_frames (messages ts k n)) ∙ wire_frames-messages ts k n in
        ap (λ b. serve cfg answers sid e (length stream) j b w) (sym same_bytes)
        ∙ serve_messages cfg answers sid e (messages ts k n) (length stream) j [] (closed e) w
            (messages-AreMessages ts k n h) ((read_frame-closed_iff e []).1 tt)
            (omega (arith, ap length same_bytes))
        ∙ dispatch_all-messages ts j k n w

    -- The device and the server keep each other going. The bytes of the frames of any sequence of
    -- ticks make the server's loop write bytes on which the device's main loop sends just these
    -- frames and is still running, whatever Redis, MySQL and the clock answer; if the phones of the
    -- device and of the session fit the codec and the device's writes succeed.
    pub device_and_server :
        (ts : List Tick) (j k n : ℕ) (w : World)
        → IsPhone imei
        → IsPhone (w.sessions sid).phone
        → ((i : ℕ) → writes i ≡ true)
        → let stream = joined (tick_outputs e writes imei model reports ts k n) in
          (replies : Bytes) × (writes_of sid
              (serve cfg answers sid e (length stream) j stream w).trace
            ≡ writes_of sid w.trace ++ replies)
          × (main_loop e writes imei model reports ts k n replies
              ≡ (tick_outputs e writes imei model reports ts k n, idle))
    device_and_server ts j k n w hi hp hw =
        let replies = acks e writes imei model reports ts k n (w.sessions sid) in
        (
          replies,
          ap (λ (v : World). writes_of sid v.trace) (served ts j k n w hi)
              ∙ writes_of-dispatches ts j k n w,
          ap (main_loop e writes imei model reports ts k n) (sym (append-nil replies))
              ∙ main_loop-acks e writes imei model reports ts k n (w.sessions sid) [] hp hw,
        )
