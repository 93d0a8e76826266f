-- ===== src/Handler/Answering.antt =====
-- What a connection is sent for a heartbeat and for a location report.
use server_jt.Base.{
  ℕ, ◌+◌, ◌%◌, ◌≡◌, refl, ap, ◌∙◌, Bool, true, false, [], ◌++◌, arith, ==_refl, if◌then◌else◌, ltb,
  ◌⊎◌, inl, inr,
}
use server_jt.Base.Text.{ascii, same}
use server_jt.Protocol.Types.{Bytes, msg_heartbeat, msg_location_report, result_ok}
use server_jt.Protocol.Frame.{Frame}
use server_jt.Protocol.Location.{LocationReport, Decoded, decoded, body_too_short, decode_location}
use server_jt.Session.{Session, ack, send, next_seq, touch, touch_location, rank, authenticated}
use server_jt.World.{
  World, inc, frames_received, heartbeats, publish_event, no_payload, emit, go, put_session,
}
use server_jt.Registry.{heartbeat}
use server_jt.Store.{record_heartbeat}
use server_jt.Configuration.{Config}
use server_jt.Actions.{Answers, ack_to, update}
use server_jt.Handler.{
  dispatch, handle, handle_heartbeat, handle_location, located, count_sos, msg_name,
  allowed_before_auth,
}
use server_jt.Handler.Guard.{dispatch_location}
use server_jt.Handler.Written.{writes_of}

-- The connection was sent nothing, and its session numbers and addresses frames as before.
abbrev pub Silent : ℕ → World → World → Type 0
Silent sid v w =
    (writes_of sid w.trace ≡ writes_of sid v.trace)
    × ((w.sessions sid).phone ≡ (v.sessions sid).phone)
    × ((w.sessions sid).out_seq ≡ (v.sessions sid).out_seq)

-- It was sent the acknowledgement of a frame and nothing else.
abbrev pub Acked : ℕ → Frame → World → World → Type 0
Acked sid f v w =
    (writes_of sid w.trace ≡ writes_of sid v.trace ++ (ack f result_ok (v.sessions sid)).1)
    × ((w.sessions sid).phone ≡ (v.sessions sid).phone)
    × ((w.sessions sid).out_seq ≡ next_seq (v.sessions sid))

pub ack-cong :
    (f : Frame) (s t : Session)
    → s.phone ≡ t.phone
    → s.out_seq ≡ t.out_seq
    → (ack f result_ok s).1 ≡ (ack f result_ok t).1
unfolding ack send next_seq
ack-cong f s t hp ho = rw (hp, ho) refl

pub next_seq-cong : (s t : Session) → s.out_seq ≡ t.out_seq → next_seq s ≡ next_seq t
unfolding next_seq
next_seq-cong s t h = ap (λ n. (n + 1) % 4294967296) h

Silent-then :
    (sid : ℕ) (f : Frame) (u v w : World) → Silent sid u v → Acked sid f v w → Acked sid f u w
Silent-then sid f u v w p q = (
  q.0
      ∙ ap (λ t. t ++ (ack f result_ok (v.sessions sid)).1) p.0
      ∙ ap (λ t. writes_of sid u.trace ++ t) (ack-cong f (v.sessions sid) (u.sessions sid) p.1 p.2),
  q.1 ∙ p.1,
  q.2 ∙ next_seq-cong (v.sessions sid) (u.sessions sid) p.2,
)

then-Silent :
    (sid : ℕ) (f : Frame) (u v w : World) → Acked sid f u v → Silent sid v w → Acked sid f u w
then-Silent sid f u v w p q = (q.0 ∙ p.0, q.1 ∙ p.1, q.2 ∙ p.2)

ack_to-Acked : (sid : ℕ) (f : Frame) (w : World) → Acked sid f w (ack_to sid f result_ok w)
unfolding ack_to emit put_session writes_of ack send
ack_to-Acked sid f w = rw (==_refl sid) (refl, refl, refl)

Acked-if :
    (sid : ℕ) (f : Frame) (b : Bool) (u v w : World)
    → Acked sid f u v
    → Acked sid f u w
    → Acked sid f u (if b then v else w)
Acked-if sid f true u v w p q = p
Acked-if sid f false u v w p q = q

module _ (cfg : Config) (a : Answers) (sid : ℕ) (f : Frame) where
  located-Silent :
      (p : Bytes) (d : Decoded LocationReport) (w : World)
      → Silent sid w (located cfg a sid f p d w)
  unfolding located count_sos emit go update put_session touch_location writes_of
  located-Silent p (body_too_short n) w = (refl, refl, refl)
  located-Silent p (decoded loc) w = (ground arith, ground arith, ground arith)

  handle_location-Acked : (w : World) → Acked sid f w (handle_location cfg a sid f w)
  unfolding handle_location
  handle_location-Acked w =
      let w1 = ack_to sid f result_ok w in
      let acked = ack_to-Acked sid f w in
      let own = (w1.sessions sid).phone in
      let phone = if same own [] then f.phone else own in
      let w2 = located cfg a sid f phone (decode_location f.body) w1 in
      Acked-if sid f a.write_ok w (if same phone [] then w1 else w2) w1
        (Acked-if sid f (same phone []) w w1 w2 acked
          (then-Silent sid f w w1 w2 acked (located-Silent phone (decode_location f.body) w1)))
        acked

  heartbeat-Silent : (w : World) → Silent sid w (heartbeat sid a.nanos w)
  unfolding heartbeat go put_session touch writes_of
  heartbeat-Silent w = (refl, ground arith, ground arith)

  beaten : Bytes → Bool → World → World
  beaten phone db w =
      go (publish_event (ascii "heartbeat") phone no_payload)
        (record_heartbeat db phone (emit (inc heartbeats) w))

  beaten-Silent : (phone : Bytes) (db : Bool) (w : World) → Silent sid w (beaten phone db w)
  unfolding beaten record_heartbeat go emit writes_of
  beaten-Silent phone true w = (refl, refl, refl)
  beaten-Silent phone false w = (refl, refl, refl)

  handle_heartbeat-Acked : (w : World) → Acked sid f w (handle_heartbeat cfg a sid f w)
  unfolding handle_heartbeat beaten emit
  handle_heartbeat-Acked w =
      let w1 = heartbeat sid a.nanos w in
      let w2 = ack_to sid f result_ok w1 in
      let phone = (w2.sessions sid).phone in
      let acked = Silent-then sid f w w1 w2 (heartbeat-Silent w) (ack_to-Acked sid f w1) in
      then-Silent sid f w w2 (beaten phone cfg.db_enabled w2) acked
        (beaten-Silent phone cfg.db_enabled w2)

  counted : World → World
  counted w = emit (inc (frames_received (msg_name f.msg_id))) w

  counted-Silent : (w : World) → Silent sid w (counted w)
  unfolding counted emit writes_of
  counted-Silent w = (refl, refl, refl)

  heartbeat_dispatched :
      (w : World)
      → f.msg_id ≡ msg_heartbeat
      → dispatch cfg a sid f w ≡ (
          if ltb (rank (w.sessions sid).state) (rank authenticated)
          then ack_to sid f result_ok (counted w)
          else handle_heartbeat cfg a sid f (counted w))
  unfolding dispatch allowed_before_auth handle counted emit
  heartbeat_dispatched w h = ground arith

  location_dispatched :
      (w : World)
      → f.msg_id ≡ msg_location_report
      → dispatch cfg a sid f w ≡ handle_location cfg a sid f (counted w)
  unfolding counted
  location_dispatched w h = dispatch_location cfg a sid f w h

  -- A heartbeat or a location report is acknowledged with success in every state of the session.
  pub dispatch-Acked :
      (w : World)
      → (f.msg_id ≡ msg_heartbeat) ⊎ (f.msg_id ≡ msg_location_report)
      → Acked sid f w (dispatch cfg a sid f w)
  dispatch-Acked w (inl h) =
      let early = ack_to sid f result_ok (counted w) in
      let late = handle_heartbeat cfg a sid f (counted w) in
      let waits = ltb (rank (w.sessions sid).state) (rank authenticated) in
      rw (heartbeat_dispatched w h) (
        Silent-then sid f w (counted w) (if waits then early else late) (counted-Silent w) (
          Acked-if sid f waits (counted w) early late (ack_to-Acked sid f (counted w))
            (handle_heartbeat-Acked (counted w))))
  dispatch-Acked w (inr h) = rw (location_dispatched w h) (
      Silent-then sid f w (counted w) (handle_location cfg a sid f (counted w)) (counted-Silent w)
        (handle_location-Acked (counted w)))
