-- ===== src/Handler/Keeps.antt =====
-- What the handlers leave alone: the registry and the sessions of the other connections.
use server_jt.Base.{
  except, ◌⊎◌, ℕ, zero, suc, ◌+◌, ◌*◌, ◌≡◌, ◌≢◌, refl, [], ◌∷◌, arith, ltb, if◌then◌else◌, take,
  drop, length,
}
use server_jt.Base.Text.{same}
use server_jt.Protocol.Types.{Bytes, msg_authentication, result_ok}
use server_jt.Protocol.Frame.{Frame}
use server_jt.Protocol.Location.{LocationReport, Decoded, decoded, body_too_short, decode_location}
use server_jt.Session.{rank, authenticated}
use server_jt.World.{World, inc, frames_received, emit, go, put_session}
use server_jt.Handler.Written.{writes_of, writes_of-other}
use server_jt.Configuration.{Config}
use server_jt.Actions.{Answers, ack_to, update}
use server_jt.Handler.{
  dispatch, handle, handle_location, handle_batch_location, located, count_sos, batch_item,
  batch_loop, batch_body, unknown_message, allowed_before_auth, msg_name,
}
use server_jt.Handler.Kept.{
  Keeps, Keeps-refl, Keeps-trans, Keeps-if, emit-Keeps, ack_to-Keeps, handle_heartbeat-Keeps,
  handle_registration-Keeps,
}

module _ (cfg : Config) (a : Answers) (sid : ℕ) (f : Frame) where
  located-Keeps :
      (p : Bytes) (d : Decoded LocationReport) (w : World) → Keeps sid w (located cfg a sid f p d w)
  unfolding located emit go update put_session count_sos writes_of
  located-Keeps p (body_too_short n) w = (refl, λ i h. (refl, refl))
  located-Keeps p (decoded loc) w = (ground arith, λ i h. (ground arith, ground arith))

  handle_location-Keeps : (w : World) → Keeps sid w (handle_location cfg a sid f w)
  unfolding handle_location
  handle_location-Keeps w =
      let w1 = ack_to sid f result_ok w in
      let own = (w1.sessions sid).phone in
      let phone = if same own [] then f.phone else own in
      let reported = located cfg a sid f phone (decode_location f.body) w1 in
      Keeps-if sid a.write_ok w (if same phone [] then w1 else reported) w1
        (Keeps-if sid (same phone []) w w1 reported (ack_to-Keeps cfg a sid f result_ok w) (
          Keeps-trans sid w w1 reported (ack_to-Keeps cfg a sid f result_ok w)
            (located-Keeps phone (decode_location f.body) w1)))
        (ack_to-Keeps cfg a sid f result_ok w)

  batch_item-Keeps :
      (d : Decoded LocationReport) (w : World) → Keeps sid w (batch_item cfg a sid f d w)
  unfolding batch_item emit go writes_of
  batch_item-Keeps (body_too_short n) w = (refl, λ i h. (refl, refl))
  batch_item-Keeps (decoded loc) w = (refl, λ i h. (refl, refl))

  batch_loop-Keeps : (n : ℕ) (r : Bytes) (w : World) → Keeps sid w (batch_loop cfg a sid f n r w)
  unfolding batch_loop
  batch_loop-Keeps zero r w = Keeps-refl sid w
  batch_loop-Keeps (suc n) [] w = Keeps-refl sid w
  batch_loop-Keeps (suc n) (x ∷ []) w = Keeps-refl sid w
  batch_loop-Keeps (suc n) (x ∷ y ∷ r) w =
      let len = x * 256 + y in
      let w1 = batch_item cfg a sid f (decode_location (take len r)) w in
      let next = batch_loop cfg a sid f n (drop len r) w1 in
      Keeps-if sid (ltb (length r) len) w w next (Keeps-refl sid w)
        (Keeps-trans sid w w1 next (batch_item-Keeps _ w) (batch_loop-Keeps n (drop len r) w1))

  batch_body-Keeps : (r : Bytes) (w : World) → Keeps sid w (batch_body cfg a sid f r w)
  unfolding batch_body
  batch_body-Keeps (x ∷ y ∷ z ∷ r) w = batch_loop-Keeps _ r w
  batch_body-Keeps (x ∷ y ∷ []) w = Keeps-refl sid w
  batch_body-Keeps (x ∷ []) w = Keeps-refl sid w
  batch_body-Keeps [] w = Keeps-refl sid w

  handle_batch-Keeps : (w : World) → Keeps sid w (handle_batch_location cfg a sid f w)
  unfolding handle_batch_location
  handle_batch-Keeps w =
      let w1 = ack_to sid f result_ok w in
      let read = batch_body cfg a sid f f.body w1 in
      Keeps-if sid a.write_ok w read w1
        (Keeps-trans sid w w1 read (ack_to-Keeps cfg a sid f result_ok w)
          (batch_body-Keeps f.body w1))
        (ack_to-Keeps cfg a sid f result_ok w)

  unknown-Keeps : (w : World) → Keeps sid w (unknown_message cfg a sid f w)
  unfolding unknown_message emit ack_to put_session writes_of
  unknown-Keeps w = (refl, λ i h. (ground arith, writes_of-other i sid _ w.trace h))

  handle-Keeps : (w : World) → f.msg_id ≢ msg_authentication → Keeps sid w (handle cfg a sid f w)
  unfolding handle
  handle-Keeps w h = (
    ground (
      arith,
      (handle_heartbeat-Keeps cfg a sid f w).0,
      (handle_registration-Keeps cfg a sid f w).0,
      (handle_location-Keeps w).0,
      (handle_batch-Keeps w).0,
      (ack_to-Keeps cfg a sid f result_ok w).0,
      (unknown-Keeps w).0,
      (Keeps-refl sid w).0,
    ),
    λ i hi. ground (
      arith,
      (handle_heartbeat-Keeps cfg a sid f w).1 i hi,
      (handle_registration-Keeps cfg a sid f w).1 i hi,
      (handle_location-Keeps w).1 i hi,
      (handle_batch-Keeps w).1 i hi,
      (ack_to-Keeps cfg a sid f result_ok w).1 i hi,
      (unknown-Keeps w).1 i hi,
      (Keeps-refl sid w).1 i hi,
    ),
  )

  pub after_dispatch-Keeps :
      (w : World) → f.msg_id ≢ msg_authentication → Keeps sid w (dispatch cfg a sid f w)
  unfolding dispatch
  after_dispatch-Keeps w h =
      let w1 = emit (inc (frames_received (msg_name f.msg_id))) w in
      let handled =
        Keeps-trans sid w w1 (handle cfg a sid f w1) (emit-Keeps cfg a sid f _ w)
          (handle-Keeps w1 h) in
      let dropped =
        Keeps-trans sid w w1 (ack_to sid f result_ok w1) (emit-Keeps cfg a sid f _ w)
          (ack_to-Keeps cfg a sid f result_ok w1) in
      Keeps-if sid (ltb (rank (w1.sessions sid).state) (rank authenticated)) w
        (if allowed_before_auth cfg a sid f
          then handle cfg a sid f w1
          else ack_to sid f result_ok w1)
        (handle cfg a sid f w1)
        (Keeps-if sid (allowed_before_auth cfg a sid f) w (handle cfg a sid f w1)
          (ack_to sid f result_ok w1) handled dropped)
        handled

  -- Only an authentication touches the registry or another connection's session: after any other
  -- message, in any state, both are as they were.
  pub dispatch_local :
      (w : World)
      → f.msg_id ≢ msg_authentication
      → let w' = dispatch cfg a sid f w in
        (w'.local ≡ w.local) × ((i : ℕ) → (i ≡ sid) ⊎ (w'.sessions i ≡ w.sessions i))
  dispatch_local w h =
      let kept = after_dispatch-Keeps w h in (kept.0, except sid λ i hi. (kept.1 i hi).0)
