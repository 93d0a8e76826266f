-- ===== src/Handler/Kept.antt =====
-- The connections that a heartbeat or a registration does not belong to.
use server_jt.Base.{ℕ, ◌≡◌, ◌≢◌, refl, ◌∙◌, Bool, true, false, arith, if◌then◌else◌}
use server_jt.Protocol.Types.{Bytes, result_ok}
use server_jt.Protocol.Frame.{Frame}
use server_jt.Protocol.Location.{Decoded, decoded, body_too_short}
use server_jt.Protocol.Registration.{RegistrationInfo, decode_registration}
use server_jt.World.{World, Metric, Task, heartbeats, inc, emit, go, put_session}
use server_jt.Registry.{heartbeat, store_auth_token}
use server_jt.Handler.Written.{writes_of, writes_of-other}
use server_jt.Store.{
  Row, Approval, approved, blocked, auto_created, check_failed, check_or_create, record_heartbeat,
  status, no_rows, lookup_failed,
}
use server_jt.Configuration.{Config}
use server_jt.Actions.{Answers, ack_to, reply_to, update}
use server_jt.Handler.{
  handle_heartbeat, handle_registration, reject_registration, accept_registration, after_check,
  decoded_registration,
}

-- The session `i` is the same, and its connection was sent nothing.
abbrev pub Untouched : ℕ → World → World → Type 0
Untouched i w w' = (w'.sessions i ≡ w.sessions i) × (writes_of i w'.trace ≡ writes_of i w.trace)

-- The registry is the same, and so is every connection but `sid`.
abbrev pub Keeps : ℕ → World → World → Type 0
Keeps sid w w' = (w'.local ≡ w.local) × ((i : ℕ) → i ≢ sid → Untouched i w w')

pub Keeps-refl : (sid : ℕ) (w : World) → Keeps sid w w
Keeps-refl sid w = (refl, λ i h. (refl, refl))

pub Keeps-trans : (sid : ℕ) (u v w : World) → Keeps sid u v → Keeps sid v w → Keeps sid u w
Keeps-trans sid u v w p q =
    (q.0 ∙ p.0, λ i h. ((q.1 i h).0 ∙ (p.1 i h).0, (q.1 i h).1 ∙ (p.1 i h).1))

pub Keeps-if :
    (sid : ℕ) (b : Bool) (u v w : World)
    → Keeps sid u v
    → Keeps sid u w
    → Keeps sid u (if b then v else w)
Keeps-if sid true u v w p q = p
Keeps-if sid false u v w p q = q

module _ (cfg : Config) (a : Answers) (sid : ℕ) (f : Frame) where
  pub emit-Keeps : (x : Metric) (w : World) → Keeps sid w (emit (inc x) w)
  unfolding emit writes_of
  emit-Keeps x w = (refl, λ i h. (refl, refl))

  pub ack_to-Keeps : (r : ℕ) (w : World) → Keeps sid w (ack_to sid f r w)
  unfolding ack_to emit put_session writes_of
  ack_to-Keeps r w = (refl, λ i h. (ground arith, writes_of-other i sid _ w.trace h))

  pub go-Keeps : (t : Task) (w : World) → Keeps sid w (go t w)
  unfolding go writes_of
  go-Keeps t w = (refl, λ i h. (refl, refl))

  heartbeat-Keeps : (w : World) → Keeps sid w (heartbeat sid a.nanos w)
  unfolding heartbeat go put_session writes_of
  heartbeat-Keeps w = (refl, λ i h. (ground arith, refl))

  record-Keeps : (db : Bool) (p : Bytes) (w : World) → Keeps sid w (record_heartbeat db p w)
  unfolding record_heartbeat emit writes_of
  record-Keeps true p w = (refl, λ i h. (refl, refl))
  record-Keeps false p w = Keeps-refl sid w

  pub handle_heartbeat-Keeps : (w : World) → Keeps sid w (handle_heartbeat cfg a sid f w)
  unfolding handle_heartbeat
  handle_heartbeat-Keeps w =
      let w1 = heartbeat sid a.nanos w in
      let w2 = ack_to sid f result_ok w1 in
      let w3 = emit (inc heartbeats) w2 in
      let w4 = record_heartbeat cfg.db_enabled (w3.sessions sid).phone w3 in
      Keeps-trans sid w w1 (handle_heartbeat cfg a sid f w) (heartbeat-Keeps w) (
        Keeps-trans sid w1 w2 (handle_heartbeat cfg a sid f w) (ack_to-Keeps result_ok w1) (
          Keeps-trans sid w2 w3 (handle_heartbeat cfg a sid f w) (emit-Keeps heartbeats w2) (
            Keeps-trans sid w3 w4 (handle_heartbeat cfg a sid f w)
              (record-Keeps cfg.db_enabled _ w3) (go-Keeps _ w4))))

  reject-Keeps : (w : World) → Keeps sid w (reject_registration cfg a sid f w)
  unfolding reject_registration reply_to emit put_session writes_of
  reject-Keeps w = (refl, λ i h. (ground arith, writes_of-other i sid _ w.trace h))

  accept-Keeps :
      (info : RegistrationInfo) (w : World) → Keeps sid w (accept_registration cfg a sid f info w)
  unfolding accept_registration reply_to emit put_session go update store_auth_token writes_of
  accept-Keeps info w = (refl, λ i h. (ground arith, writes_of-other i sid _ w.trace h))

  check-Keeps :
      (db : Bool) (row : Row) (ok : Bool) (p m d : Bytes) (w : World)
      → Keeps sid w (check_or_create db row ok p m d w).1
  unfolding check_or_create emit writes_of
  check-Keeps false row ok p m d w = Keeps-refl sid w
  check-Keeps true (status st) ok p m d w = (refl, λ i h. (refl, refl))
  check-Keeps true no_rows ok p m d w = (refl, λ i h. (refl, refl))
  check-Keeps true lookup_failed ok p m d w = (refl, λ i h. (refl, refl))

  after_check-Keeps :
      (info : RegistrationInfo) (p : Approval × World)
      → Keeps sid p.1 (after_check cfg a sid f info p)
  unfolding after_check
  after_check-Keeps info (check_failed, w) = reject-Keeps w
  after_check-Keeps info (blocked, w) = reject-Keeps w
  after_check-Keeps info (auto_created, w) = accept-Keeps info w
  after_check-Keeps info (approved, w) = accept-Keeps info w

  decoded-Keeps :
      (d : Decoded RegistrationInfo) (w : World)
      → Keeps sid w (decoded_registration cfg a sid f d w)
  unfolding decoded_registration
  decoded-Keeps (body_too_short n) w = ack_to-Keeps _ w
  decoded-Keeps (decoded info) w =
      let p =
        check_or_create cfg.db_enabled a.row a.insert_ok f.phone info.device_model info.device_id
          w in
      Keeps-trans sid w p.1 (after_check cfg a sid f info p)
        (check-Keeps cfg.db_enabled a.row a.insert_ok f.phone info.device_model info.device_id w)
        (after_check-Keeps info p)

  pub handle_registration-Keeps : (w : World) → Keeps sid w (handle_registration cfg a sid f w)
  unfolding handle_registration
  handle_registration-Keeps w = decoded-Keeps (decode_registration f.body) w
