-- ===== src/Handler/Closing.antt =====
-- Frames that are read behind `Close`: the connection's buffer may still hold some.
use server_jt.Base.{ℕ, ◌<◌, ◌≡◌, refl, ap, ◌∙◌, Bool, true, false, [], ◌∷◌, ◌++◌, arith, ==_refl}
use server_jt.Base.Text.{ascii}
use server_jt.Protocol.Types.{Bytes, msg_heartbeat, result_ok}
use server_jt.Protocol.Frame.{Frame}
use server_jt.Session.{rank, authenticated, close, touch, ack, send}
use server_jt.World.{
  World, inc, frames_received, heartbeats, refresh_online, publish_event, no_payload, emit, go,
  put_session,
}
use server_jt.Registry.{close_session, heartbeat}
use server_jt.Store.{record_heartbeat}
use server_jt.Configuration.{Config}
use server_jt.Actions.{Answers, ack_to}
use server_jt.Handler.{dispatch, handle, handle_heartbeat, allowed_before_auth, msg_name}
use server_jt.Handler.Guard.{dispatch_dropped}

record_heartbeat-pending :
    (db : Bool) (p : Bytes) (w : World) → (record_heartbeat db p w).pending ≡ w.pending
unfolding record_heartbeat emit
record_heartbeat-pending true p w = refl
record_heartbeat-pending false p w = refl

module _ (cfg : Config) (a : Answers) (sid : ℕ) (f : Frame) where
  beaten-phone :
      (w : World)
      → let beaten = emit (inc heartbeats) (ack_to sid f result_ok (heartbeat sid a.nanos w)) in
        (beaten.sessions sid).phone ≡ (w.sessions sid).phone
  unfolding heartbeat go put_session emit ack_to ack send touch
  beaten-phone w = rw (==_refl sid) refl

  handle_heartbeat-pending :
      (w : World)
      → (handle_heartbeat cfg a sid f w).pending
        ≡ (w.pending ++ refresh_online sid ∷ [])
          ++ publish_event (ascii "heartbeat") (w.sessions sid).phone no_payload ∷ []
  unfolding handle_heartbeat heartbeat go put_session emit ack_to
  handle_heartbeat-pending w =
      let beaten = emit (inc heartbeats) (ack_to sid f result_ok (heartbeat sid a.nanos w)) in
      let phone = (beaten.sessions sid).phone in
      ap (λ ts. ts ++ publish_event (ascii "heartbeat") phone no_payload ∷ [])
        (record_heartbeat-pending cfg.db_enabled phone beaten)
      ∙ ap
          (λ p.
            (w.pending ++ refresh_online sid ∷ [])
            ++ publish_event (ascii "heartbeat") p no_payload ∷ [])
          (beaten-phone w)

  heartbeat_of_closed :
      (w : World)
      → f.msg_id ≡ msg_heartbeat
      → dispatch cfg a sid f (close_session sid w)
        ≡ handle_heartbeat cfg a sid f
            (emit (inc (frames_received (msg_name f.msg_id))) (close_session sid w))
  unfolding dispatch handle close_session emit put_session close
  heartbeat_of_closed w h = ground arith

  heartbeat_barred : f.msg_id ≡ msg_heartbeat → allowed_before_auth cfg a sid f ≡ false
  unfolding allowed_before_auth
  heartbeat_barred h = ground arith

  -- A heartbeat leaves the connection open or closed as it was.
  pub heartbeat_keeps_open :
      (w : World)
      → f.msg_id ≡ msg_heartbeat
      → ((dispatch cfg a sid f w).sessions sid).conn_open ≡ (w.sessions sid).conn_open
  unfolding dispatch handle handle_heartbeat ack_to heartbeat put_session emit ack send touch
      record_heartbeat go
  heartbeat_keeps_open w h = ground arith

  -- A closed session passes the guard. The heartbeat of a session that has not logged in starts no
  -- goroutine; once the session is closed, by its timer or behind a refusal, a heartbeat that is
  -- still in the buffer of the connection refreshes the online entry of the session's phone and is
  -- published as an event.
  pub closed_session_beats :
      (w : World)
      → rank (w.sessions sid).state < rank authenticated
      → f.msg_id ≡ msg_heartbeat
      → ((dispatch cfg a sid f w).pending ≡ w.pending)
        × ((dispatch cfg a sid f (close_session sid w)).pending
            ≡ (w.pending ++ refresh_online sid ∷ [])
              ++ publish_event (ascii "heartbeat") (w.sessions sid).phone no_payload ∷ [])
  unfolding close_session emit put_session close
  closed_session_beats w early h = (
    (dispatch_dropped cfg a sid f w early (heartbeat_barred h)).1,
    ap (λ (v : World). v.pending) (heartbeat_of_closed w h)
        ∙ handle_heartbeat-pending
            (emit (inc (frames_received (msg_name f.msg_id))) (close_session sid w))
        ∙ rw (==_refl sid) refl,
  )
