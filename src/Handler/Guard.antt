-- ===== src/Handler/Guard.antt =====
-- What a session may do before it is authenticated, and what a dispatch leaves alone.
use server_jt.Base.{arith, ℕ, ◌<◌, ◌≡◌, refl, false, ◌∷◌, ◌==◌, if◌then◌else◌, lt→ltb}
use server_jt.Protocol.Types.{msg_registration, msg_location_report, msg_authentication, result_ok}
use server_jt.Protocol.Frame.{Frame}
use server_jt.Session.{rank, authenticated, ack}
use server_jt.World.{World, inc, frames_received, wrote, emit, put_session}
use server_jt.Configuration.{Config}
use server_jt.Actions.{Answers, ack_to}
use server_jt.Handler.{
  handle_registration, handle_location, handle, handle_authentication, dispatch,
  allowed_before_auth, msg_name,
}

module _ (cfg : Config) (a : Answers) (sid : ℕ) (f : Frame) where
  -- Below `authenticated`, a message that is none of registration, authentication, terminal
  -- response, location or batch location is answered with success and does nothing else: no
  -- goroutine is started, the registry is as it was, and of the session only the sequence counter
  -- has moved.
  pub dispatch_dropped :
      (w : World)
      → rank (w.sessions sid).state < rank authenticated
      → allowed_before_auth cfg a sid f ≡ false
      → let w' = dispatch cfg a sid f w in
        (w'.local ≡ w.local)
        × (w'.pending ≡ w.pending)
        × (w'.trace
            ≡ wrote sid (ack f result_ok (w.sessions sid)).1
              ∷ inc (frames_received (msg_name f.msg_id))
              ∷ w.trace)
        × ((i : ℕ)
            → w'.sessions i
              ≡ (if i == sid then (ack f result_ok (w.sessions sid)).0 else w.sessions i))
  unfolding dispatch emit ack_to put_session
  dispatch_dropped w h n = rw (lt→ltb _ _ h, n) (refl, refl, refl, λ i. refl)

  -- An authentication passes the guard in every state.
  pub dispatch_authentication :
      (w : World)
      → f.msg_id ≡ msg_authentication
      → dispatch cfg a sid f w
        ≡ handle_authentication cfg a sid f (emit (inc (frames_received (msg_name f.msg_id))) w)
  unfolding dispatch handle allowed_before_auth
  dispatch_authentication w h = ground arith

  -- A location report passes the guard in every state.
  pub dispatch_location :
      (w : World)
      → f.msg_id ≡ msg_location_report
      → dispatch cfg a sid f w
        ≡ handle_location cfg a sid f (emit (inc (frames_received (msg_name f.msg_id))) w)
  unfolding dispatch handle allowed_before_auth
  dispatch_location w h = ground arith

  -- A registration passes the guard in every state.
  pub dispatch_registration :
      (w : World)
      → f.msg_id ≡ msg_registration
      → dispatch cfg a sid f w
        ≡ handle_registration cfg a sid f (emit (inc (frames_received (msg_name f.msg_id))) w)
  unfolding dispatch handle allowed_before_auth
  dispatch_registration w h = ground arith
