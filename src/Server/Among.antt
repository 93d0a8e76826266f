-- ===== src/Server/Among.antt =====
-- One connection among the others: its frames are dispatched in their order, and between them
-- come any calls of other connections, timers and ends of connections.
use server_jt.Base.{
  ℕ, ◌≡◌, ◌≢◌, refl, sym, ap, ◌∙◌, Option, none, some, List, [], ◌∷◌, ◌++◌, arith, inl, inr, ◌⊎◌,
  ==_ne, true, All, append_assoc, append-nil, Bool-cases, ltb,
}
use server_jt.Protocol.Types.{Bytes, msg_heartbeat, msg_location_report, result_ok}
use server_jt.Protocol.Frame.{Frame}
use server_jt.Session.{Session, ack, send, close, next_seq, rank, authenticated}
use server_jt.World.{World, emit, put_session, go}
use server_jt.Registry.{close_session, unregister}
use server_jt.Configuration.{Config}
use server_jt.Actions.{Answers}
use server_jt.Handler.{dispatch}
use server_jt.Handler.Apart.{dispatch-Silent}
use server_jt.Handler.Written.{writes_of}
use server_jt.Handler.Answering.{Silent, ack-cong, next_seq-cong, dispatch-Acked}
use server_jt.Server.{close_conn, accept, auth_timeout, leave}
use server_jt.Server.Steps.{Step, accepts, dispatches, leaves, auth_times_out, timer_closes}

-- The connection whose goroutine makes a call that may write.
unfoldable pub speaker : (cfg : Config) (v w : World) → Step cfg v w → Option ℕ
speaker cfg _ _ (accepts sid addr now w fresh) = some sid
speaker cfg _ _ (dispatches a sid f w) = some sid
speaker cfg _ _ (leaves sid w) = none
speaker cfg _ _ (auth_times_out sid w) = none
speaker cfg _ _ (timer_closes sid w) = none

-- A way from `v` to `w` on which the connection `sid` handles just the frames.
pub data Way (cfg : Config) (sid : ℕ) : List Frame → World → World → Type 0 where
  over : (w : World) → Way cfg sid [] w w
  handled :
      (a : Answers) (f : Frame) (fs : List Frame) (v w : World)
      → Way cfg sid fs (dispatch cfg a sid f v) w
      → Way cfg sid (f ∷ fs) v w
  meanwhile :
      (fs : List Frame) (u v w : World) (st : Step cfg u v)
      → speaker cfg u v st ≢ some sid
      → Way cfg sid fs v w
      → Way cfg sid fs u w

-- The writes of the connection succeed: it is open as it handles each frame, and at the end.
unfoldable pub StaysOpen :
    (cfg : Config) (sid : ℕ) (fs : List Frame) (v w : World) → Way cfg sid fs v w → Type 0
StaysOpen cfg sid _ _ _ (over w) = (w.sessions sid).conn_open ≡ true
StaysOpen cfg sid _ _ w (handled a f fs v _ rest) =
    (a.write_ok ≡ true)
    × ((v.sessions sid).conn_open ≡ true)
    × StaysOpen cfg sid fs (dispatch cfg a sid f v) w rest
StaysOpen cfg sid _ _ w (meanwhile fs u v _ st apart rest) = StaysOpen cfg sid fs v w rest

module _ (i : ℕ) where
  accept-Silent :
      (sid : ℕ) (addr : Bytes) (now : ℕ) (w : World) → i ≢ sid → Silent i w (accept sid addr now w)
  unfolding accept emit put_session writes_of
  accept-Silent sid addr now w h = rw (==_ne i sid h) (refl, refl, refl)

  close-Silent : (sid : ℕ) (w : World) → Silent i w (close_session sid w)
  unfolding close_session emit put_session close writes_of
  close-Silent sid w = (refl, ground arith, ground arith)

  auth_timeout-Silent : (sid : ℕ) (w : World) → Silent i w (auth_timeout sid w)
  unfolding auth_timeout
  auth_timeout-Silent sid w =
      elim (Bool-cases (ltb (rank (w.sessions sid).state) (rank authenticated))) [
        | inl e ↦ rw e (close-Silent sid w)
        | inr e ↦ rw e (refl, refl, refl)
      ]

  leave-Silent : (sid : ℕ) (w : World) → Silent i w (leave sid w)
  unfolding leave emit unregister go writes_of close_conn put_session
  leave-Silent sid w = (ground arith, ground arith, ground arith)

  -- A call of somebody else sends the connection nothing, and its session numbers and addresses
  -- frames as before.
  Step-Silent :
      (cfg : Config) (v w : World) (st : Step cfg v w) → speaker cfg v w st ≢ some i → Silent i v w
  unfolding speaker
  Step-Silent cfg _ _ (accepts sid addr now w fresh) h =
      accept-Silent sid addr now w (λ e. h (ap some (sym e)))
  Step-Silent cfg _ _ (dispatches a sid f w) h =
      dispatch-Silent i cfg a sid f (λ e. h (ap some (sym e))) w
  Step-Silent cfg _ _ (leaves sid w) h = leave-Silent sid w
  Step-Silent cfg _ _ (auth_times_out sid w) h = auth_timeout-Silent sid w
  Step-Silent cfg _ _ (timer_closes sid w) h = close-Silent sid w

-- The acknowledgements of frames, one after the other.
unfoldable pub frame_acks : List Frame → Session → Bytes
frame_acks [] s = []
frame_acks (f ∷ fs) s = let r = ack f result_ok s in r.1 ++ frame_acks fs r.0

frame_acks-cong :
    (fs : List Frame) (s t : Session)
    → s.phone ≡ t.phone
    → s.out_seq ≡ t.out_seq
    → frame_acks fs s ≡ frame_acks fs t
unfolding frame_acks ack send
frame_acks-cong [] s t hp ho = refl
frame_acks-cong (f ∷ fs) s t hp ho =
    ap (λ b. b ++ frame_acks fs (ack f result_ok s).0) (ack-cong f s t hp ho)
    ∙ ap (λ b. (ack f result_ok t).1 ++ b)
        (frame_acks-cong fs (ack f result_ok s).0 (ack f result_ok t).0 hp (next_seq-cong s t ho))

abbrev pub IsAnswered : Frame → Type 0
IsAnswered f = (f.msg_id ≡ msg_heartbeat) ⊎ (f.msg_id ≡ msg_location_report)

ack-after :
    (f : Frame) (s : Session)
    → ((ack f result_ok s).0.phone ≡ s.phone) × ((ack f result_ok s).0.out_seq ≡ next_seq s)
unfolding ack send
ack-after f s = (refl, refl)

-- A connection is handed the acknowledgements of its heartbeats and location reports and nothing
-- else, with the numbers that its own frames give, whatever the other connections do.
pub answered_among_others :
    (cfg : Config) (sid : ℕ) (fs : List Frame) (v w : World)
    → All IsAnswered fs
    → Way cfg sid fs v w
    → writes_of sid w.trace ≡ writes_of sid v.trace ++ frame_acks fs (v.sessions sid)
unfolding frame_acks
answered_among_others cfg sid _ v _ h (over w) = sym (append-nil (writes_of sid w.trace))
answered_among_others cfg sid _ _ w h (handled a f fs v _ rest) =
    let v1 = dispatch cfg a sid f v in
    let s = v.sessions sid in
    let acked = dispatch-Acked cfg a sid f v h.0 in
    answered_among_others cfg sid fs v1 w h.1 rest
    ∙ ap (λ b. b ++ frame_acks fs (v1.sessions sid)) acked.0
    ∙ ap (λ b. (writes_of sid v.trace ++ (ack f result_ok s).1) ++ b)
        (frame_acks-cong fs (v1.sessions sid) (ack f result_ok s).0
          (acked.1 ∙ sym (ack-after f s).0) (acked.2 ∙ sym (ack-after f s).1))
    ∙ append_assoc (writes_of sid v.trace) (ack f result_ok s).1
        (frame_acks fs (ack f result_ok s).0)
answered_among_others cfg sid _ _ w h (meanwhile fs u v _ st apart rest) =
    let silent = Step-Silent sid cfg u v st apart in
    answered_among_others cfg sid fs v w h rest
    ∙ ap (λ b. b ++ frame_acks fs (v.sessions sid)) silent.0
    ∙ ap (λ b. writes_of sid u.trace ++ b)
        (frame_acks-cong fs (v.sessions sid) (u.sessions sid) silent.1 silent.2)
