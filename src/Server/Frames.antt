-- ===== src/Server/Frames.antt =====
-- The loop of a connection handles what it reads, frame by frame.
use server_jt.Base.{
  ℕ, zero, suc, ◌+◌, ◌≤◌, ◌≡◌, refl, sym, ap, ◌∙◌, List, [], ◌∷◌, ◌++◌, length, All, arith,
  append_assoc,
}
use server_jt.Protocol.Types.{Bytes, IsU16}
use server_jt.Protocol.Bcd.{IsPhone}
use server_jt.Protocol.Frame.{
  Frame, ReadError, FrameError, Result, ok, err, read_frame, write_frame,
}
use server_jt.Protocol.Frame.Errors.{read_frame-takes, read_frame-closed_iff}
use server_jt.Protocol.Frame.RoundTrip.{plain_frame, read_frame-write_frame}
use server_jt.World.{World}
use server_jt.Configuration.{Config}
use server_jt.Actions.{Answers}
use server_jt.Handler.{dispatch}
use server_jt.Server.{serve, on_frame, accept, leave, handle_conn}
use native.Mathlib.Nat.{le_refl}

-- What a peer sends: the arguments of its `WriteFrame`.
pub record Message : Type 0 where
  pub id : ℕ
  pub phone : Bytes
  pub seq_num : ℕ
  pub body : Bytes

abbrev pub IsMessage : Message → Type 0
IsMessage m = IsU16 m.id × IsU16 m.seq_num × IsPhone m.phone

unfoldable pub wire_frames : List Message → Bytes
wire_frames [] = []
wire_frames (m ∷ ms) = write_frame m.id m.phone m.seq_num m.body ++ wire_frames ms

on_frame-cong :
    (w : World) (g h : Frame × Bytes → World) (r : Result (Frame × Bytes))
    → ((p : Frame × Bytes) → r ≡ ok p → g p ≡ h p)
    → on_frame w g r ≡ on_frame w h r
on_frame-cong w g h (err x) k = refl
on_frame-cong w g h (ok p) k = k p refl

module _ (cfg : Config) (answers : ℕ → Answers) (sid : ℕ) (e : ReadError) where
  -- The dispatches of messages, the first one with the answers `k`.
  unfoldable pub dispatch_all : ℕ → List Message → World → World
  dispatch_all k [] w = w
  dispatch_all k (m ∷ ms) w =
      dispatch_all (suc k) ms
        (dispatch cfg (answers k) sid (plain_frame m.id m.phone m.seq_num m.body) w)

  serve_empty : (n k : ℕ) (w : World) → serve cfg answers sid e n k [] w ≡ w
  unfolding serve
  serve_empty zero k w = refl
  serve_empty (suc n) k w = rw ((read_frame-closed_iff e []).1 tt)

  -- The result does not depend on the rounds once there is one for each byte.
  pub serve_fuel :
      (n m k : ℕ) (stream : Bytes) (w : World)
      → length stream ≤ n
      → length stream ≤ m
      → serve cfg answers sid e n k stream w ≡ serve cfg answers sid e m k stream w
  unfolding serve
  serve_fuel zero m k [] w hn hm = sym (serve_empty m k w)
  serve_fuel (suc n) zero k [] w hn hm = serve_empty (suc n) k w
  serve_fuel zero m k (b ∷ bs) w hn hm = absurd (omega arith)
  serve_fuel (suc n) zero k (b ∷ bs) w hn hm = absurd (omega arith)
  serve_fuel (suc n) (suc m) k stream w hn hm =
      on_frame-cong w
        (λ p. serve cfg answers sid e n (suc k) p.1 (dispatch cfg (answers k) sid p.0 w))
        (λ p. serve cfg answers sid e m (suc k) p.1 (dispatch cfg (answers k) sid p.0 w))
        (read_frame e stream)
        λ p h.
          let taken = read_frame-takes e stream p.0 p.1 h in
          serve_fuel n m (suc k) p.1 (dispatch cfg (answers k) sid p.0 w) (omega arith)
            (omega arith)

  read_message :
      (m : Message) (rest : Bytes)
      → IsMessage m
      → read_frame e (write_frame m.id m.phone m.seq_num m.body ++ rest)
        ≡ ok (plain_frame m.id m.phone m.seq_num m.body, rest)
  read_message m rest h =
      read_frame-write_frame m.id m.seq_num m.phone m.body e [] rest h.0 h.1 h.2 tt

  serve_broken :
      (n k : ℕ) (last : Bytes) (x : FrameError) (w : World)
      → read_frame e last ≡ err x
      → serve cfg answers sid e n k last w ≡ w
  unfolding serve
  serve_broken zero k last x w h = refl
  serve_broken (suc n) k last x w h = ap (on_frame w _) h

  -- One round on a message.
  serve_message :
      (m : Message) (n k : ℕ) (rest : Bytes) (w : World)
      → IsMessage m
      → serve cfg answers sid e (suc n) k (write_frame m.id m.phone m.seq_num m.body ++ rest) w
        ≡ serve cfg answers sid e n
            (suc k)
            rest
            (dispatch cfg (answers k) sid (plain_frame m.id m.phone m.seq_num m.body) w)
  unfolding serve
  serve_message m n k rest w h = ap (on_frame w _) (read_message m rest h)

  message_length :
      (m : Message) (ms : List Message) (last : Bytes)
      → IsMessage m
      → length (wire_frames ms ++ last) + 15
        ≤ length ((write_frame m.id m.phone m.seq_num m.body ++ wire_frames ms) ++ last)
  message_length m ms last h =
      let frame = write_frame m.id m.phone m.seq_num m.body in
      let rest = wire_frames ms ++ last in
      let taken = read_frame-takes e (frame ++ rest) _ rest (read_message m rest h) in
      omega (arith, taken, ap length (append_assoc frame (wire_frames ms) last))

  pub serve_messages :
      (ms : List Message) (n k : ℕ) (last : Bytes) (x : FrameError) (w : World)
      → All IsMessage ms
      → read_frame e last ≡ err x
      → length (wire_frames ms ++ last) ≤ n
      → serve cfg answers sid e n k (wire_frames ms ++ last) w ≡ dispatch_all k ms w
  unfolding wire_frames dispatch_all
  serve_messages [] n k last x w hm hx hn = serve_broken n k last x w hx
  serve_messages (m ∷ ms) zero k last x w hm hx hn =
      absurd (omega (arith, message_length m ms last hm.0))
  serve_messages (m ∷ ms) (suc n) k last x w hm hx hn =
      ap (λ t. serve cfg answers sid e (suc n) k t w)
        (append_assoc (write_frame m.id m.phone m.seq_num m.body) (wire_frames ms) last)
      ∙ serve_message m n k (wire_frames ms ++ last) w hm.0
      ∙ serve_messages ms n (suc k) last x _ hm.1 hx (omega (arith, message_length m ms last hm.0))

  -- Frames that a peer wrote are dispatched one after the other, in their order and each with its
  -- own fields; what stands behind them and is no frame ends the connection, which leaves the
  -- registry.
  pub handle_conn_dispatches :
      (ms : List Message) (last : Bytes) (x : FrameError) (addr : Bytes) (now : ℕ) (w : World)
      → All IsMessage ms
      → read_frame e last ≡ err x
      → handle_conn cfg answers sid e addr now (wire_frames ms ++ last) w
        ≡ leave sid (dispatch_all 0 ms (accept sid addr now w))
  unfolding handle_conn
  handle_conn_dispatches ms last x addr now w hm hx = ap (leave sid) (
      serve_messages ms (length (wire_frames ms ++ last)) 0 last x (accept sid addr now w) hm hx
        (le_refl _))
