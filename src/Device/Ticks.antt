-- ===== src/Device/Ticks.antt =====
-- The main loop of `runDevice` while the server acknowledges what it gets.
use server_jt.Base.{
  ℕ, suc, ◌%◌, ◌≡◌, refl, ap, ◌∙◌, Bool, true, List, [], ◌∷◌, ◌++◌, arith, append_assoc,
}
use server_jt.Protocol.Types.{Bytes, IsU16, msg_heartbeat, msg_location_report, result_ok}
use server_jt.Protocol.Bcd.{IsPhone}
use server_jt.Protocol.Frame.{Frame, ReadError, write_frame}
use server_jt.Protocol.Frame.RoundTrip.{plain_frame}
use server_jt.Session.{Session, ack, send}
use server_jt.Device.Replies.{read_ack-ack}
use server_jt.Device.Run.{
  Run, Output, written, saved, advanced, idle, Tick, location_tick, heartbeat_tick, Report, sent,
  write, exchange, acknowledged, report_body, main_loop,
}

module _ (e : ReadError) (writes : ℕ → Bool) (imei model : Bytes) (reports : ℕ → Report) where
  -- The message of a tick: the write number `k`, with the report number `n` or none.
  unfoldable pub tick_frame : Tick → ℕ → ℕ → Frame
  tick_frame location_tick k n =
      plain_frame msg_location_report imei (k % 65536) (report_body e writes imei model reports n)
  tick_frame heartbeat_tick k n = plain_frame msg_heartbeat imei (k % 65536) []

  abbrev pub next_report : Tick → ℕ → ℕ
  next_report location_tick n = suc n
  next_report heartbeat_tick n = n

  -- Behind the acknowledgement of a report its state is advanced and saved.
  abbrev pub saves : Tick → ℕ → List Output
  saves location_tick n = saved (suc n) ∷ []
  saves heartbeat_tick n = []

  -- What the device does at the ticks, and what a session writes that acknowledges them.
  unfoldable pub tick_outputs : List Tick → ℕ → ℕ → List Output
  tick_outputs [] k n = []
  tick_outputs (t ∷ ts) k n =
      let f = tick_frame t k n in
      written (write_frame f.msg_id imei (k % 65536) f.body)
      ∷ (saves t n ++ tick_outputs ts (suc k) (next_report t n))

  unfoldable pub acks : List Tick → ℕ → ℕ → Session → Bytes
  acks [] k n s = []
  acks (t ∷ ts) k n s =
      let r = ack (tick_frame t k n) result_ok s in r.1 ++ acks ts (suc k) (next_report t n) r.0

  one_tick :
      (f : Frame) (k : ℕ) (body rest : Bytes) (s : Session) (go_on : Bytes → Run)
      → IsU16 f.msg_id
      → IsPhone s.phone
      → writes k ≡ true
      → exchange e writes imei model reports k f.msg_id body ((ack f result_ok s).1 ++ rest) go_on
        ≡ sent (write_frame f.msg_id imei (k % 65536) body) (go_on rest)
  unfolding exchange write acknowledged
  one_tick f k body rest s go_on hi hp hw = rw (hw, read_ack-ack e s hp rest f result_ok hi) refl

  ack-IsPhone : (f : Frame) (s : Session) → IsPhone s.phone → IsPhone (ack f result_ok s).0.phone
  unfolding ack send
  ack-IsPhone f s h = h

  -- As long as every message is acknowledged and every write succeeds, the device goes on: it
  -- sends one frame for each tick, numbered from `k` on modulo 2^16, saves its state behind each
  -- report, and no error ends the run.
  pub main_loop-acks :
      (ts : List Tick) (k n : ℕ) (s : Session) (rest : Bytes)
      → IsPhone s.phone
      → ((j : ℕ) → writes j ≡ true)
      → main_loop e writes imei model reports ts k n (acks ts k n s ++ rest)
        ≡ (tick_outputs ts k n, idle)
  unfolding main_loop tick_outputs tick_frame acks plain_frame sent advanced
  main_loop-acks [] k n s rest hp hw = refl
  main_loop-acks (location_tick ∷ ts) k n s rest hp hw =
      let f = tick_frame location_tick k n in
      ap (main_loop e writes imei model reports (location_tick ∷ ts) k n)
        (append_assoc (ack f result_ok s).1 (acks ts (suc k) (suc n) (ack f result_ok s).0) rest)
      ∙ one_tick f k f.body _ s
          (λ r. advanced (suc n) (main_loop e writes imei model reports ts (suc k) (suc n) r))
          (omega arith) hp (hw k)
      ∙ ap (λ r. sent (write_frame f.msg_id imei (k % 65536) f.body) (advanced (suc n) r))
          (main_loop-acks ts (suc k) (suc n) (ack f result_ok s).0 rest (ack-IsPhone f s hp) hw)
  main_loop-acks (heartbeat_tick ∷ ts) k n s rest hp hw =
      let f = tick_frame heartbeat_tick k n in
      ap (main_loop e writes imei model reports (heartbeat_tick ∷ ts) k n)
        (append_assoc (ack f result_ok s).1 (acks ts (suc k) n (ack f result_ok s).0) rest)
      ∙ one_tick f k f.body _ s (λ r. main_loop e writes imei model reports ts (suc k) n r)
          (omega arith) hp (hw k)
      ∙ ap (sent (write_frame f.msg_id imei (k % 65536) f.body))
          (main_loop-acks ts (suc k) n (ack f result_ok s).0 rest (ack-IsPhone f s hp) hw)
