-- ===== src/Device/Run.antt =====
-- device/p901/main.go: `runDevice`, one connection of the device. `stream` is what the server will
-- send, `e` what a read returns behind it, and `writes k` whether the write number `k` succeeds.
-- The report of the state number `n` is `reports n`; in Device.Journey these are the states that
-- `advanceState` makes, and an attempt may fail to dial. Deadlines are left out.
use server_jt.Base.{
  ℕ, suc, ◌%◌, Bool, false, Option, none, some, List, [], ◌∷◌, ◌==◌, if◌then◌else◌,
}
use server_jt.Protocol.Types.{
  Bytes, msg_registration, msg_authentication, msg_heartbeat, msg_location_report,
  msg_platform_resp, result_ok,
}
use server_jt.Protocol.Frame.{
  Frame, FrameError, ReadError, Result, ok, err, read_frame, write_frame,
}
use server_jt.Device.{
  Position, Clock, build_reg_body, build_location_body, RegReply, token, unexpected, rejected,
  reg_reply, AckError, read_ack,
}

-- The error returns, and that the tickers have fired no more.
pub data Ending : Type 0 where
  send_failed : ℕ → Ending
  read_error : FrameError → Ending
  bad_reply reg_rejected : ℕ → Ending
  dial_failed auth_failed : Ending
  ack_failed : AckError → Ending
  idle : Ending

pub data Tick : Type 0 where
  location_tick heartbeat_tick : Tick

-- What a position, the clock and the signal strength are for one report.
pub record Report : Type 0 where
  pub position : Position
  pub clock : Clock
  pub csq : ℕ

-- A frame that the device has written, or that its state was advanced and saved, as the state
-- number `n` of its journey.
pub data Output : Type 0 where
  written : Bytes → Output
  saved : ℕ → Output

-- What the device does, in its order, and how the run ends.
abbrev pub Run : Type 0
Run = List Output × Ending

unfoldable pub sent : Bytes → Run → Run
sent frame (outs, end) = (written frame ∷ outs, end)

-- `advanceState` and `saveState`.
unfoldable pub advanced : ℕ → Run → Run
advanced n (outs, end) = (saved n ∷ outs, end)

-- The reading of the acknowledgement of the login.
auth_body : ℕ → Bytes → Bool
auth_body id (a ∷ b ∷ c ∷ d ∷ result ∷ rest) =
    if id == msg_platform_resp then result == result_ok else false
auth_body id short = false

unfoldable pub auth_acked : Frame → Bool
unfolding auth_body
auth_acked f = auth_body f.msg_id f.body

unfoldable pub acknowledged : (Bytes → Run) → Option AckError × Bytes → Run
acknowledged go_on (some x, rest) = ([], ack_failed x)
acknowledged go_on (none, rest) = go_on rest

module _ (e : ReadError) (writes : ℕ → Bool) (imei model : Bytes) (reports : ℕ → Report) where
  -- The write number `k`, whose frame carries `k` as a `uint16`; `go_on` is what follows it.
  unfoldable pub write : ℕ → ℕ → Bytes → Run → Run
  unfolding sent
  write k msg_id body go_on =
      if writes k
      then sent (write_frame msg_id imei (k % 65536) body) go_on
      else ([], send_failed msg_id)

  -- A message and the reading of its acknowledgement.
  unfoldable pub exchange : ℕ → ℕ → Bytes → Bytes → (Bytes → Run) → Run
  exchange k msg_id body stream go_on =
      write k msg_id body (acknowledged go_on (read_ack e msg_id stream))

  -- The report number `n`.
  unfoldable pub report_body : ℕ → Bytes
  report_body n = build_location_body (reports n).position (reports n).clock (reports n).csq

  -- The main loop on the ticks that fire.
  unfoldable pub main_loop : List Tick → ℕ → ℕ → Bytes → Run
  main_loop [] k n stream = ([], idle)
  main_loop (location_tick ∷ ts) k n stream =
      exchange k msg_location_report (report_body n) stream
        (λ rest. advanced (suc n) (main_loop ts (suc k) (suc n) rest))
  main_loop (heartbeat_tick ∷ ts) k n stream =
      exchange k msg_heartbeat [] stream (λ rest. main_loop ts (suc k) n rest)

  unfoldable pub after_auth : List Tick → Result (Frame × Bytes) → Run
  after_auth ts (err x) = ([], read_error x)
  after_auth ts (ok (f, rest)) =
      if auth_acked f then main_loop (location_tick ∷ ts) 3 0 rest else ([], auth_failed)

  unfoldable pub after_reply : List Tick → Bytes → RegReply → Run
  after_reply ts rest (unexpected id) = ([], bad_reply id)
  after_reply ts rest (rejected result) = ([], reg_rejected result)
  after_reply ts rest (token t) = write 2 msg_authentication t (after_auth ts (read_frame e rest))

  unfoldable pub after_registration : List Tick → Result (Frame × Bytes) → Run
  after_registration ts (err x) = ([], read_error x)
  after_registration ts (ok (f, rest)) = after_reply ts rest (reg_reply f)

  -- The first report is sent as if its ticker had fired.
  unfoldable pub run_device : List Tick → Bytes → Run
  run_device ts stream =
      write 1 msg_registration (build_reg_body imei model)
        (after_registration ts (read_frame e stream))
