-- ===== src/Device/Conversation/Others.antt =====
-- The main loop of `runDevice` against a connection among others.
use server_jt.Base.{ℕ, ◌≡◌, sym, ap, ◌∙◌, Bool, true, List, [], ◌++◌, append-nil}
use server_jt.Protocol.Types.{Bytes}
use server_jt.Protocol.Bcd.{IsPhone}
use server_jt.Protocol.Frame.{ReadError}
use server_jt.World.{World}
use server_jt.Configuration.{Config}
use server_jt.Handler.Written.{writes_of}
use server_jt.Server.Among.{Way, StaysOpen, answered_among_others}
use server_jt.Device.Run.{idle, Tick, Report, main_loop}
use server_jt.Device.Ticks.{tick_outputs, acks, main_loop-acks}
use server_jt.Device.Conversation.{tick_list, acks-frames, tick_list-AreAnswered}

module _ (e : ReadError) (writes : ℕ → Bool) (imei model : Bytes) (reports : ℕ → Report) where
  -- The device and the server keep each other going among other connections. Whatever these do
  -- between the messages of the device, and whatever timers run, as long as none of them closes
  -- this connection and the server's writes to it succeed, a connection that handles the frames of
  -- any sequence of ticks writes bytes on which the device's main loop sends just these frames,
  -- saves its state behind each report, and is still running; if the phone of the session fits the
  -- codec and the device's writes succeed.
  pub device_among_others :
      (cfg : Config) (sid : ℕ) (ts : List Tick) (k n : ℕ) (v w : World)
      (among : Way cfg sid (tick_list e writes imei model reports ts k n) v w)
      → StaysOpen cfg sid (tick_list e writes imei model reports ts k n) v w among
      → IsPhone (v.sessions sid).phone
      → ((i : ℕ) → writes i ≡ true)
      → (replies : Bytes) × (writes_of sid w.trace ≡ writes_of sid v.trace ++ replies)
        × (main_loop e writes imei model reports ts k n replies
            ≡ (tick_outputs e writes imei model reports ts k n, idle))
  device_among_others cfg sid ts k n v w among opened hp hw =
      let replies = acks e writes imei model reports ts k n (v.sessions sid) in
      (
        replies,
        answered_among_others cfg sid (tick_list e writes imei model reports ts k n) v w
              (tick_list-AreAnswered e writes imei model reports ts k n) among
            ∙ ap (λ b. writes_of sid v.trace ++ b)
                (sym (acks-frames e writes imei model reports ts k n (v.sessions sid))),
        ap (main_loop e writes imei model reports ts k n) (sym (append-nil replies))
            ∙ main_loop-acks e writes imei model reports ts k n (v.sessions sid) [] hp hw,
      )
