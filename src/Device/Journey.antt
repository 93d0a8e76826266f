-- ===== src/Device/Journey.antt =====
-- device/p901/main.go: `saveState`, and the loop of `main` that connects again and again. The state
-- number `n` is the one behind `n` steps of `advanceState`. The file system, `json.MarshalIndent`
-- and the random numbers are arguments; the five seconds between two attempts are left out.
pub mod Resumed
pub mod Ordered
pub mod Followed
use server_jt.Base.{ℕ, zero, suc, ◌+◌, Bool, Option, none, some, List, [], ◌∷◌, if◌then◌else◌}
use server_jt.Base.Int.{ℤ}
use server_jt.Protocol.Types.{Bytes}
use server_jt.Protocol.Frame.{ReadError}
use server_jt.Device.{Clock}
use server_jt.Device.Run.{
  Ending, dial_failed, idle, Tick, Report, Run, Output, written, saved, run_device,
}
use server_jt.Device.State.{state_dir}
use server_jt.Device.Settings.{DeviceConfig, DeviceState, load_config, load_state}
use server_jt.Device.Advance.{Floats, advance_state}
use server_jt.Device.Signals.{Casts, state_report}

-- `os.MkdirAll`, `os.WriteFile` and `os.ReadFile` on the files `Fs`. The code drops their errors.
pub record Disk (Fs : Type 0) : Type 0 where
  pub mkdir_all : Bytes → Fs → Fs
  pub write_file : Bytes → Bytes → Fs → Fs
  pub read_file : Bytes → Fs → Option Bytes

-- The random numbers of a step.
pub record Draws (F : Type 0) : Type 0 where
  pub turn : F
  pub change : F
  pub random : ℕ

-- An established connection, with the clock and the random number of each report, and the clock at
-- each save and behind the error.
pub record Connection (F : Type 0) : Type 0 where
  pub read_end : ReadError
  pub writes : ℕ → Bool
  pub ticks : List Tick
  pub stream : Bytes
  pub clocks : ℕ → Clock
  pub normals : ℕ → F
  pub save_times : ℕ → ℕ
  pub failed_at : ℕ

pub data Attempt (F : Type 0) : Type 0 where
  unreachable : ℕ → Attempt F
  reached : Connection F → Attempt F

-- How many steps a run has made.
unfoldable pub steps : List Output → ℕ
steps [] = 0
steps (written b ∷ os) = steps os
steps (saved i ∷ os) = suc (steps os)

-- What is written of the result of `json.MarshalIndent`, whose error is dropped: a NaN or an
-- infinity has no JSON text, and the file is then empty.
unfoldable pub content : Option Bytes → Bytes
content none = []
content (some b) = b

module _ {F Fs : Type 0} (fl : Floats F) (casts : Casts F) (disk : Disk Fs)
    (marshal : DeviceState F → Option Bytes) (seconds : F) where
  unfoldable pub save_state : ℕ → DeviceState F → Bytes → Fs → Fs
  save_state now s path fs =
      disk.write_file path (content (marshal (record s { saved_at = now })))
        (disk.mkdir_all (state_dir path) fs)

  -- The states of a journey.
  unfoldable pub state_at : (ℕ → Draws F) → DeviceState F → ℕ → DeviceState F
  state_at draws s zero = s
  state_at draws s (suc n) =
      let d = draws n in advance_state fl seconds d.turn d.change d.random (state_at draws s n)

  unfoldable pub report_at : Clock → F → (ℕ → Draws F) → DeviceState F → ℕ → Report
  unfolding state_at
  report_at t normal draws s n = state_report fl casts t normal (state_at draws s n)

  module _ (cfg : DeviceConfig F) (draws : ℕ → Draws F) (s : DeviceState F) where
    -- A connection that begins with the state number `n`.
    unfoldable pub connection_run : ℕ → Connection F → Run
    connection_run n c =
        run_device c.read_end c.writes cfg.imei cfg.device_model
          (λ i. report_at (c.clocks i) (c.normals i) draws s (n + i)) c.ticks c.stream

    -- The files behind what a run has done.
    unfoldable pub run_files : ℕ → (ℕ → ℕ) → List Output → Fs → Fs
    run_files n times [] fs = fs
    run_files n times (written b ∷ os) fs = run_files n times os fs
    run_files n times (saved i ∷ os) fs =
        run_files n times os (save_state (times i) (state_at draws s (n + i)) cfg.state_file fs)

    -- The state is saved behind an error.
    unfoldable pub after_run : Ending → ℕ → ℕ → Fs → Fs
    after_run idle now n fs = fs
    after_run failure now n fs = save_state now (state_at draws s n) cfg.state_file fs

    -- One round of the loop: the number of the state in memory, and the files.
    unfoldable pub attempt : Attempt F → ℕ × Fs → ℕ × Fs
    attempt (unreachable now) (n, fs) = (n, after_run dial_failed now n fs)
    attempt (reached c) (n, fs) =
        let (os, end) = connection_run n c in
        (n + steps os, after_run end c.failed_at (n + steps os) (run_files n c.save_times os fs))

    -- A run that is idle is the last one.
    unfoldable pub supervise : List (Attempt F) → ℕ × Fs → ℕ × Fs
    supervise [] p = p
    supervise (a ∷ later) p = supervise later (attempt a p)

    -- The signal comes behind the attempts, and `main`, which waits for it from the start, gets it:
    -- the state is saved once more.
    unfoldable pub shut_down : ℕ → ℕ × Fs → Fs
    shut_down now (n, fs) = save_state now (state_at draws s n) cfg.state_file fs

  -- `main`: without a number it exits with status 1.
  unfoldable pub main :
      (ℕ → ℕ → F)
      → (Bytes → Option F)
      → (Bytes → Option ℤ)
      → (Bytes → Bytes)
      → (Bytes → Option (DeviceState F))
      → (ℕ → Draws F)
      → List (Attempt F)
      → ℕ
      → ℕ
      → Fs
      → Option Fs
  main float parse_float parse_duration env unmarshal draws attempts started stopped fs =
      elim (load_config float parse_float env parse_duration) [
        | none ↦ none
        | some cfg ↦ some (
            let s = load_state unmarshal (disk.read_file cfg.state_file fs) cfg started in
            shut_down cfg draws s stopped (supervise cfg draws s attempts (0, fs)))
      ]
