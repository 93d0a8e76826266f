-- ===== src/Device/Journey/Resumed.antt =====
-- device/p901/main.go: a journey that goes on behind a restart.
use server_jt.Base.{ℕ, zero, suc, ◌+◌, ◌≡◌, refl, sym, ap, ◌∙◌, some, arith, Option, List, [], ◌∷◌}
use server_jt.Base.Int.{ℤ}
use server_jt.Protocol.Types.{Bytes}
use server_jt.Device.{Clock}
use server_jt.Device.Run.{
  Ending, send_failed, read_error, bad_reply, reg_rejected, dial_failed, auth_failed, ack_failed,
  idle, Output, written, saved,
}
use server_jt.Device.State.{state_dir}
use server_jt.Device.Settings.{DeviceConfig, DeviceState, load_config, load_state}
use server_jt.Device.Advance.{Floats, advance_state}
use server_jt.Device.Signals.{Casts, state_report, position_of}
use server_jt.Device.Journey.{
  Disk, Draws, Attempt, unreachable, reached, steps, content, save_state, state_at, report_at,
  connection_run, run_files, after_run, attempt, supervise, shut_down, main,
}

-- Saving at this path works in the file systems `Healthy`, and leaves them so: the file is read as it
-- was written. Other paths, and other file systems, are free.
abbrev pub KeepsFile :
    {F Fs : Type 0} → Disk Fs → (DeviceState F → Option Bytes) → Bytes → (Fs → Type 0) → Type 0
KeepsFile {F} {Fs} disk marshal path Healthy =
    (x : DeviceState F) (fs : Fs)
    → Healthy fs
    → let fs' = disk.write_file path (content (marshal x)) (disk.mkdir_all (state_dir path) fs) in
      (disk.read_file path fs' ≡ some (content (marshal x))) × Healthy fs'

-- A state whose text was read.
pub load_state-text :
    {F : Type 0} (unmarshal : Bytes → Option (DeviceState F)) (text : Bytes) (cfg : DeviceConfig F)
    (now : ℕ) (x : DeviceState F)
    → unmarshal text ≡ some x
    → load_state unmarshal (some text) cfg now ≡ x
unfolding load_state
load_state-text unmarshal text cfg now x h = rw (h, load_state) refl

module _ {F Fs : Type 0} (fl : Floats F) (casts : Casts F) (disk : Disk Fs)
    (marshal : DeviceState F → Option Bytes) (seconds : F) where
  state_at-later :
      (draws : ℕ → Draws F) (s : DeviceState F) (n m : ℕ)
      → state_at fl casts disk marshal seconds draws s (n + m)
        ≡ state_at fl casts disk marshal seconds
            (λ i. draws (n + i))
            (state_at fl casts disk marshal seconds draws s n)
            m
  unfolding state_at
  state_at-later draws s n zero = ap (state_at fl casts disk marshal seconds draws s) plus_zero
    where
      plus_zero : n + 0 ≡ n
      plus_zero = omega arith
  state_at-later draws s n (suc m) =
      let d = draws (n + m) in
      ap (state_at fl casts disk marshal seconds draws s) plus_suc
      ∙ ap (advance_state fl seconds d.turn d.change d.random) (state_at-later draws s n m)
    where
      plus_suc : n + suc m ≡ suc (n + m)
      plus_suc = omega arith

  -- The time of the save plays no part.
  stamp : ℕ → DeviceState F → DeviceState F
  stamp now s = record s { saved_at = now }

  state_at-stamp :
      (draws : ℕ → Draws F) (now : ℕ) (s : DeviceState F) (m : ℕ)
      → state_at fl casts disk marshal seconds draws (stamp now s) m
        ≡ stamp now (state_at fl casts disk marshal seconds draws s m)
  unfolding state_at stamp advance_state
  state_at-stamp draws now s zero = refl
  state_at-stamp draws now s (suc m) =
      let d = draws m in
      ap (advance_state fl seconds d.turn d.change d.random) (state_at-stamp draws now s m)

  report-stamp :
      (t : Clock) (normal : F) (now : ℕ) (s : DeviceState F)
      → state_report fl casts t normal (stamp now s) ≡ state_report fl casts t normal s
  unfolding state_report position_of stamp
  report-stamp t normal now s = refl

  module _ (unmarshal : Bytes → Option (DeviceState F)) (cfg : DeviceConfig F)
      (Healthy : Fs → Type 0) (works : KeepsFile disk marshal cfg.state_file Healthy)
      (draws : ℕ → Draws F) (s : DeviceState F) where
    run_files-Healthy :
        (n : ℕ) (times : ℕ → ℕ) (os : List Output) (fs : Fs)
        → Healthy fs
        → Healthy (run_files fl casts disk marshal seconds cfg draws s n times os fs)
    unfolding run_files save_state
    run_files-Healthy n times [] fs h = h
    run_files-Healthy n times (written b ∷ os) fs h = run_files-Healthy n times os fs h
    run_files-Healthy n times (saved i ∷ os) fs h = run_files-Healthy n times os _ (works _ fs h).1

    after_run-Healthy :
        (end : Ending) (now n : ℕ) (fs : Fs)
        → Healthy fs
        → Healthy (after_run fl casts disk marshal seconds cfg draws s end now n fs)
    unfolding after_run save_state
    after_run-Healthy (send_failed id) now n fs h = (works _ fs h).1
    after_run-Healthy (read_error x) now n fs h = (works _ fs h).1
    after_run-Healthy (bad_reply id) now n fs h = (works _ fs h).1
    after_run-Healthy (reg_rejected result) now n fs h = (works _ fs h).1
    after_run-Healthy dial_failed now n fs h = (works _ fs h).1
    after_run-Healthy auth_failed now n fs h = (works _ fs h).1
    after_run-Healthy (ack_failed x) now n fs h = (works _ fs h).1
    after_run-Healthy idle now n fs h = h

    supervise-Healthy :
        (attempts : List (Attempt F)) (n : ℕ) (fs : Fs)
        → Healthy fs
        → Healthy (supervise fl casts disk marshal seconds cfg draws s attempts (n, fs)).1
    unfolding supervise attempt
    supervise-Healthy [] n fs h = h
    supervise-Healthy (unreachable now ∷ later) n fs h =
        supervise-Healthy later n _ (after_run-Healthy dial_failed now n fs h)
    supervise-Healthy (reached c ∷ later) n fs h =
        let run = connection_run fl casts disk marshal seconds cfg draws s n c in
        supervise-Healthy later (n + steps run.0) _ (
          after_run-Healthy run.1 c.failed_at (n + steps run.0) _
            (run_files-Healthy n c.save_times run.0 fs h))

    -- A start behind a shutdown sends the reports that the device would have sent had it run on.
    resumed_reports :
        (attempts : List (Attempt F)) (stopped started m : ℕ) (t : Clock) (normal : F) (fs : Fs)
        (text : Bytes)
        → let p = supervise fl casts disk marshal seconds cfg draws s attempts (0, fs) in
          let fs' = shut_down fl casts disk marshal seconds cfg draws s stopped p in
          let last = stamp stopped (state_at fl casts disk marshal seconds draws s p.0) in
          let resumed = load_state unmarshal (disk.read_file cfg.state_file fs') cfg started in
          Healthy fs
          → marshal last ≡ some text
          → unmarshal text ≡ some last
          → report_at fl casts disk marshal seconds t normal (λ i. draws (p.0 + i)) resumed m
            ≡ report_at fl casts disk marshal seconds t normal draws s (p.0 + m)
    unfolding shut_down report_at save_state stamp content
    resumed_reports attempts stopped started m t normal fs text healthy wrote reads =
        let p = supervise fl casts disk marshal seconds cfg draws s attempts (0, fs) in
        let now = state_at fl casts disk marshal seconds draws s p.0 in
        let on = λ (x : DeviceState F).
          state_at fl casts disk marshal seconds (λ i. draws (p.0 + i)) x m in
        ap (λ o. state_report fl casts t normal (on (load_state unmarshal o cfg started)))
          ((works (stamp stopped now) p.1 (supervise-Healthy attempts 0 fs healthy)).0
            ∙ ap (λ b. some (content b)) wrote)
        ∙ ap (λ x. state_report fl casts t normal (on x))
            (load_state-text unmarshal text cfg started (stamp stopped now) reads)
        ∙ ap (state_report fl casts t normal) (state_at-stamp (λ i. draws (p.0 + i)) stopped now m)
        ∙ report-stamp t normal stopped (on now)
        ∙ ap (state_report fl casts t normal) (sym (state_at-later draws s p.0 m))

  -- A restart goes on with the journey. A device that has a number starts; whatever attempts it
  -- makes, with connections that fail at any point, when it is shut down and started again with the
  -- same settings, each report behind its start is the one that it would have sent, at that time
  -- and with that signal, had it run on. The conditions: the state file can be saved and read back
  -- in the file system at the start and behind each save, and the state at the shutdown has a JSON
  -- text, which `json.Unmarshal` reads as that state.
  pub main_resumes :
      (unmarshal : Bytes → Option (DeviceState F)) (cfg : DeviceConfig F) (Healthy : Fs → Type 0)
      (float : ℕ → ℕ → F) (parse_float : Bytes → Option F) (parse_duration : Bytes → Option ℤ)
      (env : Bytes → Bytes) (draws : ℕ → Draws F) (attempts : List (Attempt F))
      (started stopped : ℕ) (fs : Fs) (text : Bytes)
      → KeepsFile disk marshal cfg.state_file Healthy
      → Healthy fs
      → load_config float parse_float env parse_duration ≡ some cfg
      → let s = load_state unmarshal (disk.read_file cfg.state_file fs) cfg started in
        let p = supervise fl casts disk marshal seconds cfg draws s attempts (0, fs) in
        let last = record (state_at fl casts disk marshal seconds draws s p.0) {
          saved_at = stopped;
        } in
        marshal last ≡ some text
        → unmarshal text ≡ some last
        → (fs' : Fs) × (main fl casts disk marshal seconds float parse_float parse_duration env
              unmarshal draws attempts started stopped fs
            ≡ some fs')
          × ((restarted m : ℕ) (t : Clock) (normal : F)
              → let resumed =
                  load_state unmarshal (disk.read_file cfg.state_file fs') cfg restarted in
                report_at fl casts disk marshal seconds t normal (λ i. draws (p.0 + i)) resumed m
                ≡ report_at fl casts disk marshal seconds t normal draws s (p.0 + m))
  unfolding main stamp
  main_resumes unmarshal cfg Healthy float parse_float parse_duration env draws attempts started
        stopped fs text works healthy h wrote reads =
      let s = load_state unmarshal (disk.read_file cfg.state_file fs) cfg started in
      let p = supervise fl casts disk marshal seconds cfg draws s attempts (0, fs) in
      (
        shut_down fl casts disk marshal seconds cfg draws s stopped p,
        rw (h, main) refl,
        λ restarted m t normal.
            resumed_reports unmarshal cfg Healthy works draws s attempts stopped restarted m t
              normal fs text healthy wrote reads,
      )
