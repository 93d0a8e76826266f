-- ===== src/Device/Journey/Followed.antt =====
-- device/p901/main.go: the state file during a connection.
use server_jt.Base.{
  ℕ, zero, suc, ◌+◌, ◌≡◌, ◌≢◌, refl, ap, ◌∙◌, Option, some, arith, List, [], ◌∷◌, ◌++◌, ◌⊎◌, inl,
  inr,
}
use mathlib.Core.Path.{subst}
use server_jt.Protocol.Types.{Bytes}
use server_jt.Device.Run.{Output, written, saved}
use server_jt.Device.Settings.{DeviceConfig, DeviceState, load_state}
use server_jt.Device.Advance.{Floats}
use server_jt.Device.Signals.{Casts}
use server_jt.Device.Journey.{
  Disk, Draws, Connection, steps, content, report_at, save_state, state_at, connection_run,
  run_files,
}
use server_jt.Device.Journey.Ordered.{Consecutive, prefix-Consecutive, run_device-Consecutive}
use server_jt.Device.Journey.Resumed.{KeepsFile, load_state-text}

zero_plus : (n : ℕ) → 0 + n ≡ n
zero_plus n = omega arith

zero_cases : (n : ℕ) → (n ≡ 0) ⊎ (n ≢ 0)
zero_cases zero = inl refl
zero_cases (suc n) = inr λ h. omega (arith, h)

module _ {F Fs : Type 0} (fl : Floats F) (casts : Casts F) (disk : Disk Fs)
    (marshal : DeviceState F → Option Bytes) (seconds : F) (cfg : DeviceConfig F)
    (draws : ℕ → Draws F) (s : DeviceState F) (n : ℕ) (times : ℕ → ℕ) where
  files : List Output → Fs → Fs
  files = run_files fl casts disk marshal seconds cfg draws s n times

  -- The state behind `k` steps of the connection, as it is saved.
  abbrev as_saved : ℕ → DeviceState F
  as_saved k = record (state_at fl casts disk marshal seconds draws s (n + k)) {
    saved_at = times k;
  }

  files-no_steps : (os : List Output) (fs : Fs) → steps os ≡ 0 → files os fs ≡ fs
  unfolding files run_files steps
  files-no_steps [] fs h = refl
  files-no_steps (written b ∷ os) fs h = files-no_steps os fs h
  files-no_steps (saved i ∷ os) fs h = absurd (omega (arith, h))

  module _ (Healthy : Fs → Type 0) (works : KeepsFile disk marshal cfg.state_file Healthy) where
    saved-read :
        (k i : ℕ) (fs : Fs)
        → i ≡ k
        → Healthy fs
        → disk.read_file cfg.state_file (
            save_state fl casts disk marshal seconds
              (times i)
              (state_at fl casts disk marshal seconds draws s (n + i))
              cfg.state_file
              fs)
          ≡ some (content (marshal (as_saved k)))
    unfolding save_state
    saved-read k i fs h ok = (works _ fs ok).0 ∙ ap (λ j. some (content (marshal (as_saved j)))) h

    files-read :
        (j : ℕ) (os : List Output) (fs : Fs)
        → Consecutive j os
        → steps os ≢ 0
        → Healthy fs
        → disk.read_file cfg.state_file (files os fs)
          ≡ some (content (marshal (as_saved (j + steps os))))
    unfolding files run_files steps Consecutive save_state
    files-read j [] fs h hs ok = absurd (hs refl)
    files-read j (written b ∷ os) fs h hs ok = files-read j os fs h hs ok
    files-read j (saved i ∷ os) fs h hs ok =
        let fs' =
          save_state fl casts disk marshal seconds (times i)
            (state_at fl casts disk marshal seconds draws s (n + i)) cfg.state_file fs in
        elim (zero_cases (steps os)) [
          | inl z ↦
              ap (disk.read_file cfg.state_file) (files-no_steps os fs' z)
              ∙ saved-read (j + suc (steps os)) i fs (h.0 ∙ omega (arith, z)) ok
          | inr p ↦
              files-read (suc j) os fs' h.1 p (works _ fs ok).1
              ∙ ap (λ k. some (content (marshal (as_saved k)))) (omega arith)
        ]

-- The state file follows the run. Wherever a connection is cut short behind its first acknowledged
-- report, the file holds the state that the device had reached, with the time of its last save, if
-- that state has a JSON text, which `json.Unmarshal` reads as that state. The condition on the file
-- system: the state file can be saved and read back in it as the connection begins, and behind each
-- save.
pub file_follows_run :
    {F Fs : Type 0} (fl : Floats F) (casts : Casts F) (disk : Disk Fs)
    (marshal : DeviceState F → Option Bytes) (unmarshal : Bytes → Option (DeviceState F))
    (seconds : F) (cfg : DeviceConfig F) (Healthy : Fs → Type 0) (draws : ℕ → Draws F)
    (s : DeviceState F) (n later : ℕ) (c : Connection F) (before after : List Output) (fs : Fs)
    (text : Bytes)
    → KeepsFile disk marshal cfg.state_file Healthy
    → Healthy fs
    → (connection_run fl casts disk marshal seconds cfg draws s n c).0 ≡ before ++ after
    → steps before ≢ 0
    → let reached = record (state_at fl casts disk marshal seconds draws s (n + steps before)) {
      saved_at = c.save_times (steps before);
    } in
      let fs' = run_files fl casts disk marshal seconds cfg draws s n c.save_times before fs in
      marshal reached ≡ some text
      → unmarshal text ≡ some reached
      → load_state unmarshal (disk.read_file cfg.state_file fs') cfg later ≡ reached
unfolding connection_run files content
file_follows_run fl casts disk marshal unmarshal seconds cfg Healthy draws s n later c before after
      fs text works healthy run some_step wrote reads =
    let reports = λ (i : ℕ).
      report_at fl casts disk marshal seconds (c.clocks i) (c.normals i) draws s (n + i) in
    let ordered =
      run_device-Consecutive c.read_end c.writes cfg.imei cfg.device_model reports c.ticks
        c.stream in
    let kept = as_saved fl casts disk marshal seconds cfg draws s n c.save_times in
    ap (λ o. load_state unmarshal o cfg later)
      (files-read fl casts disk marshal seconds cfg draws s n c.save_times Healthy works 0 before fs
          (prefix-Consecutive 0 before after (subst (Consecutive 0) run ordered)) some_step healthy
        ∙ ap (λ k. some (content (marshal (kept k)))) (zero_plus (steps before))
        ∙ ap (λ b. some (content b)) wrote)
    ∙ load_state-text unmarshal text cfg later (kept (steps before)) reads
