-- ===== src/Device/Journey/Ordered.antt =====
-- device/p901/main.go: the order in which `runDevice` saves its states.
use server_jt.Base.{
  ℕ, suc, ◌≡◌, refl, Bool, Option, some, none, List, [], ◌∷◌, ◌++◌, Bool-cases, inl, inr,
}
use server_jt.Protocol.Types.{Bytes}
use server_jt.Protocol.Frame.{Frame, ReadError, Result, ok, err}
use server_jt.Device.{RegReply, token, unexpected, rejected, AckError}
use server_jt.Device.Run.{
  Output, written, saved, Run, Tick, location_tick, heartbeat_tick, Report, sent, advanced, write,
  exchange, acknowledged, main_loop, after_auth, after_reply, after_registration, run_device,
  auth_acked,
}

-- The states that are saved have the numbers behind `n`, one after the other.
unfoldable pub Consecutive : ℕ → List Output → Type 0
Consecutive n [] = Unit {0}
Consecutive n (written b ∷ os) = Consecutive n os
Consecutive n (saved i ∷ os) = (i ≡ suc n) × Consecutive (suc n) os

pub prefix-Consecutive :
    (n : ℕ) (os rest : List Output) → Consecutive n (os ++ rest) → Consecutive n os
unfolding Consecutive
prefix-Consecutive n [] rest h = tt
prefix-Consecutive n (written b ∷ os) rest h = prefix-Consecutive n os rest h
prefix-Consecutive n (saved i ∷ os) rest h = (h.0, prefix-Consecutive (suc n) os rest h.1)

module _ (e : ReadError) (writes : ℕ → Bool) (imei model : Bytes) (reports : ℕ → Report) where
  write-Consecutive :
      (n k id : ℕ) (body : Bytes) (go_on : Run)
      → Consecutive n go_on.0
      → Consecutive n (write e writes imei model reports k id body go_on).0
  unfolding write sent Consecutive
  write-Consecutive n k id body go_on h = elim (Bool-cases (writes k)) [
    | inl p ↦ rw p h
    | inr p ↦ rw p tt
  ]

  acknowledged-Consecutive :
      (n : ℕ) (go_on : Bytes → Run) (r : Option AckError × Bytes)
      → ((rest : Bytes) → Consecutive n (go_on rest).0)
      → Consecutive n (acknowledged go_on r).0
  unfolding acknowledged Consecutive
  acknowledged-Consecutive n go_on (some x, rest) h = tt
  acknowledged-Consecutive n go_on (none, rest) h = h rest

  main_loop-Consecutive :
      (ts : List Tick) (k n : ℕ) (stream : Bytes)
      → Consecutive n (main_loop e writes imei model reports ts k n stream).0
  unfolding main_loop exchange Consecutive advanced
  main_loop-Consecutive [] k n stream = tt
  main_loop-Consecutive (location_tick ∷ ts) k n stream =
      write-Consecutive n k _ _ _ (
        acknowledged-Consecutive n _ _
          λ rest. (refl, main_loop-Consecutive ts (suc k) (suc n) rest))
  main_loop-Consecutive (heartbeat_tick ∷ ts) k n stream =
      write-Consecutive n k _ _ _
        (acknowledged-Consecutive n _ _ λ rest. main_loop-Consecutive ts (suc k) n rest)

  after_auth-Consecutive :
      (ts : List Tick) (r : Result (Frame × Bytes))
      → Consecutive 0 (after_auth e writes imei model reports ts r).0
  unfolding after_auth Consecutive
  after_auth-Consecutive ts (err x) = tt
  after_auth-Consecutive ts (ok (f, rest)) = elim (Bool-cases (auth_acked f)) [
    | inl p ↦ rw p (main_loop-Consecutive (location_tick ∷ ts) 3 0 rest)
    | inr p ↦ rw p tt
  ]

  after_reply-Consecutive :
      (ts : List Tick) (rest : Bytes) (r : RegReply)
      → Consecutive 0 (after_reply e writes imei model reports ts rest r).0
  unfolding after_reply Consecutive
  after_reply-Consecutive ts rest (unexpected id) = tt
  after_reply-Consecutive ts rest (rejected result) = tt
  after_reply-Consecutive ts rest (token t) =
      write-Consecutive 0 2 _ _ _ (after_auth-Consecutive ts _)

  after_registration-Consecutive :
      (ts : List Tick) (r : Result (Frame × Bytes))
      → Consecutive 0 (after_registration e writes imei model reports ts r).0
  unfolding after_registration Consecutive
  after_registration-Consecutive ts (err x) = tt
  after_registration-Consecutive ts (ok (f, rest)) = after_reply-Consecutive ts rest _

  pub run_device-Consecutive :
      (ts : List Tick) (stream : Bytes)
      → Consecutive 0 (run_device e writes imei model reports ts stream).0
  unfolding run_device
  run_device-Consecutive ts stream =
      write-Consecutive 0 1 _ _ _ (after_registration-Consecutive ts _)
