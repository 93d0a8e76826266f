-- ===== src/Device/State.antt =====
-- device/p901/main.go: the directory of the state file, and the altitude that `advanceState` draws,
-- whose random number is an argument. The other fields of the state are floating point.
use server_jt.Base.{
  ℕ, ◌+◌, ◌-◌, ◌≤◌, ◌<◌, ◌≡◌, ◌≢◌, refl, ap, Option, none, some, [], ◌∷◌, ◌++◌, arith, All, ◌==◌,
  if◌then◌else◌, ==_ne,
}
use Prim.Native.Nat.{min, max}
use server_jt.Base.Int.{ℤ, pos, sub_ℕ}
use server_jt.Base.Text.{ascii}
use server_jt.Protocol.Types.{Bytes}
use server_jt.Device.{clamp}

first_or : ℕ → Option Bytes → Option Bytes
first_or b (some front) = some (b ∷ front)
first_or b none = if b == b'/' then some [] else none

-- What stands before the last slash of a text, if it has one.
before_slash : Bytes → Option Bytes
unfolding first_or
before_slash [] = none
before_slash (b ∷ bs) = first_or b (before_slash bs)

unfoldable pub state_dir : Bytes → Bytes
unfolding before_slash
state_dir path = elim (before_slash path) [ none ↦ ascii "." | some front ↦ front ]

-- `clamp(int(s.Altitude)+rand.Intn(5)-2, 180, 300)`, converted to a `uint16`.
unfoldable pub next_altitude : ℕ → ℕ → ℤ
next_altitude altitude random = clamp (sub_ℕ (altitude + random) 2) 180 300

-- The altitude stays between 180 and 300 metres, and within two metres of one that lies there.
pub next_altitude-range :
    (altitude random : ℕ)
    → random < 5
    → (n : ℕ) × (next_altitude altitude random ≡ pos n)
      × (180 ≤ n)
      × (n ≤ 300)
      × (180 ≤ altitude → altitude ≤ 300 → (n ≤ altitude + 2) × (altitude ≤ n + 2))
unfolding next_altitude clamp
next_altitude-range altitude random h = (
  max 180 (min 300 (altitude + random - 2)),
  ground arith,
  omega arith,
  omega arith,
  λ lo hi. (omega arith, omega arith),
)

no_slash : (file : Bytes) → All (λ b. b ≢ b'/') file → before_slash file ≡ none
unfolding before_slash first_or
no_slash [] h = refl
no_slash (b ∷ file) h = rw (no_slash file h.1, ==_ne b b'/' h.0) refl

last_slash :
    (dir file : Bytes) → All (λ b. b ≢ b'/') file → before_slash (dir ++ b'/' ∷ file) ≡ some dir
unfolding before_slash first_or
last_slash [] file h = rw (no_slash file h) refl
last_slash (b ∷ dir) file h = ap (first_or b) (last_slash dir file h)

-- The directory of a path is what stands before its last slash, and `.` for a path without one.
pub state_dir_lem :
    (dir file : Bytes)
    → All (λ b. b ≢ b'/') file
    → (state_dir (dir ++ b'/' ∷ file) ≡ dir) × (state_dir file ≡ ascii ".")
unfolding state_dir
state_dir_lem dir file h =
    (rw (last_slash dir file h, state_dir) refl, rw (no_slash file h, state_dir) refl)
