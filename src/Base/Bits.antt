-- ===== src/Base/Bits.antt =====
-- Facts about Go's `&`, `|` and `^` at variables: laws from the digit recursion, and tables of bytes.
use Prim.Native.Nat.{ℕ, zero, suc, ◌+◌, ◌*◌, ◌/◌, ◌%◌, ◌^◌, ◌≤◌, ◌<◌, min, differ}
use Prim.Native.Nat.{bit_and, bit_or, bit_xor, bitwise, digits}
use Prim.Native.Nat.{bit_and-bitwise, bit_xor-bitwise}
use mathlib.Core.Path.{◌≡◌, refl, ap}
use mathlib.Core.Bool.{Bool, true, ◌&&◌}
use native.Mathlib.Omega.{arith}
use native.Mathlib.Nat.{le_refl, pow-suc}
use server_jt.Base.Tests.{◌==◌, ==_iff}

-- The digit recursion with as many rounds as its first number or more, and its lowest digit.
module _ (stop : ℕ → ℕ) (pair : ℕ → ℕ → ℕ) where
  enough_rounds : (x y k l : ℕ) → x ≤ l → x ≤ k → digits stop pair l x y ≡ digits stop pair k x y
  enough_rounds (suc x) y zero l hl hk = absurd (omega arith)
  enough_rounds (suc x) y (suc k) zero hl hk = absurd (omega arith)
  enough_rounds (suc x) y (suc k) (suc l) hl hk =
      rw (enough_rounds (suc x / 2) (y / 2) k l (omega arith) (omega arith))
  enough_rounds zero y zero zero hl hk = refl
  enough_rounds zero y zero (suc l) hl hk = refl
  enough_rounds zero y (suc k) zero hl hk = refl
  enough_rounds zero y (suc k) (suc l) hl hk = refl

  lowest_digit :
      (x y : ℕ)
      → bitwise stop pair (suc x) y
        ≡ pair (suc x % 2) (y % 2) + 2 * bitwise stop pair (suc x / 2) (y / 2)
  lowest_digit x y =
      let half = suc x / 2 in
      omega (arith, enough_rounds half (y / 2) half x (omega arith) (le_refl half))

pub bit_and_step : (x y : ℕ) → bit_and x y ≡ min (x % 2) (y % 2) + 2 * bit_and (x / 2) (y / 2)
bit_and_step (suc x) y = simp bit_and-bitwise (lowest_digit (λ _. 0) min x y)
bit_and_step zero y = simp bit_and-bitwise (omega arith)

differ_bits : (p q : ℕ) → p < 2 → q < 2 → differ p q ≡ (p + q) % 2
differ_bits zero zero hp hq = refl
differ_bits zero (suc zero) hp hq = refl
differ_bits zero (suc (suc q)) hp hq = absurd (omega arith)
differ_bits (suc zero) zero hp hq = refl
differ_bits (suc zero) (suc zero) hp hq = refl
differ_bits (suc zero) (suc (suc q)) hp hq = absurd (omega arith)
differ_bits (suc (suc p)) q hp hq = absurd (omega arith)

pub bit_xor_step : (a b : ℕ) → bit_xor a b ≡ bit_xor (a / 2) (b / 2) * 2 + (a % 2 + b % 2) % 2
bit_xor_step zero b = simp bit_xor-bitwise (omega arith)
bit_xor_step (suc a) b = simp bit_xor-bitwise (
    omega (
      arith,
      lowest_digit (λ y. y) differ a b,
      differ_bits (suc a % 2) (b % 2) (omega arith) (omega arith),
    ))

-- Over `k` bits: the bound, and cancellation on the left.
pub bit_xor-lt : (k a b : ℕ) → a < 2 ^ k → b < 2 ^ k → bit_xor a b < 2 ^ k
bit_xor-lt zero zero b ha hb = simp bit_xor-bitwise hb
bit_xor-lt zero (suc a) b ha hb = absurd (omega arith)
bit_xor-lt (suc k) a b ha hb = omega (
  arith,
  pow-suc 2 k,
  bit_xor_step a b,
  bit_xor-lt k (a / 2) (b / 2) (omega (arith, pow-suc 2 k)) (omega (arith, pow-suc 2 k)),
)

xor_cancel_fuel : (n c a b : ℕ) → a ≤ n → b ≤ n → bit_xor c a ≡ bit_xor c b → a ≡ b
xor_cancel_fuel zero c a b ha hb e = omega arith
xor_cancel_fuel (suc n) c a b ha hb e = omega (
  arith,
  bit_xor_step c a,
  bit_xor_step c b,
  xor_cancel_fuel n (c / 2) (a / 2) (b / 2) (omega arith) (omega arith)
      (omega (arith, bit_xor_step c a, bit_xor_step c b)),
)

pub bit_xor-cancel_left : (c a b : ℕ) → bit_xor c a ≡ bit_xor c b → a ≡ b
bit_xor-cancel_left c a b e = xor_cancel_fuel (a + b) c a b (omega arith) (omega arith) e

xor_comm_fuel : (n a b : ℕ) → a ≤ n → b ≤ n → bit_xor a b ≡ bit_xor b a
xor_comm_fuel zero a b ha hb = grind arith
xor_comm_fuel (suc n) a b ha hb = omega (
  arith,
  bit_xor_step a b,
  bit_xor_step b a,
  xor_comm_fuel n (a / 2) (b / 2) (omega arith) (omega arith),
)

pub bit_xor_comm : (a b : ℕ) → bit_xor a b ≡ bit_xor b a
bit_xor_comm a b = xor_comm_fuel (a + b) a b (omega arith) (omega arith)

pub bit_xor-cancel_right : (c a b : ℕ) → bit_xor a c ≡ bit_xor b c → a ≡ b
bit_xor-cancel_right c a b e =
    bit_xor-cancel_left c a b (omega (arith, bit_xor_comm c a, bit_xor_comm c b))

pub bit_and-le : (n a b : ℕ) → a ≤ n → bit_and a b ≤ b
bit_and-le zero a b h = grind (arith, bit_and-bitwise 0 b)
bit_and-le (suc n) a b h =
    omega (arith, bit_and_step a b, bit_and-le n (a / 2) (b / 2) (omega arith))

-- Over a small range, check every value by evaluation.
unfoldable pub all_below : ℕ → (ℕ → Bool) → Bool
all_below zero p = true
all_below (suc n) p = p n && all_below n p

pub all_below_sound : (n : ℕ) (p : ℕ → Bool) (i : ℕ) → all_below n p ≡ true → i < n → p i ≡ true
unfolding all_below
all_below_sound zero p i h lt = absurd (omega arith)
all_below_sound (suc n) p i h lt = ground (arith, all_below_sound n p i)

pub eq_below : (f g : ℕ → ℕ) (n i : ℕ) → all_below n (λ j. f j == g j) ≡ true → i < n → f i ≡ g i
eq_below f g n i h lt = (==_iff (f i) (g i)).0 (all_below_sound n (λ j. f j == g j) i h lt)

pub low_nibble : (b : ℕ) → b < 256 → bit_and b 0x0f ≡ b % 16
unfolding all_below
low_nibble b h = eq_below (λ v. bit_and v 0x0f) (λ v. v % 16) 256 b refl h

pub high_nibble : (b : ℕ) → b < 256 → bit_and b 0xf0 ≡ b / 16 * 16
unfolding all_below
high_nibble b h = eq_below (λ v. bit_and v 0xf0) (λ v. v / 16 * 16) 256 b refl h

pub fill_low : (n : ℕ) → n < 16 → bit_or (n * 16) 0x0f ≡ n * 16 + 15
unfolding all_below
fill_low n h = eq_below (λ v. bit_or (v * 16) 0x0f) (λ v. v * 16 + 15) 16 n refl h

join_table : all_below 256 (λ v. bit_or (v / 16 * 16) (v % 16) == v) ≡ true
unfolding all_below
join_table = refl

pub join_nibbles : (a b : ℕ) → a < 16 → b < 16 → bit_or (a * 16) b ≡ a * 16 + b
join_nibbles a b ha hb = omega (
  arith,
  (==_iff _ _).0 (
      all_below_sound 256 (λ v. bit_or (v / 16 * 16) (v % 16) == v) (a * 16 + b) join_table
        (omega arith)),
  ap (λ (t : ℕ). bit_or (t * 16) b) (quot a b hb),
  ap (λ (t : ℕ). bit_or ((a * 16 + b) / 16 * 16) t) (rem a b hb),
)
  where
    quot : (a b : ℕ) → b < 16 → (a * 16 + b) / 16 ≡ a
    quot a b h = omega arith

    rem : (a b : ℕ) → b < 16 → (a * 16 + b) % 16 ≡ b
    rem a b h = omega arith

-- A mask of ones takes one binary digit at a time.
bit_and_odd : (a m : ℕ) → bit_and a (m * 2 + 1) ≡ bit_and (a / 2) m * 2 + a % 2
bit_and_odd a m =
    omega (arith, bit_and_step a (m * 2 + 1), ap (λ (t : ℕ). bit_and (a / 2) t) (half m))
  where
    half : (m : ℕ) → (m * 2 + 1) / 2 ≡ m
    half m = omega arith

bit_and-zero : (a : ℕ) → bit_and a 0 ≡ 0
bit_and-zero a = omega (arith, bit_and-le a a 0 (le_refl a))

pub low_half : (a : ℕ) → bit_and a 0xffff ≡ a % 65536
low_half a = omega (
  arith,
  bit_and_odd a 0x7fff,
  bit_and_odd (a / 2) 0x3fff,
  bit_and_odd (a / 2 / 2) 0x1fff,
  bit_and_odd (a / 2 / 2 / 2) 0xfff,
  bit_and_odd (a / 2 / 2 / 2 / 2) 0x7ff,
  bit_and_odd (a / 2 / 2 / 2 / 2 / 2) 0x3ff,
  bit_and_odd (a / 2 / 2 / 2 / 2 / 2 / 2) 0x1ff,
  bit_and_odd (a / 2 / 2 / 2 / 2 / 2 / 2 / 2) 0xff,
  bit_and_odd (a / 2 / 2 / 2 / 2 / 2 / 2 / 2 / 2) 0x7f,
  bit_and_odd (a / 2 / 2 / 2 / 2 / 2 / 2 / 2 / 2 / 2) 0x3f,
  bit_and_odd (a / 2 / 2 / 2 / 2 / 2 / 2 / 2 / 2 / 2 / 2) 0x1f,
  bit_and_odd (a / 2 / 2 / 2 / 2 / 2 / 2 / 2 / 2 / 2 / 2 / 2) 0xf,
  bit_and_odd (a / 2 / 2 / 2 / 2 / 2 / 2 / 2 / 2 / 2 / 2 / 2 / 2) 0x7,
  bit_and_odd (a / 2 / 2 / 2 / 2 / 2 / 2 / 2 / 2 / 2 / 2 / 2 / 2 / 2) 0x3,
  bit_and_odd (a / 2 / 2 / 2 / 2 / 2 / 2 / 2 / 2 / 2 / 2 / 2 / 2 / 2 / 2) 0x1,
  bit_and_odd (a / 2 / 2 / 2 / 2 / 2 / 2 / 2 / 2 / 2 / 2 / 2 / 2 / 2 / 2 / 2) 0x0,
  bit_and-zero (a / 2 / 2 / 2 / 2 / 2 / 2 / 2 / 2 / 2 / 2 / 2 / 2 / 2 / 2 / 2 / 2),
)
