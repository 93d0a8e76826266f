-- ===== src/Configuration/Numbers.antt =====
-- The numbers and switches of the environment.
use server_jt.Base.{
  length, length-append, ℕ, zero, suc, ◌+◌, ◌-◌, ◌*◌, ◌/◌, ◌%◌, ◌^◌, ◌≤◌, ◌<◌, ◌≡◌, refl, ap, ◌∙◌,
  Bool, true, false, Option, none, some, [], ◌∷◌, ◌++◌, arith, ltb, if◌then◌else◌, inl, inr,
  Bool-cases,
}
use native.Mathlib.Nat.{pow-suc}
use server_jt.Base.Int.{ℤ, pos, negsuc}
use server_jt.Base.Numbers.{parse_digits, parse_uint, parse_int, positive, negative}
use server_jt.Base.Text.{same, decimal}
use server_jt.Protocol.Types.{Bytes}
use server_jt.Configuration.{env_int}

abbrev pub IsInt64 : ℤ → Type 0
IsInt64 (pos n) = n < 9223372036854775808
IsInt64 (negsuc n) = n < 9223372036854775808

-- The text of a number that has at most 19 digits.
abbrev pub print_int : ℤ → Bytes
print_int (pos n) = decimal 19 n
print_int (negsuc n) = b'-' ∷ decimal 19 (suc n)

parse_digits-append :
    (acc c : ℕ) (cs : Bytes) (n : ℕ)
    → parse_digits acc cs ≡ some n
    → 48 ≤ c
    → c < 58
    → parse_digits acc (cs ++ c ∷ []) ≡ some (n * 10 + (c - 48))
unfolding parse_digits
parse_digits-append acc c [] n h lo hi = ground arith
parse_digits-append acc c (d ∷ cs) n h lo hi =
    ground (arith, parse_digits-append (acc * 10 + (d - 48)) c cs n)

parse_digit : (n : ℕ) → n < 10 → parse_digits 0 ((48 + n) ∷ []) ≡ some n
unfolding parse_digits
parse_digit n h = ground arith

parse_digits-decimal :
    (fuel n : ℕ) → n < 10 ^ fuel → 0 < fuel → parse_digits 0 (decimal fuel n) ≡ some n
unfolding decimal
parse_digits-decimal zero n h p = absurd (omega arith)
parse_digits-decimal (suc zero) n h p = ground (arith, parse_digit n)
parse_digits-decimal (suc (suc fuel)) n h p =
    let front = decimal (suc fuel) (n / 10) in
    let ih =
      parse_digits-decimal (suc fuel) (n / 10) (omega (arith, pow-suc 10 (suc fuel)))
        (omega arith) in
    let low = parse_digits-append 0 (48 + n % 10) front (n / 10) ih (omega arith) (omega arith) in
    elim (Bool-cases (ltb n 10)) [
      | inl small ↦ rw small (parse_digit n (ground arith))
      | inr large ↦ rw large (low ∙ ap some (omega arith))
    ]

length-decimal : (fuel n : ℕ) → 0 < length (decimal (suc fuel) n)
unfolding decimal
length-decimal fuel n = ground (arith, length-append (decimal fuel (n / 10)) ((48 + n % 10) ∷ []))

-- A text of digits, alone and behind a sign.
parse_int-digits :
    (s : Bytes) (n : ℕ) → parse_digits 0 s ≡ some n → 0 < length s → parse_int s ≡ positive (some n)
unfolding parse_int parse_uint parse_digits
parse_int-digits [] n h p = absurd (omega arith)
parse_int-digits (c ∷ cs) n h p = ground arith

parse_int-minus :
    (s : Bytes) (n : ℕ)
    → parse_digits 0 s ≡ some n
    → 0 < length s
    → parse_int (b'-' ∷ s) ≡ negative (some n)
unfolding parse_int parse_uint
parse_int-minus [] n h p = absurd (omega arith)
parse_int-minus (c ∷ cs) n h p = ap negative h

digits_enough : (n : ℕ) → n ≤ 9223372036854775808 → n < 10 ^ 19
digits_enough n h = omega arith

-- `ParseInt` reads back the decimal text of every 64-bit integer.
pub parse_int-print_int : (z : ℤ) → IsInt64 z → parse_int (print_int z) ≡ some z
unfolding positive negative
parse_int-print_int (pos n) h =
    parse_int-digits (decimal 19 n) n
      (parse_digits-decimal 19 n (digits_enough n (omega arith)) (omega arith))
      (length-decimal 18 n)
    ∙ ground arith
parse_int-print_int (negsuc n) h =
    parse_int-minus (decimal 19 (suc n)) (suc n)
      (parse_digits-decimal 19 (suc n) (digits_enough (suc n) (omega arith)) (omega arith))
      (length-decimal 18 (suc n))
    ∙ ground arith

positive-IsInt64 : (o : Option ℕ) (z : ℤ) → positive o ≡ some z → IsInt64 z
unfolding positive
positive-IsInt64 none z h = absurd (cc)
positive-IsInt64 (some n) (pos m) h = ground arith
positive-IsInt64 (some n) (negsuc m) h = ground arith

negative-IsInt64 : (o : Option ℕ) (z : ℤ) → negative o ≡ some z → IsInt64 z
unfolding negative
negative-IsInt64 none z h = absurd (cc)
negative-IsInt64 (some zero) (pos m) h = ground arith
negative-IsInt64 (some zero) (negsuc m) h = ground arith
negative-IsInt64 (some (suc n)) (pos m) h = ground arith
negative-IsInt64 (some (suc n)) (negsuc m) h = ground arith

-- A number that `ParseInt` returns fits 64 bits.
parse_int-IsInt64 : (s : Bytes) (z : ℤ) → parse_int s ≡ some z → IsInt64 z
unfolding parse_int
parse_int-IsInt64 [] z h = absurd (cc)
parse_int-IsInt64 (c ∷ cs) z h = ground (
  arith,
  positive-IsInt64 (parse_uint cs) z,
  negative-IsInt64 (parse_uint cs) z,
  positive-IsInt64 (parse_uint (c ∷ cs)) z,
)

not_empty : (s : Bytes) → 0 < length s → same s [] ≡ false
unfolding same
not_empty [] h = absurd (omega arith)
not_empty (c ∷ cs) h = refl

length-print_int : (z : ℤ) → 0 < length (print_int z)
length-print_int (pos n) = length-decimal 18 n
length-print_int (negsuc n) = omega arith

-- A number that is set in the environment is used, whatever its sign and its size within 64 bits.
pub env_int-print_int :
    (env : Bytes → Bytes) (key : Bytes) (def z : ℤ)
    → IsInt64 z
    → env key ≡ print_int z
    → env_int env key def ≡ z
unfolding env_int
env_int-print_int env key def z h e =
    rw (e, not_empty (print_int z) (length-print_int z), parse_int-print_int z h) refl

fits_or_default :
    (unset : Bool) (o : Option ℤ) (def : ℤ)
    → IsInt64 def
    → ((z : ℤ) → o ≡ some z → IsInt64 z)
    → IsInt64 (if unset then def else elim o [ none ↦ def | some n ↦ n ])
fits_or_default true o def h k = h
fits_or_default false none def h k = h
fits_or_default false (some n) def h k = k n refl

-- Whatever the environment holds, a number of 64 bits is read: the value, or the default.
pub env_int-IsInt64 :
    (env : Bytes → Bytes) (key : Bytes) (def : ℤ) → IsInt64 def → IsInt64 (env_int env key def)
unfolding env_int
env_int-IsInt64 env key def h =
    fits_or_default (same (env key) []) (parse_int (env key)) def h (parse_int-IsInt64 (env key))
