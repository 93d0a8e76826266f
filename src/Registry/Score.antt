-- ===== src/Registry/Score.antt =====
-- server/internal/session/registry.go: the conversion `float64(n)` of an `int64` that is a time in
-- nanoseconds. It is the nearest number with 53 bits, the even one of two that are as near.
use server_jt.Base.{
  ℕ, zero, suc, ◌*◌, ◌/◌, ◌%◌, ◌-◌, ◌≤◌, ◌<◌, ◌≡◌, ap, Bool, true, false, ltb, ◌==◌, not,
  if◌then◌else◌, arith, inl, inr, Bool-cases,
}
use server_jt.Base.Int.{ℤ, pos, negsuc}
use native.Mathlib.Nat.{
  mul-le-mul_left, mul_comm, le_trans, eq-or-lt_of_le, div-mul-le_self, div-add-mod,
  le-div_iff_mul-le, div-lt_iff_lt-mul,
}

-- The distance of the numbers with 53 bits around `n`; an `int64` needs no more than 11 doublings.
unfoldable pub spacing : ℕ → ℕ → ℕ → ℕ
spacing zero u n = u
spacing (suc k) u n =
    let wider = spacing k (2 * u) n in if ltb n (u * 9007199254740992) then u else wider

-- Whether `r` behind the multiple `q` of `u` is nearer to the next multiple.
unfoldable pub rounds_up : ℕ → ℕ → ℕ → Bool
rounds_up u q r = if ltb (2 * r) u then false else if ltb u (2 * r) then true else not (q % 2 == 0)

unfoldable pub nearest : ℕ → ℕ → ℕ
nearest u n = let q = n / u in if rounds_up u q (n % u) then u * suc q else u * q

unfoldable pub to_float64 : ℕ → ℕ
to_float64 n = nearest (spacing 11 1 n) n

-- The same for a number that may be negative.
unfoldable pub to_score : ℤ → ℤ
to_score (pos n) = pos (to_float64 n)
to_score (negsuc n) = negsuc (to_float64 (suc n) - 1)

module _ (u : ℕ) where
  multiple_le : (a b : ℕ) → a ≤ b → u * a ≤ u * b
  multiple_le a b h = mul-le-mul_left u h

  -- The multiples around a number bound what it is rounded to.
  nearest_low : (n : ℕ) → u * (n / u) ≤ nearest u n
  unfolding nearest
  nearest_low n = ground (arith, multiple_le (n / u) (suc (n / u)) (omega arith))

  nearest_high : (n : ℕ) → nearest u n ≤ u * suc (n / u)
  unfolding nearest
  nearest_high n = ground (arith, multiple_le (n / u) (suc (n / u)) (omega arith))

  multiple_below : (c n : ℕ) → 0 < u → u * c ≤ n → u * c ≤ nearest u n
  multiple_below c n hu h =
      le_trans (multiple_le c (n / u) ((le-div_iff_mul-le hu).1 (omega (arith, h, mul_comm c u))))
        (nearest_low n)

  multiple_above : (c n : ℕ) → 0 < u → n < u * c → nearest u n ≤ u * c
  multiple_above c n hu h =
      le_trans (nearest_high n)
        (multiple_le (suc (n / u)) c ((div-lt_iff_lt-mul hu).1 (omega (arith, h, mul_comm c u))))

  rounds_up_mono : (q r s : ℕ) → r ≤ s → rounds_up u q r ≡ true → rounds_up u q s ≡ true
  unfolding rounds_up
  rounds_up_mono q r s h up = ground (arith, up)

  same_multiple :
      (q r s : ℕ)
      → r ≤ s
      → (if rounds_up u q r then u * suc q else u * q)
        ≤ (if rounds_up u q s then u * suc q else u * q)
  same_multiple q r s h =
      ground (arith, rounds_up_mono q r s h, multiple_le q (suc q) (omega arith))

  same_quotient : (m n : ℕ) → m ≤ n → m / u ≡ n / u → nearest u m ≤ nearest u n
  unfolding nearest
  same_quotient m n h e = rw (e) (
      same_multiple (n / u) (m % u) (n % u)
        (omega (arith, h, ap (λ q. u * q) e, div-add-mod m u, div-add-mod n u)))

  nearest_mono : (m n : ℕ) → 0 < u → m ≤ n → nearest u m ≤ nearest u n
  nearest_mono m n hu h =
      let below = (le-div_iff_mul-le hu).1 (le_trans (div-mul-le_self m u) h) in
      elim (eq-or-lt_of_le below) [
        | inl e ↦ same_quotient m n h e
        | inr l ↦
            le_trans (nearest_high m)
              (le_trans (multiple_le (suc (m / u)) (n / u) l) (nearest_low n))
      ]

-- A number with wider neighbours is not below where these begin.
wide_low :
    (k u n : ℕ)
    → 0 < u
    → u * 4503599627370496 ≤ n
    → u * 4503599627370496 ≤ nearest (spacing k u n) n
unfolding spacing
wide_low zero u n hu h = multiple_below u 4503599627370496 n hu h
wide_low (suc k) u n hu h = elim (Bool-cases (ltb n (u * 9007199254740992))) [
  | inl e ↦ rw e (multiple_below u 4503599627370496 n hu h)
  | inr e ↦
      let there : 2 * u * 4503599627370496 ≤ n = ground (arith, e) in
      rw e (le_trans (omega arith) (wide_low k (2 * u) n (omega arith) there))
]

spaced_mono : (k u m n : ℕ) → 0 < u → m ≤ n → nearest (spacing k u m) m ≤ nearest (spacing k u n) n
unfolding spacing
spaced_mono zero u m n hu h = nearest_mono u m n hu h
spaced_mono (suc k) u m n hu h = elim (Bool-cases (ltb n (u * 9007199254740992))) [
  | inl e ↦
      let small : ltb m (u * 9007199254740992) ≡ true = ground (arith, e) in
      rw (e, small) (nearest_mono u m n hu h)
  | inr e ↦ elim (Bool-cases (ltb m (u * 9007199254740992))) [
    | inl d ↦
        let there : 2 * u * 4503599627370496 ≤ n = ground (arith, e) in
        let here : m < u * 9007199254740992 = ground (arith, d) in
        rw (e, d)
          (le_trans (multiple_above u 9007199254740992 m hu here)
            (le_trans (omega arith) (wide_low k (2 * u) n (omega arith) there)))
    | inr d ↦ rw (e, d) (spaced_mono k (2 * u) m n (omega arith) h)
  ]
]

-- The conversion keeps the order.
pub to_float64_mono : (m n : ℕ) → m ≤ n → to_float64 m ≤ to_float64 n
unfolding to_float64
to_float64_mono m n h = spaced_mono 11 1 m n (omega arith) h
