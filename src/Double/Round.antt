-- ===== src/Double/Round.antt =====
-- Rounding to a whole number, and the quotients that are rounded.
use native.Mathlib.Nat.{
  div-add-mod', mod-lt, add-mul, mul-le-mul_right, mul_comm, le-div_iff_mul-le, div-lt_iff_lt-mul,
  lt_of_mul-lt-mul_right, le_of_mul-le-mul_right, pow-suc, one-le-pow,
}
use low_latency_matching_eng.Prelude.{
  ℕ, zero, suc, ◌+◌, ◌*◌, ◌/◌, ◌%◌, ◌^◌, ◌==◌, ◌≤◌, ◌<◌, ltb, ◌≡◌, dec_le, if◌then◌else◌, arith,
}
use low_latency_matching_eng.Double.{round_even, scale, quotient, floor}

abbrev choose : ℕ → ℕ → ℕ → ℕ
choose n r q =
    if ltb (2 * r) q then n else if ltb q (2 * r) then n + 1 else if n % 2 == 0 then n else n + 1

choose-near :
    (n r p q : ℕ)
    → n * q + r ≡ p
    → r < q
    → (2 * (choose n r q * q) ≤ 2 * p + q) × (2 * p ≤ 2 * (choose n r q * q) + q)
choose-near n r p q e h = ground (arith, add-mul n 1 q)

-- The rounded number times the divisor is at most half a divisor away from the dividend.
pub round_even-near :
    (p q : ℕ)
    → 0 < q
    → (2 * (round_even p q * q) ≤ 2 * p + q) × (2 * p ≤ 2 * (round_even p q * q) + q)
unfolding round_even
round_even-near p q h = choose-near (p / q) (p % q) p q (div-add-mod' p q) (mod-lt p h)

-- A quotient of at most `n` is not rounded above it, and one of at least `n` not below.
pub round_even-le : (p q n : ℕ) → 0 < q → p ≤ n * q → round_even p q ≤ n
round_even-le p q n h le = elim (dec_le (round_even p q) n) [
  | yes g ↦ g
  | no g ↦ absurd (
      omega (
        arith,
        round_even-near p q h,
        mul-le-mul_right {m = n + 1} {n = round_even p q} q (omega arith),
        add-mul n 1 q,
      ))
]

pub le-round_even : (p q n : ℕ) → 0 < q → n * q ≤ p → n ≤ round_even p q
le-round_even p q n h le = elim (dec_le n (round_even p q)) [
  | yes g ↦ g
  | no g ↦ absurd (
      omega (
        arith,
        round_even-near p q h,
        mul-le-mul_right {m = round_even p q + 1} {n = n} q (omega arith),
        add-mul (round_even p q) 1 q,
      ))
]

pub pow_pos : (k : ℕ) → 0 < 2 ^ k
pow_pos k = one-le-pow k 2 (omega arith)

-- The quotient of a number by a greater one is at most one.
pub quotient-le_one : (n d : ℕ) → 0 < d → n ≤ d → (quotient n d).m ≤ 2 ^ (quotient n d).k
unfolding quotient
quotient-le_one n d h le = round_even-le _ d _ h (
    omega (
      arith,
      mul-le-mul_right (2 ^ scale 1074 n (d * 2 ^ 53)) le,
      mul_comm (2 ^ scale 1074 n (d * 2 ^ 53)) d,
    ))

-- A number divided by itself is one.
pub quotient_self : (n : ℕ) → 0 < n → (quotient n n).m ≡ 2 ^ (quotient n n).k
unfolding quotient
quotient_self n h =
    let pw = 2 ^ scale 1074 n (n * 2 ^ 53) in
    omega (
      arith,
      round_even-le (n * pw) n pw h (omega (arith, mul_comm n pw)),
      le-round_even (n * pw) n pw h (omega (arith, mul_comm n pw)),
    )

-- What lies at least a quarter away from two neighbouring whole numbers stays between them, if it is
-- rounded to a quarter or finer.
between :
    (n d w pw r : ℕ)
    → 0 < d
    → 4 ≤ pw
    → 4 * (w * d) + d ≤ 4 * n
    → 4 * n + d ≤ 4 * (w * d) + 4 * d
    → (2 * (r * d) ≤ 2 * (n * pw) + d) × (2 * (n * pw) ≤ 2 * (r * d) + d)
    → (w * pw ≤ r) × (r < (w + 1) * pw)
between n d w pw r h four low high near = (
  le_of_mul-le-mul_right {m = w * pw} {n = r} {k = d}
      (omega (arith, mul-le-mul_right pw low, mul-le-mul_right {m = 4} {n = pw} d four, near.1)) h,
  lt_of_mul-lt-mul_right d {m = r} {n = (w + 1) * pw} (
      omega (arith, mul-le-mul_right pw high, mul-le-mul_right {m = 4} {n = pw} d four, near.0, h)),
)

div_between : (r pw w : ℕ) → 0 < pw → w * pw ≤ r → r < (w + 1) * pw → r / pw ≡ w
div_between r pw w h a b = omega (
  arith,
  (le-div_iff_mul-le {k = pw} {x = w} {y = r} h).1 a,
  (div-lt_iff_lt-mul {k = pw} {x = r} {y = w + 1} h).1 b,
)

four_le_pow : (k : ℕ) → 1 < k → 4 ≤ 2 ^ k
four_le_pow zero h = absurd (omega arith)
four_le_pow (suc zero) h = absurd (omega arith)
four_le_pow (suc (suc k)) h = simp (pow-suc) (omega (arith, pow_pos k))

-- The floor of a rounded quotient is the whole part of the exact one, where that is at least a quarter
-- away from both whole numbers around it, and where at least two fraction bits are left.
pub floor-quotient :
    (n d w : ℕ)
    → 0 < d
    → 1 < (quotient n d).k
    → 4 * (w * d) + d ≤ 4 * n
    → 4 * n + d ≤ 4 * (w * d) + 4 * d
    → floor (quotient n d) ≡ w
unfolding quotient floor
floor-quotient n d w h bits low high =
    let k = scale 1074 n (d * 2 ^ 53) in
    let (a, b) =
      between n d w (2 ^ k) (round_even (n * 2 ^ k) d) h (four_le_pow k bits) low high
        (round_even-near (n * 2 ^ k) d h) in
    div_between (round_even (n * 2 ^ k) d) (2 ^ k) w (pow_pos k) a b
