-- ===== src/Double/Accuracy.antt =====
-- How near the hundredths of a rounded quotient are to those of the exact one.
use native.Mathlib.Nat.{
  pow-suc, mul-le-mul_right, mul_assoc, div-add-mod', mod-lt, le_of_mul-le-mul_right,
  pow-le-pow_right,
}
use low_latency_matching_eng.Prelude.{
  ℕ, zero, suc, ◌+◌, ◌*◌, ◌/◌, ◌^◌, ◌≤◌, ◌<◌, lt→ltb, ◌≡◌, ap, ◌∙◌, arith,
}
use low_latency_matching_eng.Double.{scale, round_even, quotient, hundredths, to_double}
use low_latency_matching_eng.Double.Bits.{excess-small}
use low_latency_matching_eng.Double.Round.{round_even-near, pow_pos}

pub scale-bits : (j fuel n b : ℕ) → j ≤ fuel → 2 ^ j * n < b → j ≤ scale fuel n b
unfolding scale
scale-bits zero fuel n b h k = omega arith
scale-bits (suc j) zero n b h k = absurd (omega arith)
scale-bits (suc j) (suc fuel) n b h k =
    let doubled = pow-double j n in
    rw
      (lt→ltb (2 * n) b
        (omega (arith, doubled, k, mul-le-mul_right {m = 1} {n = 2 ^ j} (2 * n) (pow_pos j))))
      (omega (arith, scale-bits j fuel (2 * n) b (omega (arith, h)) (omega (arith, doubled, k))))
  where
    pow-double : (j n : ℕ) → 2 ^ suc j * n ≡ 2 ^ j * (2 * n)
    pow-double j n = simp (pow-suc) (omega (arith, mul_assoc (2 ^ j) 2 n))

round_even-one : (n : ℕ) → round_even n (2 ^ 0) * 2 ^ 0 ≡ n
unfolding round_even
round_even-one n = ground arith

-- A whole number below 2^53 is a double.
pub to_double-exact : (n : ℕ) → n < 2 ^ 53 → to_double n ≡ n
unfolding to_double
to_double-exact n h = ap (λ s. round_even n (2 ^ s) * 2 ^ s) (excess-small n n h) ∙ round_even-one n

-- With seven fraction bits left, the hundredths are at most one away from the exact ones.
within_one :
    (n d pw m h : ℕ)
    → 128 ≤ pw
    → (2 * (m * d) ≤ 2 * (n * pw) + d) × (2 * (n * pw) ≤ 2 * (m * d) + d)
    → (h * (2 * pw) ≤ 200 * m + pw) × (200 * m + pw < (h + 1) * (2 * pw))
    → (h * d ≤ 100 * n + d) × (100 * n ≤ h * d + d)
within_one n d pw m h p near (low, high) = (
  le_of_mul-le-mul_right {m = h * d} {n = 100 * n + d} {k = 2 * pw}
      (omega (arith, mul-le-mul_right d low, mul-le-mul_right d p, near.0)) (omega arith),
  le_of_mul-le-mul_right {m = 100 * n} {n = h * d + d} {k = 2 * pw}
      (omega (arith, mul-le-mul_right d (lt→le high), mul-le-mul_right d p, near.1)) (omega arith),
)
  where
    lt→le : {a b : ℕ} → a < b → a ≤ b
    lt→le k = omega arith

-- The hundredths of a quotient below 2^46, printed after its rounding, are at most one away from those
-- of the exact quotient.
pub hundredths-quotient :
    (n d : ℕ)
    → 0 < d
    → n < d * 2 ^ 46
    → (hundredths (quotient n d) * d ≤ 100 * n + d) × (100 * n ≤ hundredths (quotient n d) * d + d)
unfolding quotient hundredths
hundredths-quotient n d h small =
    let k = scale 1074 n (d * 2 ^ 53) in
    let bits : 7 ≤ k = scale-bits 7 1074 n (d * 2 ^ 53) (omega arith) (omega (arith, small)) in
    let m = round_even (n * 2 ^ k) d in
    let big : 2 ^ 7 ≤ 2 ^ k = pow-le-pow_right (omega arith) bits in
    let whole_part = div-add-mod' (200 * m + 2 ^ k) (2 * 2 ^ k) in
    let rest = mod-lt (200 * m + 2 ^ k) {m = 2 * 2 ^ k} (omega (arith, pow_pos k)) in
    within_one n d (2 ^ k) m ((200 * m + 2 ^ k) / (2 * 2 ^ k)) (omega (arith, big))
      (round_even-near (n * 2 ^ k) d h) (omega (arith, whole_part), omega (arith, whole_part, rest))
