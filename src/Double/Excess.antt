-- ===== src/Double/Excess.antt =====
-- Rounding a whole number to 53 bits, and the fraction bits of a quotient.
use native.Mathlib.Nat.{pow-suc, pow-le-pow_right}
use low_latency_matching_eng.Prelude.{
  ℕ, zero, suc, ◌+◌, ◌*◌, ◌/◌, ◌^◌, ◌≤◌, ◌<◌, lt→ltb, le→not_ltb, dec_lt, arith,
}
use low_latency_matching_eng.Double.{excess, to_double, scale, quotient}
use low_latency_matching_eng.Double.Round.{round_even-near, pow_pos}

excess-le : (fuel j n : ℕ) → n < 2 ^ 53 * 2 ^ j → excess fuel n ≤ j
unfolding excess
excess-le zero j n h = omega arith
excess-le (suc fuel) zero n h = rw (lt→ltb n (2 ^ 53) (omega arith)) (omega arith)
excess-le (suc fuel) (suc j) n h = elim (dec_lt n (2 ^ 53)) [
  | yes p ↦ rw (lt→ltb n (2 ^ 53) p) (omega arith)
  | no p ↦
      rw (le→not_ltb n (2 ^ 53) (omega arith))
        (omega (arith, excess-le fuel j (n / 2) (omega (arith, h, pow-suc 2 j))))
]

-- A whole number below 2^61 is rounded by at most 128.
pub to_double-near : (n : ℕ) → n < 2 ^ 61 → (to_double n ≤ n + 128) × (n ≤ to_double n + 128)
unfolding to_double
to_double-near n h =
    let s = excess n n in
    let small : 2 ^ s ≤ 2 ^ 8 = pow-le-pow_right (omega arith) (excess-le n 8 n (omega arith)) in
    let near = round_even-near n (2 ^ s) (pow_pos s) in
    (omega (arith, near.0, small), omega (arith, near.1, small))

-- Two fraction bits are left of a quotient below 2^51.
two_bits : (fuel n b : ℕ) → 4 * n < b → 1 < scale (suc (suc fuel)) n b
unfolding scale
two_bits fuel n b h =
    rw (lt→ltb (2 * n) b (omega arith), lt→ltb (2 * (2 * n)) b (omega arith)) (omega arith)

pub quotient-bits : (n d : ℕ) → n < d * 2 ^ 51 → 1 < (quotient n d).k
unfolding quotient
quotient-bits n d h = two_bits 1072 n (d * 2 ^ 53) (omega arith)
