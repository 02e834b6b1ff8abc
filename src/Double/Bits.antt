-- ===== src/Double/Bits.antt =====
-- How many bits a number has beyond 53.
use native.Mathlib.Nat.{pow-suc}
use low_latency_matching_eng.Prelude.{
  ℕ, zero, suc, ◌*◌, ◌/◌, ◌^◌, ◌≤◌, ◌<◌, lt→ltb, le→not_ltb, dec_lt, ◌≡◌, refl, subst, arith,
}
use low_latency_matching_eng.Double.{excess}
use low_latency_matching_eng.Double.Round.{pow_pos}

-- A step of the count.
pub excess-small : (fuel n : ℕ) → n < 2 ^ 53 → excess fuel n ≡ 0
unfolding excess
excess-small zero n h = refl
excess-small (suc fuel) n h = rw (lt→ltb n (2 ^ 53) h) refl

pub excess-large : (fuel n : ℕ) → 2 ^ 53 ≤ n → excess (suc fuel) n ≡ suc (excess fuel (n / 2))
unfolding excess
excess-large fuel n h = rw (le→not_ltb n (2 ^ 53) h) refl

pub below_pow : (n : ℕ) → n < 2 ^ n
below_pow zero = omega arith
below_pow (suc n) = omega (arith, below_pow n, pow-suc 2 n)

-- With enough fuel, the number fits in 53 bits and the excess.
pub excess-fits : (fuel n : ℕ) → n < 2 ^ fuel → n < 2 ^ 53 * 2 ^ excess fuel n
excess-fits zero n h = omega (arith, pow_pos (excess zero n))
excess-fits (suc fuel) n h = elim (dec_lt n (2 ^ 53)) [
  | yes p ↦ rw (excess-small (suc fuel) n p) (omega (arith, p))
  | no p ↦
      let half = excess-fits fuel (n / 2) (omega (arith, h, pow-suc 2 fuel)) in
      rw (excess-large fuel n (omega arith)) (omega (arith, pow-suc 2 (excess fuel (n / 2)), half))
]

-- A number with an excess has all 53 bits.
pub excess-full : (fuel n : ℕ) → 0 < excess fuel n → 2 ^ 52 * 2 ^ excess fuel n ≤ n
unfolding excess
excess-full zero n h = absurd (omega arith)
excess-full (suc fuel) n h = elim (dec_lt n (2 ^ 53)) [
  | yes p ↦ absurd (omega (arith, excess-small (suc fuel) n p, h))
  | no p ↦
      rw (excess-large fuel n (omega arith))
        (half_full fuel n (excess-full fuel (n / 2)) (omega arith))
]
  where
    half_full :
        (fuel n : ℕ)
        → (0 < excess fuel (n / 2) → 2 ^ 52 * 2 ^ excess fuel (n / 2) ≤ n / 2)
        → 2 ^ 53 ≤ n
        → 2 ^ 52 * 2 ^ suc (excess fuel (n / 2)) ≤ n
    half_full fuel n full p = elim (dec_lt 0 (excess fuel (n / 2))) [
      | yes q ↦ omega (arith, pow-suc 2 (excess fuel (n / 2)), full q)
      | no q ↦ subst (λ e. 2 ^ 52 * 2 ^ suc e ≤ n) {x = 0} (omega arith) p
    ]
