-- ===== src/Double/Percent.antt =====
-- How near a rounded percentage is to the exact one.
use native.Mathlib.Nat.{mul-le-mul_right, pow-le-pow_right}
use low_latency_matching_eng.Prelude.{ℕ, ◌+◌, ◌*◌, ◌/◌, ◌^◌, ◌≤◌, ◌<◌, ◌≡◌, arith}
use low_latency_matching_eng.Double.{Double, scale, round_even, quotient, to_double, times}
use low_latency_matching_eng.Double.Order.{to_double-le, le-to_double}
use low_latency_matching_eng.Double.Compare.{scale-below}
use low_latency_matching_eng.Double.Accuracy.{scale-bits}
use low_latency_matching_eng.Double.Round.{round_even-near, round_even-le}

-- A number below 2^60 is at most 128 away from its double.
to_double-near : (n : ℕ) → n < 2 ^ 60 → (to_double n ≤ n + 128) × (n ≤ to_double n + 128)
to_double-near n h = (
  omega (arith, to_double-le n (n / 128 + 1) 7 (omega arith) (omega arith)),
  omega (arith, le-to_double n (n / 128) 7 (omega arith) (omega arith)),
)

error_sum :
    (t m n d pw : ℕ)
    → 2 ^ 52 ≤ pw
    → (t ≤ m * 100 + 128) × (m * 100 ≤ t + 128)
    → (2 * (m * d) ≤ 2 * (n * pw) + d) × (2 * (n * pw) ≤ 2 * (m * d) + d)
    → (2 ^ 44 * (t * d) ≤ 2 ^ 44 * (100 * (n * pw)) + d * pw)
      × (2 ^ 44 * (100 * (n * pw)) ≤ 2 ^ 44 * (t * d) + d * pw)
error_sum t m n d pw big (up, down) (high, low) = (
  omega (arith, high, mul-le-mul_right d up, mul-le-mul_right d big),
  omega (arith, low, mul-le-mul_right d down, mul-le-mul_right d big),
)

-- A quotient of at most one, times a hundred, is at most 2^-44 away from the exact value.
pub percent-near :
    (n d : ℕ)
    → 0 < d
    → n ≤ d
    → (2 ^ 44 * ((times (quotient n d) 100).m * d)
        ≤ 2 ^ 44 * (100 * (n * 2 ^ (quotient n d).k)) + d * 2 ^ (quotient n d).k)
      × (2 ^ 44 * (100 * (n * 2 ^ (quotient n d).k))
          ≤ 2 ^ 44 * ((times (quotient n d) 100).m * d) + d * 2 ^ (quotient n d).k)
unfolding quotient times
percent-near n d h le =
    let b = d * 2 ^ 53 in
    let k = scale 1074 n b in
    let m = round_even (n * 2 ^ k) d in
    let bits : 52 ≤ k = scale-bits 52 1074 n b (omega arith) (omega (arith, le)) in
    let big : 2 ^ 52 ≤ 2 ^ k = pow-le-pow_right (omega arith) bits in
    let small : m ≤ 2 ^ 53 =
      round_even-le (n * 2 ^ k) d (2 ^ 53) h
        (omega (arith, scale-below 1074 n b (omega (arith, le)))) in
    error_sum (to_double (m * 100)) m n d (2 ^ k) big
      (to_double-near (m * 100) (omega (arith, small))) (round_even-near (n * 2 ^ k) d h)

-- A hundred times a double of at most one is at most a hundred, and a hundred times one is a hundred.
pub percent-le : (x : Double) → x.m ≤ 2 ^ x.k → (times x 100).m ≤ 100 * 2 ^ x.k
unfolding times
percent-le x h = to_double-le (x.m * 100) 100 x.k (omega arith) (omega (arith, h))

pub percent_full : (x : Double) → x.m ≡ 2 ^ x.k → (times x 100).m ≡ 100 * 2 ^ x.k
unfolding times
percent_full x h = omega (
  arith,
  percent-le x (omega (arith, h)),
  le-to_double (x.m * 100) 100 x.k (omega arith) (omega (arith, h)),
)
