-- ===== src/Views/Plot/Order.antt =====
-- The horizontal scale of the two charts: the order of the values is that of their places.
use native.Mathlib.Nat.{mul-le-mul_right, add-mul}
use low_latency_matching_eng.Prelude.{
  ℕ, ◌+◌, ◌*◌, ◌/◌, ◌^◌, ◌≤◌, ◌<◌, ℤ, ◌≤ℤ◌, eqb_ℤ, Bool-cases, inl, inr, false, ◌≡◌, refl, ap, sym,
  subst, subst₂, ◌∙◌, arith,
}
use low_latency_matching_eng.Double.{Signed, to_double, signed_times, times, at, plus, half_sum}
use low_latency_matching_eng.Double.Accuracy.{to_double-exact}
use low_latency_matching_eng.Double.Order.{to_double-fixed, to_double_mono, pow_plus}
use low_latency_matching_eng.Double.Compare.{◌⊑◌, quotient_mono, to_double_mono_scaled}
use low_latency_matching_eng.Views.Plot.{share, x_on}
use low_latency_matching_eng.Views.Plot.Scale.{
  gap, from_low, to_double-pos, apart_gap, gap_mono, plus_lem, unsigned,
}

-- A number of at least zero that is a double.
pub record IsPlace (x : Signed) : Type 0 where
  pub not_negative : x.negative ≡ false
  pub fixed : to_double x.size.m ≡ x.size.m

pub at-IsPlace : (c : ℕ) → c < 2 ^ 53 → IsPlace (at c)
at-IsPlace c h = record { not_negative = refl; fixed = to_double-exact c h }

pub share_mono :
    (low high v w : ℤ)
    → low ≤ℤ v
    → v ≤ℤ w
    → w ≤ℤ high
    → eqb_ℤ high low ≡ false
    → ((share low high v).negative ≡ false)
      × ((share low high w).negative ≡ false)
      × (share low high v).size ⊑ (share low high w).size
share_mono low high v w a b c apart =
    rw (from_low low v a, from_low low w (omega arith), from_low low high (omega arith))
      (
        refl,
        refl,
        quotient_mono (to_double (gap low v)) (to_double (gap low w)) (to_double (gap low high + 0))
            (to_double-pos (gap low high + 0) (apart_gap low high (omega arith) apart))
            (to_double_mono (gap low v) (gap low w) (gap_mono low v w b))
            (to_double_mono (gap low w) (gap low high + 0) (omega (arith, gap_mono low w high c))),
      )

pub scaled_mono : (a b i j c : ℕ) → a * 2 ^ j ≤ b * 2 ^ i → a * c * 2 ^ j ≤ b * c * 2 ^ i
scaled_mono a b i j c h = grind (arith, mul-le-mul_right c h)

shifted_mono :
    (left a b i j : ℕ)
    → a * 2 ^ j ≤ b * 2 ^ i
    → (left * 2 ^ i + a) * 2 ^ j ≤ (left * 2 ^ j + b) * 2 ^ i
shifted_mono left a b i j h =
    grind (arith, add-mul (left * 2 ^ i) a (2 ^ j), add-mul (left * 2 ^ j) b (2 ^ i), h)

plus_mono :
    (left width : ℕ) (x y : Signed)
    → x.negative ≡ false
    → y.negative ≡ false
    → x.size ⊑ y.size
    → (plus left (signed_times x width)).size ⊑ (plus left (signed_times y width)).size
unfolding times
plus_mono left width x y p q h =
    subst₂ (λ (u v : Signed). u.size ⊑ v.size) (sym (plus_lem left (signed_times x width) p))
      (sym (plus_lem left (signed_times y width) q))
      (to_double_mono_scaled _ _ x.size.k y.size.k (
        shifted_mono left (to_double (x.size.m * width)) (to_double (y.size.m * width)) x.size.k
          y.size.k
          (to_double_mono_scaled (x.size.m * width) (y.size.m * width) x.size.k y.size.k
            (scaled_mono x.size.m y.size.m x.size.k y.size.k width h))))

sum-IsPlace : (m k : ℕ) → IsPlace (unsigned (to_double m) k)
sum-IsPlace m k = record { not_negative = refl; fixed = to_double-fixed m }

plus-IsPlace :
    (left width : ℕ) (x : Signed) → x.negative ≡ false → IsPlace (plus left (signed_times x width))
unfolding times
plus-IsPlace left width x h =
    subst IsPlace (sym (plus_lem left (signed_times x width) h))
      (sum-IsPlace (left * 2 ^ x.size.k + (signed_times x width).size.m) x.size.k)

module _ (from span : ℕ) (small : from + span < 2 ^ 53) (low high : ℤ) where
  -- The place of a value of the domain is a double.
  pub x_on-IsPlace : (v : ℤ) → low ≤ℤ v → v ≤ℤ high → IsPlace (x_on from span low high v)
  unfolding x_on
  x_on-IsPlace v a b = elim (Bool-cases (eqb_ℤ high low)) [
    | inl y ↦ rw y (at-IsPlace (from + span / 2) (omega arith))
    | inr n ↦
        rw n (
          plus-IsPlace from span (share low high v) (share_mono low high v v a (omega arith) b n).0)
  ]

  -- Of two values of the domain the greater one is not further to the left.
  pub x_on_mono :
      (v w : ℤ)
      → low ≤ℤ v
      → v ≤ℤ w
      → w ≤ℤ high
      → (x_on from span low high v).size ⊑ (x_on from span low high w).size
  unfolding x_on
  x_on_mono v w a b c = elim (Bool-cases (eqb_ℤ high low)) [
    | inl y ↦ rw y (omega arith)
    | inr n ↦
        let (p, q, h) = share_mono low high v w a b c n in
        rw n (plus_mono from span (share low high v) (share low high w) p q h)
  ]

half_sum_lem :
    (x y : Signed)
    → x.negative ≡ false
    → y.negative ≡ false
    → half_sum x y
      ≡ unsigned
          (to_double (x.size.m * 2 ^ y.size.k + y.size.m * 2 ^ x.size.k))
          (x.size.k + y.size.k + 1)
unfolding half_sum
half_sum_lem x y p q = rw (p, q) refl

pow_join : (i j : ℕ) → 2 ^ (i + j + 1) ≡ 2 ^ i * 2 ^ j * 2
pow_join i j = pow_plus (i + j) 1 ∙ ap (λ p. p * 2) (pow_plus i j)

middle :
    (a b i j : ℕ)
    → a * 2 ^ j ≤ b * 2 ^ i
    → (a * 2 ^ (i + j + 1) ≤ (a * 2 ^ j + b * 2 ^ i) * 2 ^ i)
      × ((a * 2 ^ j + b * 2 ^ i) * 2 ^ j ≤ b * 2 ^ (i + j + 1))
middle a b i j h = rw (pow_join i j) (
  grind (arith, mul-le-mul_right (2 ^ i) h, add-mul (a * 2 ^ j) (b * 2 ^ i) (2 ^ i)),
  grind (arith, mul-le-mul_right (2 ^ j) h, add-mul (a * 2 ^ j) (b * 2 ^ i) (2 ^ j)),
)

-- The middle of two places lies between them.
pub record IsBetween (x y z : Signed) : Type 0 where
  pub place : IsPlace z
  pub right_of : x.size ⊑ z.size
  pub left_of : z.size ⊑ y.size

pub half_sum-IsBetween :
    (x y : Signed) → IsPlace x → IsPlace y → x.size ⊑ y.size → IsBetween x y (half_sum x y)
half_sum-IsBetween x y p q h =
    let i = x.size.k in
    let j = y.size.k in
    let a = x.size.m in
    let b = y.size.m in
    let total = a * 2 ^ j + b * 2 ^ i in
    let (low, high) = middle a b i j h in
    subst (IsBetween x y) (sym (half_sum_lem x y p.not_negative q.not_negative)) (record {
      place = sum-IsPlace total (i + j + 1);
      right_of =
          subst (λ c. c * 2 ^ (i + j + 1) ≤ to_double total * 2 ^ i) p.fixed
            (to_double_mono_scaled a total i (i + j + 1) low);
      left_of =
          subst (λ c. to_double total * 2 ^ j ≤ c * 2 ^ (i + j + 1)) q.fixed
            (to_double_mono_scaled total b (i + j + 1) j high);
    })
