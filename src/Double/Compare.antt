-- ===== src/Double/Compare.antt =====
-- The order of the doubles, and what keeps it.
use native.Mathlib.Nat.{
  pow-suc, mul-le-mul_right, mul_assoc, div-add-mod', add-mul, mul-div-mul_right,
  le_of_mul-le-mul_right,
}
use low_latency_matching_eng.Prelude.{
  ℕ, zero, suc, ◌+◌, ◌*◌, ◌/◌, ◌%◌, ◌^◌, ◌≤◌, ◌<◌, ltb, lt→ltb, le→not_ltb, ◌==◌, if◌then◌else◌,
  ◌≡◌, refl, dec_lt, sym, ap, subst, ◌∙◌, arith,
}
use low_latency_matching_eng.Double.{Double, excess, scale, to_double, round_even, quotient}
use low_latency_matching_eng.Double.Accuracy.{to_double-exact}
use low_latency_matching_eng.Double.Round.{pow_pos, round_even-le, le-round_even}
use low_latency_matching_eng.Double.Bits.{excess-full}
use low_latency_matching_eng.Double.Order.{
  to_double-le, le-to_double, to_double_mono, twice_pow, pow_plus, round_even_mono, fits,
}

infix 50 ◌⊑◌
abbrev pub ◌⊑◌ : Double → Double → Type 0
x ⊑ y = x.m * 2 ^ y.k ≤ y.m * 2 ^ x.k

pub ⊑_trans : (x y z : Double) → x ⊑ y → y ⊑ z → x ⊑ z
⊑_trans x y z h g =
    le_of_mul-le-mul_right {m = x.m * 2 ^ z.k} {n = z.m * 2 ^ x.k} {k = 2 ^ y.k}
      (grind (arith, mul-le-mul_right (2 ^ z.k) h, mul-le-mul_right (2 ^ x.k) g)) (pow_pos y.k)

-- How often a number doubles below a bound.
scale-small : (fuel n b : ℕ) → 2 * n < b → scale (suc fuel) n b ≡ suc (scale fuel (2 * n) b)
unfolding scale
scale-small fuel n b h = rw (lt→ltb (2 * n) b h) refl

scale-large : (fuel n b : ℕ) → b ≤ 2 * n → scale fuel n b ≡ 0
unfolding scale
scale-large zero n b h = refl
scale-large (suc fuel) n b h = rw (le→not_ltb (2 * n) b h) refl

scale-le : (fuel n b : ℕ) → scale fuel n b ≤ fuel
unfolding scale
scale-le zero n b = omega arith
scale-le (suc fuel) n b = ground (arith, scale-le fuel (2 * n) b)

doubled : (n e : ℕ) → n * 2 ^ suc e ≡ 2 * n * 2 ^ e
doubled n e =
    ap (λ x. n * x) (pow-suc 2 e) ∙ omega (arith, mul_assoc n (2 ^ e) 2, mul_assoc 2 n (2 ^ e))

pub scale-below : (fuel n b : ℕ) → n < b → n * 2 ^ scale fuel n b < b
unfolding scale
scale-below zero n b h = omega (arith, h)
scale-below (suc fuel) n b h = elim (dec_lt (2 * n) b) [
  | yes p ↦
      rw (scale-small fuel n b p)
        (omega (arith, doubled n (scale fuel (2 * n) b), scale-below fuel (2 * n) b p))
  | no p ↦ rw (scale-large (suc fuel) n b (omega arith)) (omega (arith, h))
]

scale-full : (fuel n b : ℕ) → scale fuel n b < fuel → b ≤ 2 * (n * 2 ^ scale fuel n b)
scale-full zero n b h = absurd (omega arith)
scale-full (suc fuel) n b h = elim (dec_lt (2 * n) b) [
  | yes p ↦
      let step = scale-small fuel n b p in
      rw step (
        omega (
          arith,
          doubled n (scale fuel (2 * n) b),
          step,
          h,
          scale-full fuel (2 * n) b (omega (arith, step, h)),
        ))
  | no p ↦ rw (scale-large (suc fuel) n b (omega arith)) (omega arith)
]

scale-anti : (fuel n n' b : ℕ) → n ≤ n' → scale fuel n' b ≤ scale fuel n b
scale-anti zero n n' b h = omega (arith, scale-le zero n' b)
scale-anti (suc fuel) n n' b h = elim (dec_lt (2 * n') b) [
  | yes p ↦
      rw (scale-small fuel n' b p, scale-small fuel n b (omega (arith, h)))
        (omega (arith, scale-anti fuel (2 * n) (2 * n') b (omega (arith, h))))
  | no p ↦ rw (scale-large (suc fuel) n' b (omega arith)) (omega arith)
]

-- Of two quotients by one number, each at most one, the one of the greater number is not less.
pub quotient_mono : (n n' d : ℕ) → 0 < d → n ≤ n' → n' ≤ d → quotient n d ⊑ quotient n' d
unfolding quotient
quotient_mono n n' d p h small =
    let b = d * 2 ^ 53 in
    let k = scale 1074 n b in
    let k' = scale 1074 n' b in
    let m = round_even (n * 2 ^ k) d in
    let m' = round_even (n' * 2 ^ k') d in
    elim (dec_lt k' k) [
      | yes l ↦
          let low =
            round_even-le (n * 2 ^ k) d (2 ^ 53) p
              (omega (arith, scale-below 1074 n b (omega arith))) in
          let high =
            le-round_even (n' * 2 ^ k') d (2 ^ 52) p
              (omega (arith, scale-full 1074 n' b (omega (arith, l, scale-le 1074 n b)))) in
          omega
            (arith, mul-le-mul_right (2 ^ k') low, twice_pow k' k l, mul-le-mul_right (2 ^ k) high)
      | no l ↦
          let same : k' ≡ k = omega (arith, scale-anti 1074 n n' b h) in
          subst (λ e. m * 2 ^ e ≤ round_even (n' * 2 ^ e) d * 2 ^ k) (sym same)
            (mul-le-mul_right (2 ^ k)
              (round_even_mono (n * 2 ^ k) (n' * 2 ^ k) d p (mul-le-mul_right (2 ^ k) h)))
    ]

-- The rounding is the same at every scale.
mod_scaled : (p q j : ℕ) → (p * 2 ^ j) % (q * 2 ^ j) ≡ p % q * 2 ^ j
mod_scaled p q j = omega (
  arith,
  div-add-mod' (p * 2 ^ j) (q * 2 ^ j),
  ap (λ n. n * (q * 2 ^ j)) (mul-div-mul_right p q (pow_pos j)),
  ap (λ n. n * 2 ^ j) (div-add-mod' p q),
  add-mul (p / q * q) (p % q) (2 ^ j),
  mul_assoc (p / q) q (2 ^ j),
)

abbrev choose : ℕ → ℕ → ℕ → ℕ
choose n r q =
    if ltb (2 * r) q then n else if ltb q (2 * r) then n + 1 else if n % 2 == 0 then n else n + 1

choose_scaled : (n r q j : ℕ) → choose n (r * 2 ^ j) (q * 2 ^ j) ≡ choose n r q
choose_scaled n r q j =
    rw (sym (mul_assoc 2 r (2 ^ j)), ltb_scaled (2 * r) q, ltb_scaled q (2 * r)) refl
  where
    ltb_scaled : (a b : ℕ) → ltb (a * 2 ^ j) (b * 2 ^ j) ≡ ltb a b
    ltb_scaled a b = elim (dec_lt a b) [
      | yes h ↦
          rw
            (
              lt→ltb a b h,
              lt→ltb (a * 2 ^ j) (b * 2 ^ j) (
                  omega (
                    arith,
                    mul-le-mul_right {m = a + 1} {n = b} (2 ^ j) (omega arith),
                    add-mul a 1 (2 ^ j),
                    pow_pos j,
                  )),
            )
            refl
      | no h ↦
          rw
            (
              le→not_ltb a b (omega arith),
              le→not_ltb (a * 2 ^ j) (b * 2 ^ j) (mul-le-mul_right (2 ^ j) (omega arith)),
            )
            refl
    ]

round_even_scaled : (p q j : ℕ) → round_even (p * 2 ^ j) (q * 2 ^ j) ≡ round_even p q
unfolding round_even
round_even_scaled p q j =
    rw (mul-div-mul_right p q (pow_pos j), mod_scaled p q j) (choose_scaled (p / q) (p % q) q j)

excess_scaled : (n j : ℕ) → 0 < excess n n → excess (n * 2 ^ j) (n * 2 ^ j) ≡ excess n n + j
excess_scaled n j h =
    let s = excess n n in
    let n' = n * 2 ^ j in
    let s' = excess n' n' in
    let full = mul-le-mul_right (2 ^ j) (excess-full n n h) in
    elim (dec_lt s' (s + j)) [
      | yes l ↦ absurd (
          omega (
            arith,
            fits n',
            full,
            twice_pow s' (s + j) l,
            pow_plus s j,
            mul_assoc (2 ^ 52) (2 ^ s) (2 ^ j),
          ))
      | no l ↦ elim (dec_lt (s + j) s') [
        | yes g ↦ absurd (
            omega (
              arith,
              excess-full n' n' (omega arith),
              mul-le-mul_right (2 ^ j) (lt→le (fits n)),
              twice_pow (s + j) s' g,
              pow_plus s j,
              mul_assoc (2 ^ 53) (2 ^ s) (2 ^ j),
              add-mul n 1 (2 ^ j),
              pow_pos j,
            ))
        | no g ↦ omega arith
      ]
    ]
  where
    lt→le : {a b : ℕ} → a < b → a + 1 ≤ b
    lt→le k = omega arith

-- A power of two goes through the rounding.
pub to_double_scaled : (n j : ℕ) → to_double (n * 2 ^ j) ≡ to_double n * 2 ^ j
unfolding to_double
to_double_scaled n j =
    let s = excess n n in
    elim (dec_lt 0 s) [
      | yes h ↦
          ap (λ e. round_even (n * 2 ^ j) (2 ^ e) * 2 ^ e) (excess_scaled n j h)
          ∙ ap (λ e. round_even (n * 2 ^ j) e * e) (pow_plus s j)
          ∙ ap (λ r. r * (2 ^ s * 2 ^ j)) (round_even_scaled n (2 ^ s) j)
          ∙ sym (mul_assoc (round_even n (2 ^ s)) (2 ^ s) (2 ^ j))
      | no h ↦ kept (subst (λ e. n < 2 ^ 53 * 2 ^ e) {x = s} {y = 0} (omega arith) (fits n))
    ]
  where
    kept : n < 2 ^ 53 * 2 ^ 0 → to_double (n * 2 ^ j) ≡ to_double n * 2 ^ j
    kept small = omega (
      arith,
      to_double-le (n * 2 ^ j) n j (omega arith) (omega arith),
      le-to_double (n * 2 ^ j) n j (omega arith) (omega arith),
      ap (λ x. x * 2 ^ j) (to_double-exact n (omega arith)),
    )

-- The order of two doubles is kept when both are rounded.
pub to_double_mono_scaled :
    (n m j i : ℕ) → n * 2 ^ i ≤ m * 2 ^ j → to_double n * 2 ^ i ≤ to_double m * 2 ^ j
to_double_mono_scaled n m j i h =
    omega
      (arith, to_double_scaled n i, to_double_scaled m j, to_double_mono (n * 2 ^ i) (m * 2 ^ j) h)
