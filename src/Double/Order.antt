-- ===== src/Double/Order.antt =====
-- The order of the rounded whole numbers.
use native.Mathlib.Nat.{
  pow-suc, mul-le-mul_right, mul_comm, mul_assoc, div-add-mod', mod-lt, pow-le-pow_right, add-mul,
}
use low_latency_matching_eng.Prelude.{
  ℕ, zero, suc, ◌+◌, ◌-◌, ◌*◌, ◌/◌, ◌%◌, ◌^◌, ◌==◌, ◌≤◌, ◌<◌, ltb, ◌≡◌, dec_le, dec_lt,
  if◌then◌else◌, sym, ap, subst, ◌∙◌, arith,
}
use low_latency_matching_eng.Double.{excess, to_double, round_even}
use low_latency_matching_eng.Double.Round.{pow_pos, round_even-le, le-round_even}
use low_latency_matching_eng.Double.Bits.{below_pow, excess-fits, excess-full}

abbrev choose : ℕ → ℕ → ℕ → ℕ
choose n r q =
    if ltb (2 * r) q then n else if ltb q (2 * r) then n + 1 else if n % 2 == 0 then n else n + 1

choose_mono : (n r r' q : ℕ) → r ≤ r' → choose n r q ≤ choose n r' q
choose_mono n r r' q h = ground arith

choose_bounds : (n r q : ℕ) → (n ≤ choose n r q) × (choose n r q ≤ n + 1)
choose_bounds n r q = ground arith

mod_mono : (p p' q : ℕ) → p' / q ≡ p / q → p ≤ p' → p % q ≤ p' % q
mod_mono p p' q same le = omega (arith, div-add-mod' p q, div-add-mod' p' q, ap (λ n. n * q) same)

same_div : (p p' q : ℕ) → 0 < q → p ≤ p' → p' / q ≤ p / q → p' / q ≡ p / q
same_div p p' q h le l = elim (dec_lt (p' / q) (p / q)) [
  | yes g ↦ absurd (
      omega (
        arith,
        div-add-mod' p q,
        div-add-mod' p' q,
        mod-lt p' h,
        add-mul (p' / q) 1 q,
        mul-le-mul_right {m = p' / q + 1} {n = p / q} q (omega arith),
      ))
  | no g ↦ omega arith
]

-- Of two numbers the greater one is not rounded below the lesser one.
pub round_even_mono : (p p' q : ℕ) → 0 < q → p ≤ p' → round_even p q ≤ round_even p' q
unfolding round_even
round_even_mono p p' q h le = elim (dec_lt (p / q) (p' / q)) [
  | yes l ↦ omega (arith, choose_bounds (p / q) (p % q) q, choose_bounds (p' / q) (p' % q) q)
  | no l ↦ same_mono (same_div p p' q h le (omega arith))
]
  where
    same_mono : p' / q ≡ p / q → choose (p / q) (p % q) q ≤ choose (p' / q) (p' % q) q
    same_mono same =
        subst (λ n. choose (p / q) (p % q) q ≤ choose n (p' % q) q) (sym same)
          (choose_mono (p / q) (p % q) (p' % q) q (mod_mono p p' q same le))

pub fits : (n : ℕ) → n < 2 ^ 53 * 2 ^ excess n n
fits n = excess-fits n n (below_pow n)

pub pow_plus : (j k : ℕ) → 2 ^ (j + k) ≡ 2 ^ j * 2 ^ k
pow_plus zero k = omega (arith, ap (λ e. 2 ^ e) {x = 0 + k} {y = k} (omega arith))
pow_plus (suc j) k =
    ap (λ e. 2 ^ e) {x = suc j + k} {y = suc (j + k)} (omega arith)
    ∙ omega (
      arith,
      pow-suc 2 (j + k),
      ap (λ x. x * 2 ^ k) (pow-suc 2 j),
      pow_plus j k,
      mul_assoc (2 ^ j) 2 (2 ^ k),
      mul_comm 2 (2 ^ k),
      mul_assoc (2 ^ j) (2 ^ k) 2,
    )

-- A power is at least twice a lesser one.
pub twice_pow : (j k : ℕ) → j < k → 2 * 2 ^ j ≤ 2 ^ k
twice_pow j k h =
    omega (arith, pow-suc 2 j, pow-le-pow_right {n = 2} (omega arith) {i = suc j} {j = k} h)

-- A multiple of a power is one of each lesser power.
coarser : (c s k : ℕ) → s ≤ k → c * 2 ^ k ≡ c * 2 ^ (k - s) * 2 ^ s
coarser c s k h =
    ap (λ e. c * 2 ^ e) {x = k} {y = k - s + s} (omega arith)
    ∙ ap (λ e. c * e) (pow_plus (k - s) s)
    ∙ sym (mul_assoc c (2 ^ (k - s)) (2 ^ s))

rounded-le : (n a s : ℕ) → n ≤ a * 2 ^ s → round_even n (2 ^ s) * 2 ^ s ≤ a * 2 ^ s
rounded-le n a s h = mul-le-mul_right (2 ^ s) (round_even-le n (2 ^ s) a (pow_pos s) h)

le-rounded : (n a s : ℕ) → a * 2 ^ s ≤ n → a * 2 ^ s ≤ round_even n (2 ^ s) * 2 ^ s
le-rounded n a s h = mul-le-mul_right (2 ^ s) (le-round_even n (2 ^ s) a (pow_pos s) h)

-- What has at most 53 bits before its zeros is below the numbers with a greater excess.
below_full : (c k s : ℕ) → c ≤ 2 ^ 53 → k < s → c * 2 ^ k ≤ 2 ^ 52 * 2 ^ s
below_full c k s h l = omega (arith, mul-le-mul_right (2 ^ k) h, twice_pow k s l)

-- A number of at most 53 bits with zeros behind them is an upper bound of the rounded numbers too.
pub to_double-le : (n c k : ℕ) → c ≤ 2 ^ 53 → n ≤ c * 2 ^ k → to_double n ≤ c * 2 ^ k
unfolding to_double
to_double-le n c k h le =
    let s = excess n n in
    elim (dec_le s k) [
      | yes l ↦
          let same = coarser c s k l in
          omega (arith, same, rounded-le n (c * 2 ^ (k - s)) s (omega (arith, le, same)))
      | no l ↦
          let full = excess-full n n (omega arith) in
          let below = below_full c k s h (omega arith) in
          omega (arith, full, below, le, rounded-le n (2 ^ 52) s (omega (arith, below, le)))
    ]

pub le-to_double : (n c k : ℕ) → c ≤ 2 ^ 53 → c * 2 ^ k ≤ n → c * 2 ^ k ≤ to_double n
unfolding to_double
le-to_double n c k h le =
    let s = excess n n in
    elim (dec_le s k) [
      | yes l ↦
          let same = coarser c s k l in
          omega (arith, same, le-rounded n (c * 2 ^ (k - s)) s (omega (arith, le, same)))
      | no l ↦
          let full = excess-full n n (omega arith) in
          omega (arith, below_full c k s h (omega arith), le-rounded n (2 ^ 52) s full)
    ]

-- A rounded number has at most 53 bits before its zeros.
pub significand : (n : ℕ) → round_even n (2 ^ excess n n) ≤ 2 ^ 53
significand n =
    round_even-le n (2 ^ excess n n) (2 ^ 53) (pow_pos (excess n n)) (omega (arith, fits n))

-- The excess does not fall when the number grows.
excess_mono : (n m : ℕ) → n ≤ m → excess n n ≤ excess m m
excess_mono n m h = elim (dec_le (excess n n) (excess m m)) [
  | yes l ↦ l
  | no l ↦ absurd (
      omega (
        arith,
        h,
        fits m,
        excess-full n n (omega arith),
        twice_pow (excess m m) (excess n n) (omega arith),
      ))
]

-- Of two whole numbers the greater one is not rounded below the lesser one.
pub to_double_mono : (n m : ℕ) → n ≤ m → to_double n ≤ to_double m
unfolding to_double
to_double_mono n m h =
    let s = excess n n in
    let t = excess m m in
    elim (dec_lt s t) [
      | yes l ↦ omega (
        arith,
        mul-le-mul_right (2 ^ s) (significand n),
        twice_pow s t l,
        le-rounded m (2 ^ 52) t (excess-full m m (omega arith)),
      )
      | no l ↦
          let same : t ≡ s = omega (arith, excess_mono n m h) in
          subst (λ e. round_even n (2 ^ s) * 2 ^ s ≤ round_even m (2 ^ e) * 2 ^ e) (sym same)
            (mul-le-mul_right (2 ^ s) (round_even_mono n m (2 ^ s) (pow_pos s) h))
    ]

-- A rounded number is not rounded again.
pub to_double-fixed : (n : ℕ) → to_double (to_double n) ≡ to_double n
unfolding to_double
to_double-fixed n = omega (
  arith,
  to_double-le (to_double n) (round_even n (2 ^ excess n n)) (excess n n) (significand n)
      (omega arith),
  le-to_double (to_double n) (round_even n (2 ^ excess n n)) (excess n n) (significand n)
      (omega arith),
)
