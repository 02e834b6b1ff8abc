-- ===== src/Format/Decimal.antt =====
-- format.ts: the decimal digits of a number.
use mathlib.Core.List.{foldl, concat-ne-nil}
use low_latency_matching_eng.Prelude.{
  ℕ, zero, suc, ◌+◌, ◌-◌, ◌*◌, ◌/◌, ◌%◌, ◌≤◌, ◌<◌, [], ◌∷◌, ◌++◌, ◌≡◌, ◌≢◌, refl, sym, ap, ◌∙◌, All,
  Text, dec_lt, subst, ltb, lt→ltb, le→not_ltb, if◌then◌else◌, arith,
}
use low_latency_matching_eng.Format.{digits, decimal, value_of}

digits_fuel : (f g n : ℕ) → n < f → n < g → digits f n ≡ digits g n
unfolding digits
digits_fuel zero g n h k = absurd (omega arith)
digits_fuel (suc f) zero n h k = absurd (omega arith)
digits_fuel (suc f) (suc g) n h k = elim (dec_lt n 10) [
  | yes p ↦ rw (lt→ltb n 10 p) refl
  | no p ↦
      ap (λ t. if ltb n 10 then (b'0' + n) ∷ [] else t ++ (b'0' + n % 10) ∷ [])
        (digits_fuel f g (n / 10) (omega arith) (omega arith))
]

pub decimal_small : (n : ℕ) → n < 10 → decimal n ≡ (b'0' + n) ∷ []
unfolding decimal
decimal_small n h = rw (lt→ltb n 10 h) refl

pub decimal_step : (n : ℕ) → 10 ≤ n → decimal n ≡ decimal (n / 10) ++ (b'0' + n % 10) ∷ []
unfolding decimal
decimal_step n h = rw (le→not_ltb n 10 h) (
    ap (λ t. t ++ (b'0' + n % 10) ∷ [])
      (digits_fuel n (suc (n / 10)) (n / 10) (omega arith) (omega arith)))

abbrev pub IsDigit : ℕ → Type 0
IsDigit c = (b'0' ≤ c) × (c ≤ b'9')

-- Induction on the decimal text: the one-digit numbers, and one more digit behind.
module _ {ℓ} (P : ℕ → Text → Type ℓ) (small : (n : ℕ) → n < 10 → P n ((b'0' + n) ∷ []))
    (step : (n : ℕ) (s : Text) → 10 ≤ n → P (n / 10) s → P n (s ++ (b'0' + n % 10) ∷ [])) where
  below : (k n : ℕ) → n < k → P n (decimal n)
  below zero n h = absurd (omega arith)
  below (suc k) n h = elim (dec_lt n 10) [
    | yes p ↦ subst (P n) (sym (decimal_small n p)) (small n p)
    | no p ↦
        subst (P n) (sym (decimal_step n (omega arith)))
          (step n (decimal (n / 10)) (omega arith) (below k (n / 10) (omega arith)))
  ]

  pub decimal_induction : (n : ℕ) → P n (decimal n)
  decimal_induction n = below (suc n) n (omega arith)

All-snoc : (s : Text) (c : ℕ) → All IsDigit s → IsDigit c → All IsDigit (s ++ c ∷ [])
All-snoc [] c h d = (d, tt)
All-snoc (x ∷ s) c (p, h) d = (p, All-snoc s c h d)

-- A decimal text is made of digits, and is not empty.
pub decimal-digits : (n : ℕ) → All IsDigit (decimal n) × (decimal n ≢ [])
decimal-digits =
    decimal_induction (λ n s. All IsDigit s × (s ≢ [])) (λ n h. ((omega arith, tt), cc))
      (λ n s h ih. (All-snoc s (b'0' + n % 10) ih.0 (omega arith), concat-ne-nil (b'0' + n % 10) s))

pub value-snoc :
    (s : Text) (c : ℕ) (a : ℕ)
    → foldl (λ n c. n * 10 + (c - b'0')) a (s ++ c ∷ [])
      ≡ foldl (λ n c. n * 10 + (c - b'0')) a s * 10 + (c - b'0')
value-snoc [] c a = refl
value-snoc (x ∷ s) c a = value-snoc s c (a * 10 + (x - b'0'))

-- A decimal text is read back as its number.
pub value_of-decimal : (n : ℕ) → value_of (decimal n) ≡ n
value_of-decimal =
    decimal_induction (λ n s. value_of s ≡ n) (λ n h. omega arith)
      (λ n s h ih. value-snoc s (b'0' + n % 10) 0 ∙ omega arith)
