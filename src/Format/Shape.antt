-- ===== src/Format/Shape.antt =====
-- format.ts, `formatPrice`: the text of a price, in terms of its dollars and its fraction digits.
use low_latency_matching_eng.Prelude.{
  ℕ, ◌+◌, ◌-◌, ◌/◌, ◌%◌, ◌≤◌, ◌<◌, [], ◌∷◌, ◌++◌, append_assoc, length, length-append, take, drop,
  take-append, drop-append, ◌≡◌, ◌≢◌, refl, ap, subst, ◌∙◌, Text, dec_lt, arith,
}
use low_latency_matching_eng.Format.{
  decimal, pad_start, pad_end, slice_front, slice_back, strip_zeros, format_units,
}
use low_latency_matching_eng.Format.Decimal.{decimal_small, decimal_step, decimal-digits}

-- The four digits behind the point.
abbrev pub fraction_digits : ℕ → Text
fraction_digits n =
    (b'0' + n / 1000 % 10) ∷ (b'0' + n / 100 % 10) ∷ (b'0' + n / 10 % 10) ∷ (b'0' + n % 10) ∷ []

pub length-pos : (s : Text) → s ≢ [] → 1 ≤ length s
length-pos [] h = absurd (h refl)
length-pos (c ∷ s) h = omega arith

decimal_step4 : (n : ℕ) → 10000 ≤ n → decimal n ≡ decimal (n / 10000) ++ fraction_digits n
decimal_step4 n h =
    decimal_step n (omega arith)
    ∙ ap (λ s. s ++ (b'0' + n % 10) ∷ [])
        (decimal_step (n / 10) (omega arith)
          ∙ ap (λ s. s ++ (b'0' + n / 10 % 10) ∷ [])
              (decimal_step (n / 10 / 10) (omega arith)
                ∙ ap (λ s. s ++ (b'0' + n / 10 / 10 % 10) ∷ [])
                    (decimal_step (n / 10 / 10 / 10) (omega arith))))
    ∙ simp append_assoc (ground arith)

pad_long : (s : Text) → 5 ≤ length s → pad_start 5 s ≡ s
pad_long s h = rw (zero_of s h) refl
  where
    zero_of : (t : Text) → 5 ≤ length t → 5 - length t ≡ 0
    zero_of t k = omega arith

-- One digit more in front of a text.
pub decimal_small2 : (n : ℕ) → 10 ≤ n → n < 100 → decimal n ≡ (b'0' + n / 10) ∷ (b'0' + n % 10) ∷ []
decimal_small2 n h k = decimal_step n h ∙ rw (decimal_small (n / 10) (omega arith)) refl

decimal_small3 :
    (n : ℕ)
    → 100 ≤ n
    → n < 1000
    → decimal n ≡ (b'0' + n / 100) ∷ (b'0' + n / 10 % 10) ∷ (b'0' + n % 10) ∷ []
decimal_small3 n h k =
    decimal_step n (omega arith)
    ∙ rw (decimal_small2 (n / 10) (omega arith) (omega arith)) (ground arith)

decimal_small4 :
    (n : ℕ)
    → 1000 ≤ n
    → n < 10000
    → decimal n
      ≡ (b'0' + n / 1000) ∷ (b'0' + n / 100 % 10) ∷ (b'0' + n / 10 % 10) ∷ (b'0' + n % 10) ∷ []
decimal_small4 n h k =
    decimal_step n (omega arith)
    ∙ rw (decimal_small3 (n / 10) (omega arith) (omega arith)) (ground arith)

padded_long :
    (n : ℕ) → 10000 ≤ n → pad_start 5 (decimal n) ≡ decimal (n / 10000) ++ fraction_digits n
padded_long n h = rw (decimal_step4 n h) (
    pad_long (decimal (n / 10000) ++ fraction_digits n) (
      omega (
        arith,
        length-append {0} (decimal (n / 10000)) (fraction_digits n),
        length-pos (decimal (n / 10000)) (decimal-digits (n / 10000)).1,
      )))

padded_lem : (n : ℕ) → pad_start 5 (decimal n) ≡ decimal (n / 10000) ++ fraction_digits n
padded_lem n = elim (dec_lt n 10) [
  | yes a ↦ rw (decimal_small n a, decimal_small (n / 10000) (omega arith)) (ground arith)
  | no a ↦ elim (dec_lt n 100) [
    | yes b ↦
        rw (decimal_small2 n (omega arith) b, decimal_small (n / 10000) (omega arith))
          (ground arith)
    | no b ↦ elim (dec_lt n 1000) [
      | yes c ↦
          rw (decimal_small3 n (omega arith) c, decimal_small (n / 10000) (omega arith))
            (ground arith)
      | no c ↦ elim (dec_lt n 10000) [
        | yes d ↦
            rw (decimal_small4 n (omega arith) d, decimal_small (n / 10000) (omega arith))
              (ground arith)
        | no d ↦ padded_long n (omega arith)
      ]
    ]
  ]
]

-- The front and the back of a joined text.
pub front_lem : (k : ℕ) (s t : Text) → length t ≡ k → slice_front k (s ++ t) ≡ s
front_lem k s t h =
    subst (λ n. take n (s ++ t) ≡ s) (omega (arith, length-append {0} s t)) (take-append s t)

pub back_lem : (k : ℕ) (s t : Text) → length t ≡ k → slice_back k (s ++ t) ≡ t
back_lem k s t h =
    subst (λ n. drop n (s ++ t) ≡ t) (omega (arith, length-append {0} s t)) (drop-append s t)

-- Every price in units is printed as its whole dollars in decimal, a point, and its four fraction
-- digits with the zeros behind the second one taken off.
pub format_units_lem :
    (n : ℕ)
    → format_units n ≡ decimal (n / 10000) ++ b'.' ∷ pad_end 2 (strip_zeros (fraction_digits n))
unfolding format_units
format_units_lem n =
    rw
      (
        padded_lem n,
        front_lem 4 (decimal (n / 10000)) (fraction_digits n) refl,
        back_lem 4 (decimal (n / 10000)) (fraction_digits n) refl,
      )
      refl
