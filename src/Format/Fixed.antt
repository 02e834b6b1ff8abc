-- ===== src/Format/Fixed.antt =====
-- format.ts and the library function `toFixed`: the text of the nearest number of hundredths.
use low_latency_matching_eng.Prelude.{
  ℕ, ◌+◌, ◌-◌, ◌*◌, ◌/◌, ◌%◌, ◌≤◌, pos, [], ◌∷◌, ◌++◌, append_assoc, length, length-append, dec_lt,
  Text, ◌≡◌, refl, ap, ◌∙◌, sym, arith,
}
use low_latency_matching_eng.Double.{Double, hundredths}
use low_latency_matching_eng.Protocol.Value.{whole}
use low_latency_matching_eng.Format.{to_fixed_2, decimal, pad_start, format_price}
use low_latency_matching_eng.Format.Decimal.{decimal_small, decimal_step, decimal-digits}
use low_latency_matching_eng.Format.Shape.{front_lem, back_lem, decimal_small2, length-pos}
use low_latency_matching_eng.Format.RoundTrip.{cents_shown}

abbrev last_two : ℕ → Text
last_two n = (b'0' + n / 10 % 10) ∷ (b'0' + n % 10) ∷ []

long_enough : (s : Text) → 3 ≤ length s → pad_start 3 s ≡ s
long_enough s h = rw (none_missing (length s) h) refl
  where
    none_missing : (n : ℕ) → 3 ≤ n → 3 - n ≡ 0
    none_missing n k = omega arith

decimal_step2 : (n : ℕ) → 100 ≤ n → decimal n ≡ decimal (n / 100) ++ last_two n
decimal_step2 n h =
    decimal_step n (omega arith)
    ∙ ap (λ s. s ++ (b'0' + n % 10) ∷ []) (decimal_step (n / 10) (omega arith))
    ∙ simp append_assoc (ground arith)

three_digits : (n : ℕ) → pad_start 3 (decimal n) ≡ decimal (n / 100) ++ last_two n
three_digits n = elim (dec_lt n 10) [
  | yes a ↦ rw (decimal_small n a, decimal_small (n / 100) (omega arith)) (ground arith)
  | no a ↦ elim (dec_lt n 100) [
    | yes b ↦
        rw (decimal_small2 n (omega arith) b, decimal_small (n / 100) (omega arith)) (ground arith)
    | no b ↦ rw (decimal_step2 n (omega arith)) (
        long_enough (decimal (n / 100) ++ last_two n) (
          omega (
            arith,
            length-append {0} (decimal (n / 100)) (last_two n),
            length-pos (decimal (n / 100)) (decimal-digits (n / 100)).1,
          )))
  ]
]

-- The text of `toFixed(2)` is that of the nearest number of cents.
pub to_fixed_2-format_price :
    (x : Double) → to_fixed_2 x ≡ format_price (whole (pos (hundredths x * 100)))
unfolding to_fixed_2
to_fixed_2-format_price x =
    let n = hundredths x in
    rw
      (
        three_digits n,
        front_lem 2 (decimal (n / 100)) (last_two n) refl,
        back_lem 2 (decimal (n / 100)) (last_two n) refl,
      )
      (sym (cents_shown n))
