-- ===== src/Views/Header/Spread.antt =====
-- Header.tsx: the spread of a two-sided book in ticks and in basis points.
use low_latency_matching_eng.Prelude.{
  ℕ, ◌+◌, ◌-◌, ◌*◌, ◌/◌, ◌%◌, ◌^◌, ◌≤◌, ◌<◌, pos, ◌+ℤ◌, ◌-ℤ◌, Text, ltb_ℤ, true, ◌≡◌, refl, ap, ◌∙◌,
  arith,
}
use low_latency_matching_eng.Double.{signed_quotient, quotient, to_double, hundredths}
use low_latency_matching_eng.Double.Accuracy.{to_double-exact, hundredths-quotient}
use low_latency_matching_eng.Protocol.Value.{whole}
use low_latency_matching_eng.Format.{decimal, format_price, to_fixed_2, signed_to_fixed_2}
use low_latency_matching_eng.Format.Fixed.{to_fixed_2-format_price}
use low_latency_matching_eng.Views.Header.{
  two_sided, minus_if, magnitude, scaled, bps_of, spread_bps_label, spread_ticks_label,
  hundredth_text,
}

difference : (b a : ℕ) → b ≤ a → pos a -ℤ pos b ≡ pos (a - b)
unfolding ◌-ℤ◌
difference b a h = ground arith

both_sides : (b a : ℕ) → 0 < b → 0 < a → two_sided (pos b) (pos a) ≡ true
both_sides b a p q = ground arith

unsigned : (n : ℕ) (s : ℕ → Text) → minus_if (ltb_ℤ (pos n) (pos 0)) (s (magnitude (pos n))) ≡ s n
unsigned n s = ground arith

whole_hundreds : (n : ℕ) → hundredth_text (n * 100) ≡ decimal n
unfolding hundredth_text
whole_hundreds n = rw (no_rest n, all_of n) refl
  where
    no_rest : (n : ℕ) → n * 100 % 100 ≡ 0
    no_rest n = omega arith

    all_of : (n : ℕ) → n * 100 / 100 ≡ n
    all_of n = omega arith

ticks_text :
    (x y : ℕ) → 0 < x → x ≤ y → spread_ticks_label (pos (x * 100)) (pos (y * 100)) ≡ decimal (y - x)
unfolding spread_ticks_label
ticks_text x y p h = rw (both_sides (x * 100) (y * 100) (omega arith) (omega arith)) (
    ap (λ d. minus_if (ltb_ℤ d (pos 0)) (hundredth_text (magnitude d)))
      (difference (x * 100) (y * 100) (omega arith))
    ∙ unsigned (y * 100 - x * 100) hundredth_text
    ∙ ap hundredth_text (omega arith)
    ∙ whole_hundreds (y - x))

total : (b a : ℕ) → magnitude (pos a +ℤ pos b) ≡ a + b
unfolding ◌+ℤ◌
total b a = ground arith

bps_text :
    (b a : ℕ)
    → 0 < b
    → b ≤ a
    → spread_bps_label (pos b) (pos a)
      ≡ to_fixed_2 (quotient (to_double (20000 * (a - b))) (to_double (a + b)))
unfolding spread_bps_label bps_of signed_to_fixed_2
bps_text b a p h = rw (both_sides b a p (omega arith)) (
    ap
      (λ d. signed_to_fixed_2 (signed_quotient (scaled d) (to_double (magnitude (pos a +ℤ pos b)))))
      (difference b a h)
    ∙ ap (λ t. to_fixed_2 (quotient (to_double (20000 * (a - b))) (to_double t))) (total b a))

-- On a two-sided book with prices on the tick and the ask not below the bid: the spread in ticks is
-- printed exactly; and the spread in basis points is printed as a number of hundredths that is at most
-- one away from the exact ratio, if neither the sum of the prices nor the scaled difference has more
-- than 53 bits, whatever the rounding of the division.
pub spread-labels :
    (x y : ℕ)
    → 0 < x
    → x ≤ y
    → (y + x) * 100 < 2 ^ 53
    → 20000 * ((y - x) * 100) < 2 ^ 53
    → (spread_ticks_label (pos (x * 100)) (pos (y * 100)) ≡ decimal (y - x))
      × ((h : ℕ) × (spread_bps_label (pos (x * 100)) (pos (y * 100))
            ≡ format_price (whole (pos (h * 100))))
          × (h * (y + x) ≤ 2000000 * (y - x) + (y + x))
          × (2000000 * (y - x) ≤ h * (y + x) + (y + x)))
spread-labels x y p h small fine =
    let n = 20000 * (y * 100 - x * 100) in
    let d = y * 100 + x * 100 in
    let e = to_double-exact n (omega (arith, fine, h)) in
    let f = to_double-exact d (omega (arith, small)) in
    let near = hundredths-quotient n d (omega (arith, p)) (omega (arith, h, p)) in
    (
      ticks_text x y p h,
      (
        hundredths (quotient n d),
        bps_text (x * 100) (y * 100) (omega arith) (omega arith)
            ∙ ap (λ k. to_fixed_2 (quotient k (to_double d))) e
            ∙ ap (λ k. to_fixed_2 (quotient n k)) f
            ∙ to_fixed_2-format_price (quotient n d),
        omega (arith, near.0),
        omega (arith, near.1),
      ),
    )
