-- ===== src/Format/RoundTrip.antt =====
-- format.ts: printing a price and parsing it again.
use low_latency_matching_eng.Prelude.{
  ℕ, ◌+◌, ◌*◌, ◌/◌, ◌%◌, ◌≤◌, ◌<◌, pos, [], ◌∷◌, ◌++◌, append_assoc, some, false, ◌≡◌, refl, sym,
  ap, ◌∙◌, All, All-map, Text, arith,
}
use low_latency_matching_eng.Protocol.Value.{whole}
use low_latency_matching_eng.Protocol.Encode.{max_safe}
use low_latency_matching_eng.Format.{
  trim, trim_start, trim_end, push_unless_white, is_white, decimal, pad_end, strip_zeros,
  format_units, format_price, value_of, checked_units, parse_price,
}
use low_latency_matching_eng.Format.Decimal.{IsDigit, decimal-digits, value-snoc, value_of-decimal}
use low_latency_matching_eng.Format.Shape.{fraction_digits, format_units_lem}
use low_latency_matching_eng.Format.Parse.{Spells, parse_price_iff, parse-joined}

-- The character is no white space.
abbrev IsInk : ℕ → Type 0
IsInk c = is_white c ≡ false

trim_start-ink : (s : Text) → All IsInk s → trim_start s ≡ s
unfolding trim_start
trim_start-ink [] h = refl
trim_start-ink (c ∷ s) (p, h) = rw p refl

trim_end-ink : (s : Text) → All IsInk s → trim_end s ≡ s
unfolding trim_end
trim_end-ink [] h = refl
trim_end-ink (c ∷ []) (p, h) = rw p refl
trim_end-ink (c ∷ d ∷ s) (p, h) = ap (push_unless_white c) (trim_end-ink (d ∷ s) h)

trim-ink : (s : Text) → All IsInk s → trim s ≡ s
unfolding trim
trim-ink s h = ap trim_end (trim_start-ink s h) ∙ trim_end-ink s h

digit-IsInk : (c : ℕ) → IsDigit c → IsInk c
digit-IsInk c h = ground arith

All-join : (s t : Text) → All IsInk s → All IsInk t → All IsInk (s ++ t)
All-join [] t h k = k
All-join (c ∷ s) t (p, h) k = (p, All-join s t h k)

strip_tick : (a b : ℕ) → pad_end 2 (strip_zeros (a ∷ b ∷ b'0' ∷ b'0' ∷ [])) ≡ a ∷ b ∷ []
strip_tick a b = ground arith

tick_digits :
    (n : ℕ)
    → n % 100 ≡ 0
    → fraction_digits n ≡ (b'0' + n / 1000 % 10) ∷ (b'0' + n / 100 % 10) ∷ b'0' ∷ b'0' ∷ []
tick_digits n h = ground arith

-- On the one-cent tick two fraction digits are left.
tick_fraction :
    (n : ℕ)
    → n % 100 ≡ 0
    → pad_end 2 (strip_zeros (fraction_digits n))
      ≡ (b'0' + n / 1000 % 10) ∷ (b'0' + n / 100 % 10) ∷ []
tick_fraction n h =
    ap (λ t. pad_end 2 (strip_zeros t)) (tick_digits n h)
    ∙ strip_tick (b'0' + n / 1000 % 10) (b'0' + n / 100 % 10)

-- Dollars, a point and two digits.
abbrev cent_digits : ℕ → Text
cent_digits n = (b'0' + n / 1000 % 10) ∷ (b'0' + n / 100 % 10) ∷ []

abbrev dollar_text : ℕ → Text
dollar_text n = decimal (n / 10000) ++ b'.' ∷ cent_digits n

tick_text : (cents : ℕ) → format_units (cents * 100) ≡ dollar_text (cents * 100)
tick_text cents =
    format_units_lem (cents * 100)
    ∙ ap (λ t. decimal (cents * 100 / 10000) ++ b'.' ∷ t)
        (tick_fraction (cents * 100) (omega arith))

dollar_text-IsInk : (n : ℕ) → All IsInk (dollar_text n)
dollar_text-IsInk n =
    All-join (decimal (n / 10000)) (b'.' ∷ cent_digits n)
      (All-map digit-IsInk (decimal (n / 10000)) (decimal-digits (n / 10000)).0)
      (
        refl,
        (
          digit-IsInk (b'0' + n / 1000 % 10) (omega arith),
          (digit-IsInk (b'0' + n / 100 % 10) (omega arith), tt),
        ),
      )

cents_value :
    (cents : ℕ) → cents ≡ value_of (decimal (cents * 100 / 10000) ++ cent_digits (cents * 100))
cents_value cents =
    let n = cents * 100 in
    let d = decimal (n / 10000) in
    let x = b'0' + n / 1000 % 10 in
    let y = b'0' + n / 100 % 10 in
    sym (
      ap value_of (sym (append_assoc d (x ∷ []) (y ∷ [])))
      ∙ value-snoc (d ++ x ∷ []) y 0
      ∙ omega (arith, value-snoc d x 0, value_of-decimal (n / 10000)))

tick-Spells :
    (cents : ℕ) → 0 < cents → cents * 100 ≤ max_safe → Spells (dollar_text (cents * 100)) cents
tick-Spells cents p h = record {
  dollars = decimal (cents * 100 / 10000);
  tail = b'.' ∷ cent_digits (cents * 100);
  two_digits = cent_digits (cents * 100);
  trimmed = trim-ink (dollar_text (cents * 100)) (dollar_text-IsInk (cents * 100));
  all_digits = (decimal-digits (cents * 100 / 10000)).0;
  some_digits = (decimal-digits (cents * 100 / 10000)).1;
  is_fraction = (refl, omega arith, omega arith, refl);
  value_is = cents_value cents;
  positive = p;
  safe = h;
}

-- Every price on the one-cent tick, positive and a safe integer, is parsed back from its display.
pub parse_price-format_price :
    (cents : ℕ)
    → 0 < cents
    → cents * 100 ≤ max_safe
    → parse_price (format_price (whole (pos (cents * 100)))) ≡ some (pos (cents * 100))
unfolding format_price
parse_price-format_price cents p h =
    ap parse_price (tick_text cents)
    ∙ (parse_price_iff (dollar_text (cents * 100)) (pos (cents * 100))).1
        (cents, tick-Spells cents p h, refl)

-- A number of cents that is displayed is read back as far as `parsePrice` lets it through.
pub parse-cents :
    (cents : ℕ)
    → parse_price (format_price (whole (pos (cents * 100)))) ≡ checked_units (cents * 100)
unfolding format_price
parse-cents cents =
    ap parse_price (tick_text cents)
    ∙ parse-joined (dollar_text (cents * 100)) (decimal (cents * 100 / 10000))
        (b'.' ∷ cent_digits (cents * 100)) (cent_digits (cents * 100))
        (trim-ink (dollar_text (cents * 100)) (dollar_text-IsInk (cents * 100)))
        (decimal-digits (cents * 100 / 10000)).0 (decimal-digits (cents * 100 / 10000)).1
        (refl, omega arith, omega arith, refl)
    ∙ ap (λ k. checked_units (k * 100)) (sym (cents_value cents))

-- The display of a number of cents: whole dollars, a point and two digits.
pub cents_shown :
    (cents : ℕ)
    → format_price (whole (pos (cents * 100)))
      ≡ decimal (cents / 100) ++ b'.' ∷ (b'0' + cents / 10 % 10) ∷ (b'0' + cents % 10) ∷ []
unfolding format_price
cents_shown cents =
    let e1 : cents * 100 / 10000 ≡ cents / 100 = omega arith in
    let e2 : cents * 100 / 1000 % 10 ≡ cents / 10 % 10 = omega arith in
    let e3 : cents * 100 / 100 % 10 ≡ cents % 10 = omega arith in
    tick_text cents ∙ rw (e1, e2, e3) refl
