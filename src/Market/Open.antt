-- ===== src/Market/Open.antt =====
-- ignition.ts: the price of an opening value, to the nearest cent.
use native.Mathlib.Nat.{div-add-mod', mod-lt, div-eq_of_lt-le}
use low_latency_matching_eng.Prelude.{
  ℕ, ◌+◌, ◌*◌, ◌^◌, ◌≤◌, ◌<◌, ◌==◌, dec_lt, if◌then◌else◌, ℤ, pos, negsuc, Option, none, some,
  none≢some, ◌⊎◌, inl, inr, ◌↔◌, ◌≡◌, refl, ap, sym, ◌∙◌, arith,
}
use low_latency_matching_eng.Double.Round.{pow_pos}
use low_latency_matching_eng.Protocol.Encode.{max_safe}
use low_latency_matching_eng.Format.Parse.{checked_units_sound, checked_units_complete}
use low_latency_matching_eng.Double.{Double, hundredths}
use low_latency_matching_eng.Protocol.Value.{
  whole, fractional, infinite, Value, undefined, null, boolean, number, string, array, object,
  Members, get,
}
use low_latency_matching_eng.Format.{parse_price, checked_units}
use low_latency_matching_eng.Format.Fixed.{to_fixed_2-format_price}
use low_latency_matching_eng.Format.RoundTrip.{parse-cents}
use low_latency_matching_eng.Market.{read, positive_value, price_of, parse_ignition_open}

-- What an opening value is worth: nothing if it is no positive number, and otherwise the price of the
-- nearest number of cents, if that is positive and a safe integer in units.
abbrev worth : Option Double → Option ℤ
worth none = none
worth (some x) = checked_units (hundredths x * 100)

price_of-worth : (o : Option Double) → price_of o ≡ worth o
unfolding price_of
price_of-worth none = refl
price_of-worth (some x) = ap parse_price (to_fixed_2-format_price x) ∙ parse-cents (hundredths x)

-- A number above zero that is the double `m` / 2^`k`: a whole one or a fraction.
abbrev pub IsPositiveDouble : Value → ℕ → ℕ → Type 0
IsPositiveDouble v m k =
    (0 < m) × ((v ≡ number (whole (pos m))) × (k ≡ 0) ⊎ (v ≡ number (fractional (pos m) k)))

-- The nearest number of cents to `m` / 2^`k` dollars, and the greater one of two.
abbrev pub IsNearestCents : ℕ → ℕ → ℕ → Type 0
IsNearestCents m k cents =
    (2 * (cents * 2 ^ k) ≤ 200 * m + 2 ^ k) × (200 * m < 2 * (cents * 2 ^ k) + 2 ^ k)

-- The price, in units, of a value that is the opening price in dollars.
pub record IsPriceOf (v : Value) (price : ℤ) : Type 0 where
  pub m : ℕ
  pub k : ℕ
  pub cents : ℕ
  pub is_double : IsPositiveDouble v m k
  pub nearest : IsNearestCents m k cents
  pub positive : 0 < cents
  pub safe : cents * 100 ≤ max_safe
  pub in_units : price ≡ pos (cents * 100)

-- The opening price of a snapshot: that of `o` in an object `dailyBar` of an object.
abbrev pub IsOpenOf : Value → ℤ → Type 0
IsOpenOf snapshot price =
    (ms : Members) × (bar : Members) × (snapshot ≡ object ms)
    × (get "dailyBar" ms ≡ object bar)
    × IsPriceOf (get "o" bar) price

hundredths_nearest : (m k : ℕ) → IsNearestCents m k (hundredths (record { m = m; k = k }))
unfolding hundredths
hundredths_nearest m k =
    let q = 2 * 2 ^ k in
    let split = div-add-mod' (200 * m + 2 ^ k) q in
    let rest = mod-lt (200 * m + 2 ^ k) {m = q} (omega (arith, pow_pos k)) in
    (omega (arith, split), omega (arith, split, rest))

nearest_hundredths :
    (m k cents : ℕ) → IsNearestCents m k cents → hundredths (record { m = m; k = k }) ≡ cents
unfolding hundredths
nearest_hundredths m k cents (low, high) =
    div-eq_of_lt-le {k = cents} (2 * 2 ^ k) {m = 200 * m + 2 ^ k} (omega (arith, low))
      (omega (arith, high))

number_sound :
    (v : Value) (m k : ℕ) (price : ℤ)
    → IsPositiveDouble v m k
    → price_of (some (record { m = m; k = k })) ≡ some price
    → IsPriceOf v price
number_sound v m k price d h =
    let x : Double = record { m = m; k = k } in
    let (units, positive, safe) =
      checked_units_sound (hundredths x * 100) price (sym (price_of-worth (some x)) ∙ h) in
    record {
      m = m;
      k = k;
      cents = hundredths x;
      is_double = d;
      nearest = hundredths_nearest m k;
      positive = omega (arith, positive);
      safe = safe;
      in_units = units;
    }

no_price : {price : ℤ} {A : Type 0} → price_of none ≡ some price → A
unfolding price_of
no_price h = absurd (none≢some h)

when_positive : (n : ℕ) (x : Double) → 0 < n → (if n == 0 then none else some x) ≡ some x
when_positive n x h = ground arith

when_zero : (n : ℕ) (x : Double) → n ≤ 0 → (if n == 0 then none else some x) ≡ none
when_zero n x h = ground arith

-- Only a numerator above zero passes the test.
tested :
    (n : ℕ) (x : Double) (price : ℤ)
    → price_of (if n == 0 then none else some x) ≡ some price
    → (0 < n) × (price_of (some x) ≡ some price)
tested n x price h = elim (dec_lt 0 n) [
  | yes p ↦ (p, sym (ap price_of (when_positive n x p)) ∙ h)
  | no p ↦ no_price (sym (ap price_of (when_zero n x (omega arith))) ∙ h)
]

price_sound : (v : Value) (price : ℤ) → price_of (positive_value v) ≡ some price → IsPriceOf v price
price_sound (number (whole (pos n))) price h =
    let (p, e) = tested n (record { m = n; k = 0 }) price h in
    number_sound _ n 0 price (p, inl (refl, refl)) e
price_sound (number (fractional (pos n) k)) price h =
    let (p, e) = tested n (record { m = n; k = k }) price h in
    number_sound _ n k price (p, inr refl) e
price_sound (number (whole (negsuc n))) price h = no_price h
price_sound (number (fractional (negsuc n) k)) price h = no_price h
price_sound (number infinite) price h = no_price h
price_sound undefined price h = no_price h
price_sound null price h = no_price h
price_sound (boolean b) price h = no_price h
price_sound (string s) price h = no_price h
price_sound (array is) price h = no_price h
price_sound (object ms) price h = no_price h

positive_value_lem :
    (v : Value) (m k : ℕ)
    → IsPositiveDouble v m k
    → positive_value v ≡ some (record { m = m; k = k })
positive_value_lem v m k (p, inl (e, z)) =
    ap positive_value e
    ∙ when_positive m (record { m = m; k = 0 }) p
    ∙ ap (λ i. some (record { m = m; k = i })) (sym z)
positive_value_lem v m k (p, inr e) =
    ap positive_value e ∙ when_positive m (record { m = m; k = k }) p

price_complete :
    (v : Value) (price : ℤ) → IsPriceOf v price → price_of (positive_value v) ≡ some price
price_complete v price h =
    ap price_of (positive_value_lem v h.m h.k h.is_double)
    ∙ price_of-worth (some (record { m = h.m; k = h.k }))
    ∙ ap (λ c. checked_units (c * 100)) (nearest_hundredths h.m h.k h.cents h.nearest)
    ∙ checked_units_complete (h.cents * 100) (omega (arith, h.positive)) h.safe
    ∙ ap some (sym h.in_units)

bar_sound :
    (v : Value) (price : ℤ)
    → price_of (positive_value (read "o" v)) ≡ some price
    → (bar : Members) × (v ≡ object bar) × IsPriceOf (get "o" bar) price
bar_sound (object bar) price h = (bar, refl, price_sound (get "o" bar) price h)
bar_sound undefined price h = no_price h
bar_sound null price h = no_price h
bar_sound (boolean b) price h = no_price h
bar_sound (number n) price h = no_price h
bar_sound (string s) price h = no_price h
bar_sound (array is) price h = no_price h

open_sound : (v : Value) (price : ℤ) → parse_ignition_open v ≡ some price → IsOpenOf v price
unfolding parse_ignition_open
open_sound (object ms) price h =
    let (bar, e, o) = bar_sound (get "dailyBar" ms) price h in (ms, bar, refl, e, o)
open_sound undefined price h = no_price h
open_sound null price h = no_price h
open_sound (boolean b) price h = no_price h
open_sound (number n) price h = no_price h
open_sound (string s) price h = no_price h
open_sound (array is) price h = no_price h

open_complete : (v : Value) (price : ℤ) → IsOpenOf v price → parse_ignition_open v ≡ some price
unfolding parse_ignition_open
open_complete v price (ms, bar, e, e', h) =
    ap (λ x. price_of (positive_value (read "o" (read "dailyBar" x)))) e
    ∙ ap (λ x. price_of (positive_value (read "o" x))) e'
    ∙ price_complete (get "o" bar) price h

-- For every snapshot, whatever its shape, and every price: the opening price is that price exactly if
-- the snapshot is an object whose `dailyBar` is an object whose `o` is a finite number above zero, and
-- the price is the number of cents nearest to it, the greater one of two, which is at least one cent and
-- in units a safe integer. So there is none for any other snapshot.
pub parse_ignition_open_iff :
    (snapshot : Value) (price : ℤ)
    → parse_ignition_open snapshot ≡ some price ↔ IsOpenOf snapshot price
parse_ignition_open_iff snapshot price = (open_sound snapshot price, open_complete snapshot price)
