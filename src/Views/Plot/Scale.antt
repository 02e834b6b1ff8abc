-- ===== src/Views/Plot/Scale.antt =====
-- The scales of the two charts: what is in the domain is in the plot.
use native.Mathlib.Nat.{mul-le-mul_right, mul_comm, add-mul}
use low_latency_matching_eng.Prelude.{
  ℕ, ◌+◌, ◌-◌, ◌*◌, ◌/◌, ◌^◌, ◌≤◌, ◌<◌, ℤ, pos, pos_part, neg_part, ◌-ℤ◌, ◌≤ℤ◌, -ℤ_parts,
  eq_of_parts, leb, eqb_ℤ, Bool-cases, inl, inr, true, false, ◌≡◌, refl, sym, subst, arith,
}
use low_latency_matching_eng.Double.{
  Signed, to_double, signed_quotient, signed_times, times, at, plus, less,
}
use low_latency_matching_eng.Double.Round.{quotient-le_one}
use low_latency_matching_eng.Double.Order.{to_double-le, le-to_double, to_double_mono}
use low_latency_matching_eng.Views.Plot.{share, x_on, y_on}

-- A number of at least zero, from `low` to `high`.
pub record IsInside (low high : ℕ) (x : Signed) : Type 0 where
  pub not_negative : x.negative ≡ false
  pub not_below : low * 2 ^ x.size.k ≤ x.size.m
  pub not_above : x.size.m ≤ high * 2 ^ x.size.k

-- A part of the whole, rounded: at least zero and at most one.
pub record IsShare (x : Signed) : Type 0 where
  pub not_negative : x.negative ≡ false
  pub at_most_one : x.size.m ≤ 2 ^ x.size.k

pub gap : ℤ → ℤ → ℕ
gap low v = pos_part v + neg_part low - (pos_part low + neg_part v)

pub gap_self : (low : ℤ) → gap low low ≡ 0
unfolding gap
gap_self low = omega arith

pub from_low : (low v : ℤ) → low ≤ℤ v → v -ℤ low ≡ pos (gap low v)
unfolding gap
from_low low v h = eq_of_parts (v -ℤ low) (pos (gap low v)) (omega (arith, -ℤ_parts v low))

pub quotient-IsShare : (n d : ℕ) → 0 < d → n ≤ d → IsShare (signed_quotient (pos n) d)
quotient-IsShare n d p h = record { not_negative = refl; at_most_one = quotient-le_one n d p h }

-- A whole number that is not zero is not rounded to zero.
pub to_double-pos : (n : ℕ) → 0 < n → 0 < to_double n
to_double-pos n h = omega (arith, le-to_double n 1 0 (omega arith) (omega arith))

pub apart_gap : (low high : ℤ) → low ≤ℤ high → eqb_ℤ high low ≡ false → 0 < gap low high + 0
unfolding gap
apart_gap low high h apart = ground arith

pub gap_mono : (low v w : ℤ) → v ≤ℤ w → gap low v ≤ gap low w
unfolding gap
gap_mono low v w h = omega arith

-- The part of the domain that lies below one of its values.
pub share-IsShare :
    (low high v : ℤ) → low ≤ℤ v → v ≤ℤ high → eqb_ℤ high low ≡ false → IsShare (share low high v)
share-IsShare low high v a b apart =
    rw (from_low low v a, from_low low high (omega arith))
      (quotient-IsShare (to_double (gap low v)) (to_double (gap low high + 0))
        (to_double-pos (gap low high + 0) (apart_gap low high (omega arith) apart))
        (to_double_mono (gap low v) (gap low high + 0) (omega (arith, gap_mono low v high b))))

abbrev pub unsigned : ℕ → ℕ → Signed
unsigned m k = record { negative = false; size = record { m = m; k = k } }

pub plus_lem :
    (c : ℕ) (x : Signed)
    → x.negative ≡ false
    → plus c x ≡ unsigned (to_double (c * 2 ^ x.size.k + x.size.m)) x.size.k
unfolding plus
plus_lem c x h = rw h refl

pub less_lem :
    (c : ℕ) (x : Signed)
    → x.negative ≡ false
    → x.size.m ≤ c * 2 ^ x.size.k
    → less c x ≡ unsigned (to_double (c * 2 ^ x.size.k - x.size.m)) x.size.k
unfolding less plus
less_lem c x h le = rw h (rw (le→leb le) refl)
  where
    le→leb : {a b : ℕ} → a ≤ b → leb a b ≡ true
    le→leb p = ground arith

-- A share times a width is at most the width.
pub times-le :
    (width : ℕ) (x : Signed)
    → width ≤ 2 ^ 53
    → IsShare x
    → (signed_times x width).size.m ≤ width * 2 ^ x.size.k
unfolding times
times-le width x small h =
    to_double-le (x.size.m * width) width x.size.k small
      (omega (arith, mul-le-mul_right width h.at_most_one, mul_comm (2 ^ x.size.k) width))

-- A share of a width, behind the left edge.
pub plus-IsInside :
    (left width : ℕ) (x : Signed)
    → left + width ≤ 2 ^ 53
    → IsShare x
    → IsInside left (left + width) (plus left (signed_times x width))
unfolding times
plus-IsInside left width x small h =
    let k = x.size.k in
    let t = (signed_times x width).size.m in
    let le = times-le width x (omega (arith, small)) h in
    subst (IsInside left (left + width)) (sym (plus_lem left (signed_times x width) h.not_negative))
      (record {
        not_negative = refl;
        not_below = le-to_double (left * 2 ^ k + t) left k (omega (arith, small)) (omega arith);
        not_above =
            to_double-le (left * 2 ^ k + t) (left + width) k small
              (omega (arith, le, add-mul left width (2 ^ k)));
      })

-- A share of a height, above the bottom.
pub less-IsInside :
    (top height : ℕ) (x : Signed)
    → top + height ≤ 2 ^ 53
    → IsShare x
    → IsInside top (top + height) (less (top + height) (signed_times x height))
unfolding times
less-IsInside top height x small h =
    let k = x.size.k in
    let t = (signed_times x height).size.m in
    let le = times-le height x (omega (arith, small)) h in
    let both = add-mul top height (2 ^ k) in
    let bottom = top + height in
    subst (IsInside top bottom)
      (sym (less_lem bottom (signed_times x height) h.not_negative (omega (arith, le, both))))
      (record {
        not_negative = refl;
        not_below =
            le-to_double (bottom * 2 ^ k - t) top k (omega (arith, small))
              (omega (arith, le, both));
        not_above = to_double-le (bottom * 2 ^ k - t) bottom k small (omega arith);
      })

at-IsInside : (low high c : ℕ) → low ≤ c → c ≤ high → IsInside low high (at c)
at-IsInside low high c a b = record {
  not_negative = refl;
  not_below = omega (arith, a);
  not_above = omega (arith, b);
}

module _ (from span : ℕ) (small : from + span ≤ 2 ^ 53) (low high v : ℤ) (a : low ≤ℤ v)
    (b : v ≤ℤ high) where
  -- A value of the domain is drawn in the plot, on either axis.
  pub x_on-IsInside : IsInside from (from + span) (x_on from span low high v)
  unfolding x_on
  x_on-IsInside = elim (Bool-cases (eqb_ℤ high low)) [
    | inl y ↦ rw y (at-IsInside from (from + span) (from + span / 2) (omega arith) (omega arith))
    | inr n ↦
        rw n (plus-IsInside from span (share low high v) small (share-IsShare low high v a b n))
  ]

  pub y_on-IsInside : IsInside from (from + span) (y_on from span low high v)
  unfolding y_on
  y_on-IsInside = elim (Bool-cases (eqb_ℤ high low)) [
    | inl y ↦ rw y (at-IsInside from (from + span) (from + span / 2) (omega arith) (omega arith))
    | inr n ↦
        rw n (less-IsInside from span (share low high v) small (share-IsShare low high v a b n))
  ]
