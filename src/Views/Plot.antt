-- ===== src/Views/Plot.antt =====
-- components/PriceChart.tsx and DepthCurve.tsx: the scales of the two charts, in the units of their view
-- boxes.
mod Tests
pub mod Prices
pub mod Curve
pub mod Scale
pub mod Drawn
pub mod Order
pub mod Sorted
pub mod Ends
pub mod Bands
pub mod Domain
pub mod Heights
use low_latency_matching_eng.Prelude.{
  ℕ, ◌+◌, ◌/◌, ℤ, ◌-ℤ◌, pos_part, neg_part, eqb_ℤ, if◌then◌else◌,
}
use low_latency_matching_eng.Double.{
  Signed, to_double, to_double_ℤ, signed_quotient, signed_times, at, plus, less,
}

pub record Vertex : Type 0 where
  pub x : Signed
  pub y : Signed

-- `(v - low) / (high - low)`
abbrev pub share : ℤ → ℤ → ℤ → Signed
share low high v =
    let span = high -ℤ low in
    signed_quotient (to_double_ℤ (v -ℤ low)) (to_double (pos_part span + neg_part span))

-- `xOf` of both charts: from `left` over `width`; one value only is in the middle.
unfoldable pub x_on : ℕ → ℕ → ℤ → ℤ → ℤ → Signed
x_on left width low high v =
    if eqb_ℤ high low
    then at (left + width / 2)
    else plus left (signed_times (share low high v) width)

-- `yOf` of the price chart: upwards from the bottom, which is `height` below `top`.
unfoldable pub y_on : ℕ → ℕ → ℤ → ℤ → ℤ → Signed
y_on top height low high v =
    if eqb_ℤ high low
    then at (top + height / 2)
    else less (top + height) (signed_times (share low high v) height)
