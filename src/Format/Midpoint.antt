-- ===== src/Format/Midpoint.antt =====
-- format.ts: the midpoint as a number and as a text.
use low_latency_matching_eng.Prelude.{
  ℕ, ◌+◌, ◌*◌, ◌/◌, ◌<◌, ◌≤◌, Text, ℤ, pos, ◌+ℤ◌, Option, none, some, ◌≡◌, arith,
}
use low_latency_matching_eng.Protocol.Value.{Number, whole}
use low_latency_matching_eng.Format.{empty_price, midpoint_px, midpoint_label, format_price}

-- The text of an optional price.
abbrev pub label_of : Option Number → Text
label_of none = empty_price
label_of (some px) = format_price px

-- The label and the number come from one midpoint: the label is the text of the number where both
-- sides are real, and the dash where one is not.
pub midpoint_label-px :
    (best_bid best_ask : ℤ)
    → midpoint_label best_bid best_ask ≡ label_of (midpoint_px best_bid best_ask)
unfolding midpoint_label midpoint_px
midpoint_label-px best_bid best_ask = ground arith

-- Of two positive prices on the one-cent tick the midpoint is a whole number of units, between them,
-- and twice it is their sum.
pub midpoint_px-tick :
    (b a : ℕ)
    → 0 < b
    → b ≤ a
    → (m : ℕ) × (midpoint_px (pos (b * 100)) (pos (a * 100)) ≡ some (whole (pos m)))
      × (m + m ≡ b * 100 + a * 100)
      × (b * 100 ≤ m)
      × (m ≤ a * 100)
unfolding midpoint_px ◌+ℤ◌
midpoint_px-tick b a p q =
    ((b * 100 + a * 100) / 2, ground arith, omega arith, omega arith, omega arith)
