-- ===== src/Views/Depth.antt =====
-- depth.ts: the vertices of the depth curve.
use low_latency_matching_eng.Prelude.{
  ℕ, ◌*◌, ◌-◌, ℤ, pos, ◌+ℤ◌, ◌≤ℤ◌, +ℤ_parts, List, [], ◌∷◌, length, All, ◌≡◌, refl, arith,
}
use low_latency_matching_eng.Protocol.Frames.{Level}
use low_latency_matching_eng.Views.{
  cumulate, cumulate_from, CurvePoint, corners_after, step_corners,
}

abbrev pub IsSized : Level → Type 0
IsSized l = pos 0 ≤ℤ l.qty

-- No vertex is lower than the one before it, the first not lower than `low`.
abbrev pub IsRising : ℤ → List CurvePoint → Type 0
IsRising low [] = Unit
IsRising low (p ∷ rest) = (low ≤ℤ p.cum_qty) × IsRising p.cum_qty rest

-- The height at the end of a curve that starts at `low`.
abbrev pub end_height : ℤ → List CurvePoint → ℤ
end_height low [] = low
end_height low (p ∷ rest) = end_height p.cum_qty rest

-- `low` and all quantities.
abbrev pub depth_of : ℤ → List Level → ℤ
depth_of low [] = low
depth_of low (l ∷ rest) = depth_of (low +ℤ l.qty) rest

abbrev pub corner_count : ℕ → ℕ
corner_count n = 2 * n - 1

≤ℤ_refl : (a : ℤ) → a ≤ℤ a
≤ℤ_refl a = omega arith

≤ℤ_plus : (a b : ℤ) → pos 0 ≤ℤ b → a ≤ℤ a +ℤ b
≤ℤ_plus a b h = omega (arith, +ℤ_parts a b)

pub after-IsRising :
    (low : ℤ) (levels : List Level)
    → All IsSized levels
    → IsRising low (corners_after low (cumulate_from low levels))
unfolding corners_after cumulate_from
after-IsRising low [] h = tt
after-IsRising low (l ∷ rest) (s, h) =
    (≤ℤ_refl low, (≤ℤ_plus low l.qty s, after-IsRising (low +ℤ l.qty) rest h))

after-height :
    (low : ℤ) (levels : List Level)
    → end_height low (corners_after low (cumulate_from low levels)) ≡ depth_of low levels
unfolding corners_after cumulate_from
after-height low [] = refl
after-height low (l ∷ rest) = after-height (low +ℤ l.qty) rest

after-length :
    (low from : ℤ) (levels : List Level)
    → length (corners_after low (cumulate_from from levels)) ≡ 2 * length levels
unfolding corners_after cumulate_from
after-length low from [] = refl
after-length low from (l ∷ rest) = omega (arith, after-length (from +ℤ l.qty) (from +ℤ l.qty) rest)

-- A side of levels with quantities of at least zero becomes a staircase: two vertices for each level
-- but the first, which has one; heights that never fall; and the total quantity at the end.
pub step_corners-cumulate :
    (levels : List Level)
    → All IsSized levels
    → (length (step_corners (cumulate levels)) ≡ corner_count (length levels))
      × IsRising (pos 0) (step_corners (cumulate levels))
      × (end_height (pos 0) (step_corners (cumulate levels)) ≡ depth_of (pos 0) levels)
unfolding step_corners cumulate cumulate_from
step_corners-cumulate [] h = (refl, tt, refl)
step_corners-cumulate (l ∷ rest) (s, h) = (
  omega (arith, after-length (pos 0 +ℤ l.qty) (pos 0 +ℤ l.qty) rest),
  (≤ℤ_plus (pos 0) l.qty s, after-IsRising (pos 0 +ℤ l.qty) rest h),
  after-height (pos 0 +ℤ l.qty) rest,
)
