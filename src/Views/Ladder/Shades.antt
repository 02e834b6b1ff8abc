-- ===== src/Views/Ladder/Shades.antt =====
-- DepthLadder.tsx, `buildLadder`: the bars.
use low_latency_matching_eng.Prelude.{
  ◌+◌, ◌*◌, ◌≤◌, ◌^◌, ℤ, pos, ◌≤ℤ◌, ◌<ℤ◌, pos_part, List, All, All-map, false, ◌≡◌, arith,
}
use low_latency_matching_eng.Double.{Double, Signed}
use low_latency_matching_eng.Views.{CumLevel}
use low_latency_matching_eng.Views.Ladder.{LadderRow}

-- A size in percent, of a quantity out of the greatest one: at most 2^-44 away from the exact value.
abbrev pub IsPercentOf : ℤ → ℤ → Double → Type 0
IsPercentOf most cum x =
    (2 ^ 44 * (x.m * pos_part most)
      ≤ 2 ^ 44 * (100 * (pos_part cum * 2 ^ x.k)) + pos_part most * 2 ^ x.k)
    × (2 ^ 44 * (100 * (pos_part cum * 2 ^ x.k))
        ≤ 2 ^ 44 * (x.m * pos_part most) + pos_part most * 2 ^ x.k)

-- The shade is between nothing and one, and is one at the shared maximum.
abbrev pub IsShade : ℤ → ℤ → Signed → Type 0
IsShade most cum x =
    (x.negative ≡ false)
    × (x.size.m ≤ 2 ^ x.size.k)
    × (pos 0 <ℤ most → cum ≡ most → x.size.m ≡ 2 ^ x.size.k)

-- The width of the bar is between nothing and 100 percent, is 100 at the shared maximum, and is at most
-- 2^-44 away from the exact percentage.
abbrev pub IsWidth : ℤ → ℤ → Signed → Type 0
IsWidth most cum x =
    (x.negative ≡ false)
    × (x.size.m ≤ 100 * 2 ^ x.size.k)
    × (pos 0 <ℤ most → cum ≡ most → x.size.m ≡ 100 * 2 ^ x.size.k)
    × IsPercentOf most cum x.size

-- A row with its bar.
pub record IsBar (most : ℤ) (r : LadderRow) : Type 0 where
  pub shade : IsShade most r.cum_qty r.shade_fraction
  pub width : IsWidth most r.cum_qty r.width_pct

IsWithin : ℤ → CumLevel → Type 0
IsWithin most c = (pos 0 ≤ℤ c.cum_qty) × (c.cum_qty ≤ℤ most)

widen :
    (most more : ℤ) (cs : List CumLevel)
    → most ≤ℤ more
    → All (IsWithin most) cs
    → All (IsWithin more) cs
unfolding IsWithin
widen most more cs le h = All-map (λ c (a, b). (a, omega arith)) cs h
