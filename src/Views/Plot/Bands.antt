-- ===== src/Views/Plot/Bands.antt =====
-- components/DepthCurve.tsx: its click bands.
use low_latency_matching_eng.Prelude.{
  ℕ, ◌≤◌, ◌<◌, length, ◌≤ℤ◌, leb, List, [], ◌∷◌, Option, none, some, All, All-map, true, false, ◌≡◌,
  refl, arith,
}
use low_latency_matching_eng.Double.{Signed, at, minus, at_least_zero}
use low_latency_matching_eng.Double.Compare.{◌⊑◌, ⊑_trans}
use low_latency_matching_eng.State.Model.{BookState}
use low_latency_matching_eng.Views.{CurvePoint}
use low_latency_matching_eng.Views.Anchors.{anchors_of}
use low_latency_matching_eng.Views.Plot.Scale.{x_on-IsInside}
use low_latency_matching_eng.Views.Plot.Order.{
  IsPlace, IsBetween, x_on-IsPlace, x_on_mono, half_sum-IsBetween, at-IsPlace,
}
use low_latency_matching_eng.Views.Plot.Sorted.{IsSorted, sorted-IsSorted, sorted-All, sorted_some}
use low_latency_matching_eng.Views.Plot.Curve.{
  plot_left, plot_right, plot_w, Axes, axes_of, x_of, sorted, Band, right_of, left_of, bands_from,
  DepthCurveView, drawn, depth_curve,
}

-- One band for each level, the first from `edge`: each has the price of its level, ends where the next
-- one begins, is as wide as the distance of its two ends, and holds the place of its level. The last
-- one ends at the right edge of the plot.
abbrev pub IsTiling : Axes → Signed → List CurvePoint → List Band → Type 0
IsTiling axes edge [] [] = edge ≡ at plot_right
IsTiling axes edge (a ∷ rest) (b ∷ bands) =
    (b.price_px ≡ a.price_px)
    × (b.left ≡ edge)
    × (edge.size ⊑ (x_of axes a.price_px).size)
    × ((next : Signed) × ((x_of axes a.price_px).size ⊑ next.size)
        × (b.width ≡ minus next edge)
        × IsTiling axes next rest bands)
IsTiling axes edge _ _ = ⊥

IsOnAxis : Axes → CurvePoint → Type 0
IsOnAxis axes a = (axes.x_min ≤ℤ a.price_px) × (a.price_px ≤ℤ axes.x_max)

widened :
    (a b : CurvePoint) (rest : List CurvePoint) (c : CurvePoint)
    → IsOnAxis (axes_of b rest) c
    → IsOnAxis (axes_of a (b ∷ rest)) c
unfolding axes_of IsOnAxis
widened a b rest c (l, h) = (ground arith, ground arith)

all-IsOnAxis :
    (a : CurvePoint) (rest : List CurvePoint) → All (IsOnAxis (axes_of a rest)) (a ∷ rest)
unfolding axes_of IsOnAxis
all-IsOnAxis a [] = ((omega arith, omega arith), tt)
all-IsOnAxis a (b ∷ rest) =
    ((ground arith, ground arith), All-map (widened a b rest) (b ∷ rest) (all-IsOnAxis b rest))

-- Without the sign of the difference there is nothing to cut off.
minus_kept :
    (x y : Signed)
    → x.negative ≡ false
    → y.negative ≡ false
    → y.size ⊑ x.size
    → at_least_zero (minus x y) ≡ minus x y
unfolding minus
minus_kept x y p q h = rw (p, q) (rw (le→leb h) refl)
  where
    le→leb : {a b : ℕ} → a ≤ b → leb a b ≡ true
    le→leb k = ground arith

module _ (axes : Axes) where
  place : (a : CurvePoint) → IsOnAxis axes a → IsPlace (x_of axes a.price_px)
  unfolding IsOnAxis
  place a (l, h) = x_on-IsPlace plot_left plot_w (omega arith) axes.x_min axes.x_max a.price_px l h

  -- The left end of a band is a double that is not to the right of the level.
  IsLeftEnd : Signed → CurvePoint → Type 0
  IsLeftEnd edge a = IsPlace edge × (edge.size ⊑ (x_of axes a.price_px).size)

  levels-IsBetween :
      (a b : CurvePoint)
      → IsOnAxis axes a
      → IsOnAxis axes b
      → a.price_px ≤ℤ b.price_px
      → IsBetween (x_of axes a.price_px) (x_of axes b.price_px) (right_of axes a (b ∷ []))
  unfolding IsOnAxis
  levels-IsBetween a b p q h =
      half_sum-IsBetween (x_of axes a.price_px) (x_of axes b.price_px) (place a p) (place b q) (
        x_on_mono plot_left plot_w (omega arith) axes.x_min axes.x_max a.price_px b.price_px p.0 h
          q.1)

  tiles :
      (before : Option CurvePoint) (a : CurvePoint) (rest : List CurvePoint)
      → All (IsOnAxis axes) (a ∷ rest)
      → IsSorted (a ∷ rest)
      → IsLeftEnd (left_of axes before a) a
      → IsTiling axes (left_of axes before a) (a ∷ rest) (bands_from axes before (a ∷ rest))
  unfolding bands_from IsLeftEnd IsOnAxis
  tiles before a [] (p, h) s (e, le) =
      let x = x_of axes a.price_px in
      let left = left_of axes before a in
      let inside =
        x_on-IsInside plot_left plot_w (omega arith) axes.x_min axes.x_max a.price_px p.0 p.1 in
      let last : x.size ⊑ (at plot_right).size = omega (arith, inside.not_above) in
      let wide = ⊑_trans left.size x.size (at plot_right).size le last in
      (
        refl,
        refl,
        le,
        (at plot_right, last, minus_kept (at plot_right) left refl e.not_negative wide, refl),
      )
  tiles before a (b ∷ rest) (p, (q, h)) (o, s) (e, le) =
      let mid = levels-IsBetween a b p q o in
      let x = x_of axes a.price_px in
      let left = left_of axes before a in
      let next = right_of axes a (b ∷ []) in
      let wide = ⊑_trans left.size x.size next.size le mid.right_of in
      (
        refl,
        refl,
        le,
        (
          next,
          mid.right_of,
          minus_kept next left mid.place.not_negative e.not_negative wide,
          tiles (some a) b rest (q, h) s (mid.place, mid.left_of),
        ),
      )

  all-IsTiling :
      (xs : List CurvePoint)
      → 0 < length xs
      → All (IsOnAxis axes) xs
      → IsSorted xs
      → IsTiling axes (at plot_left) xs (bands_from axes none xs)
  unfolding IsLeftEnd IsOnAxis
  all-IsTiling [] l h s = absurd (omega arith)
  all-IsTiling (a ∷ rest) l (p, h) s =
      let inside =
        x_on-IsInside plot_left plot_w (omega arith) axes.x_min axes.x_max a.price_px p.0 p.1 in
      tiles none a rest (p, h) s
        (at-IsPlace plot_left (omega arith), omega (arith, inside.not_below))

-- The curve of a book with these anchors, and its bands over the sorted ones.
abbrev pub IsBanded : List CurvePoint → Option DepthCurveView → Type 0
IsBanded [] r = r ≡ none
IsBanded (a ∷ rest) r =
    (view : DepthCurveView) × (r ≡ some view)
    × IsTiling (axes_of a rest) (at plot_left) (sorted (a ∷ rest)) view.bands

drawn-IsBanded :
    (book : BookState) (depth : Option ℕ) (anchors : List CurvePoint)
    → IsBanded anchors (drawn book depth anchors)
unfolding drawn
drawn-IsBanded book depth [] = refl
drawn-IsBanded book depth (a ∷ rest) = (
  _,
  refl,
  all-IsTiling (axes_of a rest) (sorted (a ∷ rest)) (sorted_some a rest)
      (sorted-All (IsOnAxis (axes_of a rest)) (a ∷ rest) (all-IsOnAxis a rest))
      (sorted-IsSorted (a ∷ rest)),
)

-- The click bands of every book with a level tile the plot, from its left edge to its right edge: there is
-- one band for each level, ordered by price; each ends where the next one begins, none has a negative
-- width that would be cut off, and each holds the place of its level, so a click there selects the
-- level's own price. A book without a level has the empty frame.
pub depth_curve-IsBanded :
    (book : BookState) (depth : Option ℕ)
    → IsBanded (anchors_of book depth) (depth_curve book depth)
unfolding depth_curve
depth_curve-IsBanded book depth = drawn-IsBanded book depth (anchors_of book depth)
