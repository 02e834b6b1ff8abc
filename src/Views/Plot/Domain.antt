-- ===== src/Views/Plot/Domain.antt =====
-- components/DepthCurve.tsx: the domain of the axes.
use low_latency_matching_eng.Prelude.{
  ◌≤ℤ◌, ltb_ℤ, eqb_ℤ, List, [], ◌∷◌, All, All-map, true, false, Bool-cases, inl, inr, ◌≡◌, refl,
  subst, if◌then◌else◌, arith,
}
use low_latency_matching_eng.Views.{CurvePoint}
use low_latency_matching_eng.Views.Anchors.{anchors_from, level_anchors}
use low_latency_matching_eng.Views.Plot.Curve.{Axes, axes_of}

-- In the domain of the axes.
unfoldable pub IsUnder : Axes → CurvePoint → Type 0
IsUnder axes p =
    (axes.x_min ≤ℤ p.price_px) × (p.price_px ≤ℤ axes.x_max) × (p.cum_qty ≤ℤ axes.max_cum)

axes_of-IsUnder :
    (a b : CurvePoint) (rest : List CurvePoint) (c : CurvePoint)
    → IsUnder (axes_of b rest) c
    → IsUnder (axes_of a (b ∷ rest)) c
unfolding axes_of IsUnder
axes_of-IsUnder a b rest c (l, h, t) = (ground arith, ground arith, ground arith)

pub all-IsUnder :
    (a : CurvePoint) (rest : List CurvePoint) → All (IsUnder (axes_of a rest)) (a ∷ rest)
unfolding axes_of IsUnder
all-IsUnder a [] = ((omega arith, omega arith, omega arith), tt)
all-IsUnder a (b ∷ rest) = (
  (ground arith, ground arith, ground arith),
  All-map (axes_of-IsUnder a b rest) (b ∷ rest) (all-IsUnder b rest),
)

-- What holds of the anchors holds of the vertices that they stand for.
merged-IsUnder :
    (axes : Axes) (a b : CurvePoint)
    → eqb_ℤ a.price_px b.price_px ≡ true
    → IsUnder axes (if ltb_ℤ a.cum_qty b.cum_qty then b else a)
    → IsUnder axes a × IsUnder axes b
unfolding IsUnder
merged-IsUnder axes a b e h = elim (Bool-cases (ltb_ℤ a.cum_qty b.cum_qty)) [
  | inl y ↦
      let (l, h', t) = subst (λ c. IsUnder axes (if c then b else a)) y h in
      ((ground arith, ground arith, ground arith), (l, h', t))
  | inr n ↦
      let (l, h', t) = subst (λ c. IsUnder axes (if c then b else a)) n h in
      ((l, h', t), (ground arith, ground arith, ground arith))
]

from-IsUnder :
    (axes : Axes) (last : CurvePoint) (ps : List CurvePoint)
    → All (IsUnder axes) (anchors_from last ps)
    → All (IsUnder axes) (last ∷ ps)
unfolding anchors_from
from-IsUnder axes last [] h = h
from-IsUnder axes last (p ∷ rest) h = elim (Bool-cases (eqb_ℤ last.price_px p.price_px)) [
  | inl y ↦
      let kept = if ltb_ℤ last.cum_qty p.cum_qty then p else last in
      let (at_kept, later) = from-IsUnder axes kept rest (subst (All (IsUnder axes)) (same y) h) in
      let (a, b) = merged-IsUnder axes last p y at_kept in (a, (b, later))
  | inr n ↦
      let (a, later) = subst (All (IsUnder axes)) (apart n) h in (a, from-IsUnder axes p rest later)
]
  where
    same :
        eqb_ℤ last.price_px p.price_px ≡ true
        → anchors_from last (p ∷ rest)
          ≡ anchors_from (if ltb_ℤ last.cum_qty p.cum_qty then p else last) rest
    same y = rw y refl

    apart :
        eqb_ℤ last.price_px p.price_px ≡ false
        → anchors_from last (p ∷ rest) ≡ last ∷ anchors_from p rest
    apart n = rw n refl

pub level-IsUnder :
    (axes : Axes) (ps : List CurvePoint)
    → All (IsUnder axes) (level_anchors ps)
    → All (IsUnder axes) ps
unfolding level_anchors
level-IsUnder axes [] h = tt
level-IsUnder axes (p ∷ rest) h = from-IsUnder axes p rest h
