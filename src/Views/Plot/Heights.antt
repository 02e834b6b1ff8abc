-- ===== src/Views/Plot/Heights.antt =====
-- components/DepthCurve.tsx: where its lines and areas are drawn.
use low_latency_matching_eng.Prelude.{
  ℕ, ◌≤◌, ◌<◌, ℤ, pos, negsuc, pos_part, ◌≤ℤ◌, leb_ℤ, List, [], ◌∷◌, ◌++◌, Option, none, some, All,
  All-take, All-append_left, All-append_right, false, Bool-cases, inl, inr, ◌≡◌, refl, sym, subst,
  arith,
}
use low_latency_matching_eng.Double.{signed_quotient}
use low_latency_matching_eng.Protocol.Frames.{Level}
use low_latency_matching_eng.State.Model.{BookState}
use low_latency_matching_eng.Views.{CurvePoint, nearest, build_depth_curve, step_corners, cumulate}
use low_latency_matching_eng.Views.Depth.{IsSized, IsRising, step_corners-cumulate}
use low_latency_matching_eng.Views.Anchors.{level_anchors, anchors_of}
use low_latency_matching_eng.Views.Plot.{Vertex}
use low_latency_matching_eng.Views.Plot.Scale.{
  IsInside, quotient-IsShare, less-IsInside, x_on-IsInside,
}
use low_latency_matching_eng.Views.Plot.Domain.{IsUnder, all-IsUnder, level-IsUnder}
use low_latency_matching_eng.Views.Plot.Curve.{
  plot_left, plot_right, plot_w, plot_top, plot_bottom, plot_h, Axes, axes_of, x_of, y_of,
  vertex_of, polyline, on_baseline, last_of, area, DepthCurveView, drawn, depth_curve,
}

above : (a : ℤ) → leb_ℤ a (pos 0) ≡ false → 0 < pos_part a
above a h = ground arith

at_most : (n : ℕ) (a : ℤ) → pos n ≤ℤ a → n ≤ pos_part a
at_most n a h = omega arith

height-IsInside :
    (axes : Axes) (cum : ℤ)
    → pos 0 ≤ℤ cum
    → cum ≤ℤ axes.max_cum
    → IsInside plot_top plot_bottom (y_of axes cum)
unfolding y_of
height-IsInside axes (negsuc n) l h = absurd (omega arith)
height-IsInside axes (pos n) l h = elim (Bool-cases (leb_ℤ axes.max_cum (pos 0))) [
  | inl y ↦ rw y (record { not_negative = refl; not_below = omega arith; not_above = omega arith })
  | inr k ↦ rw k (
      less-IsInside plot_top plot_h (signed_quotient (pos n) (pos_part axes.max_cum)) (omega arith)
        (quotient-IsShare n (pos_part axes.max_cum) (above axes.max_cum k)
          (at_most n axes.max_cum h)))
]

-- A vertex in the plot area.
pub record IsInPlot (v : Vertex) : Type 0 where
  pub across : IsInside plot_left plot_right v.x
  pub upright : IsInside plot_top plot_bottom v.y

-- All that is drawn of the two sides.
pub record IsContained (view : DepthCurveView) : Type 0 where
  pub bid_line : All IsInPlot view.bid_line
  pub ask_line : All IsInPlot view.ask_line
  pub bid_area : All IsInPlot view.bid_area
  pub ask_area : All IsInPlot view.ask_area

rising-IsSized :
    (low : ℤ) (ps : List CurvePoint)
    → pos 0 ≤ℤ low
    → IsRising low ps
    → All (λ p. pos 0 ≤ℤ p.cum_qty) ps
rising-IsSized low [] h r = tt
rising-IsSized low (p ∷ rest) h (u, r) =
    let up : pos 0 ≤ℤ p.cum_qty = omega arith in (up, rising-IsSized p.cum_qty rest up r)

module _ (axes : Axes) where
  -- In the domain, and not below the baseline.
  IsPlotted : CurvePoint → Type 0
  IsPlotted p = IsUnder axes p × (pos 0 ≤ℤ p.cum_qty)

  all-IsPlotted :
      (ps : List CurvePoint)
      → All (IsUnder axes) ps
      → All (λ p. pos 0 ≤ℤ p.cum_qty) ps
      → All IsPlotted ps
  unfolding IsPlotted
  all-IsPlotted [] h g = tt
  all-IsPlotted (p ∷ rest) (u, h) (l, g) = ((u, l), all-IsPlotted rest h g)

  place : (p : CurvePoint) → IsPlotted p → IsInside plot_left plot_right (x_of axes p.price_px)
  unfolding IsPlotted IsUnder
  place p ((l, h, t), z) =
      x_on-IsInside plot_left plot_w (omega arith) axes.x_min axes.x_max p.price_px l h

  vertex-IsInPlot : (p : CurvePoint) → IsPlotted p → IsInPlot (vertex_of axes p)
  unfolding IsPlotted IsUnder
  vertex-IsInPlot p ((l, h, t), z) = record {
    across = place p ((l, h, t), z);
    upright = height-IsInside axes p.cum_qty z t;
  }

  line-IsInPlot : (ps : List CurvePoint) → All IsPlotted ps → All IsInPlot (polyline axes ps)
  line-IsInPlot [] h = tt
  line-IsInPlot (p ∷ rest) (q, h) = (vertex-IsInPlot p q, line-IsInPlot rest h)

  end-IsInPlot : (p : CurvePoint) → IsPlotted p → IsInPlot (on_baseline axes p)
  end-IsInPlot p q = record {
    across = place p q;
    upright = record { not_negative = refl; not_below = omega arith; not_above = omega arith };
  }

  last-IsPlotted :
      (p : CurvePoint) (rest : List CurvePoint)
      → All IsPlotted (p ∷ rest)
      → IsPlotted (last_of p rest)
  last-IsPlotted p [] (q, h) = q
  last-IsPlotted p (r ∷ rest) (q, h) = last-IsPlotted r rest h

  area-IsInPlot : (ps : List CurvePoint) → All IsPlotted ps → All IsInPlot (area axes ps)
  unfolding area
  area-IsInPlot [] h = tt
  area-IsInPlot (p ∷ rest) (q, h) = (
    end-IsInPlot p q,
    All-append (polyline axes (p ∷ rest)) (on_baseline axes (last_of p rest) ∷ [])
        (line-IsInPlot (p ∷ rest) (q, h))
        (end-IsInPlot (last_of p rest) (last-IsPlotted p rest (q, h)), tt),
  )
    where
      All-append :
          (xs ys : List Vertex) → All IsInPlot xs → All IsInPlot ys → All IsInPlot (xs ++ ys)
      All-append [] ys a b = b
      All-append (x ∷ xs) ys (q, a) b = (q, All-append xs ys a b)

  side-IsPlotted :
      (levels : List Level)
      → All IsSized levels
      → All (IsUnder axes) (level_anchors (step_corners (cumulate levels)))
      → All IsPlotted (step_corners (cumulate levels))
  side-IsPlotted levels s h =
      all-IsPlotted (step_corners (cumulate levels))
        (level-IsUnder axes (step_corners (cumulate levels)) h)
        (rising-IsSized (pos 0) (step_corners (cumulate levels)) (omega arith)
          (step_corners-cumulate levels s).1)

nearest-IsSized :
    (depth : Option ℕ) (levels : List Level)
    → All IsSized levels
    → All IsSized (nearest depth levels)
nearest-IsSized none levels h = h
nearest-IsSized (some d) levels h = All-take IsSized d levels h

-- The curve of a book with these anchors.
abbrev pub IsContainedCurve : List CurvePoint → Option DepthCurveView → Type 0
IsContainedCurve [] r = r ≡ none
IsContainedCurve (a ∷ rest) r = (view : DepthCurveView) × (r ≡ some view) × IsContained view

drawn-IsContained :
    (book : BookState) (depth : Option ℕ) (anchors : List CurvePoint)
    → anchors_of book depth ≡ anchors
    → All IsSized book.bids
    → All IsSized book.asks
    → IsContainedCurve anchors (drawn book depth anchors)
unfolding drawn build_depth_curve anchors_of
drawn-IsContained book depth [] e b a = refl
drawn-IsContained book depth (p ∷ rest) e b a =
    let axes = axes_of p rest in
    let bids = nearest depth book.bids in
    let asks = nearest depth book.asks in
    let near_bids = level_anchors (step_corners (cumulate bids)) in
    let near_asks = level_anchors (step_corners (cumulate asks)) in
    let all : All (IsUnder axes) (near_bids ++ near_asks) =
      subst (All (IsUnder axes)) (sym e) (all-IsUnder p rest) in
    let bid =
      side-IsPlotted axes bids (nearest-IsSized depth book.bids b)
        (All-append_left (IsUnder axes) near_bids near_asks all) in
    let ask =
      side-IsPlotted axes asks (nearest-IsSized depth book.asks a)
        (All-append_right (IsUnder axes) near_bids near_asks all) in
    (
      _,
      refl,
      record {
        bid_line = line-IsInPlot axes (step_corners (cumulate bids)) bid;
        ask_line = line-IsInPlot axes (step_corners (cumulate asks)) ask;
        bid_area = area-IsInPlot axes (step_corners (cumulate bids)) bid;
        ask_area = area-IsInPlot axes (step_corners (cumulate asks)) ask;
      },
    )

-- For every book whose quantities are not negative: the curve draws its lines and its filled areas
-- inside the plot, on both sides and at every depth; without a level it is the empty frame.
pub depth_curve-IsContained :
    (book : BookState) (depth : Option ℕ)
    → All IsSized book.bids
    → All IsSized book.asks
    → IsContainedCurve (anchors_of book depth) (depth_curve book depth)
unfolding depth_curve
depth_curve-IsContained book depth b a =
    drawn-IsContained book depth (anchors_of book depth) refl b a
