-- ===== src/Views/Plot/Drawn.antt =====
-- components/PriceChart.tsx: where its marks are drawn.
use low_latency_matching_eng.Prelude.{
  ℕ, ◌+◌, ◌/◌, ◌≤◌, ◌<◌, ℤ, pos, ◌≤ℤ◌, leb_ℤ, eqb_ℤ, ltb_ℤ, List, [], ◌∷◌, map, Option, none, some,
  All, Bool, true, false, ◌&&◌, ◌≡◌, refl, if◌then◌else◌, arith,
}
use low_latency_matching_eng.State.Model.{TapeEntry}
use low_latency_matching_eng.Views.{
  PricePoint, Bounds, first_bounds, widen_all, series_of, build_price_series, point_of, points_of,
}
use low_latency_matching_eng.Views.Series.{IsWithin, first-AreBoundsOf}
use low_latency_matching_eng.Views.Anchors.{reference}
use low_latency_matching_eng.Views.Plot.{Vertex}
use low_latency_matching_eng.Views.Plot.Prices.{
  plot_left, plot_right, plot_top, plot_bottom, plot_w, plot_h, Axes, y_of, vertex_of,
  PriceChartView, line_of, last_of, ref_line, price_label, time_label, RefLine, PriceLabel,
  TimeLabel, view_w, view_h, view_of, plotted, price_chart,
}
use low_latency_matching_eng.Views.Plot.Scale.{IsInside, x_on-IsInside, y_on-IsInside}

-- A vertex in the plot area.
pub record IsInPlot (v : Vertex) : Type 0 where
  pub across : IsInside plot_left plot_right v.x
  pub upright : IsInside plot_top plot_bottom v.y

-- A line across the whole plot area.
abbrev IsDrawn : Option RefLine → Type 0
IsDrawn none = Unit
IsDrawn (some l) = (l.x1 ≡ plot_left) × (l.x2 ≡ plot_right) × IsInside plot_top plot_bottom l.y

-- The anchor of a price is in the margin at the right of the plot area, at a height of that area; the
-- anchor of a time is in the margin below it, at a place of its width.
abbrev IsBeside : PriceLabel → Type 0
IsBeside l = (plot_right < l.x) × (l.x < view_w) × IsInside plot_top plot_bottom l.y

abbrev IsBelow : TimeLabel → Type 0
IsBelow l = (plot_left ≤ l.x) × (l.x ≤ plot_right) × (plot_bottom < l.y) × (l.y < view_h)

-- Every mark of the chart is in the plot area, and every label in its margin of the frame.
pub record IsContained (view : PriceChartView) : Type 0 where
  pub line : All IsInPlot view.line
  pub last : IsInPlot view.last
  pub session_ref : IsDrawn view.session_ref
  pub market_ref : IsDrawn view.market_ref
  pub y_labels : All IsBeside view.y_labels
  pub x_labels : All IsBelow view.x_labels

abbrev axes_of : Bounds → Axes
axes_of b = record { t_min = b.t_min; t_max = b.t_max; c_min = b.c_min; c_max = b.c_max }

price-IsInside :
    (b : Bounds) (px : ℤ)
    → b.c_min ≤ℤ px
    → px ≤ℤ b.c_max
    → IsInside plot_top plot_bottom (y_of (axes_of b) px)
price-IsInside b px l h = y_on-IsInside plot_top plot_h (omega arith) b.c_min b.c_max px l h

point-IsInPlot : (b : Bounds) (p : PricePoint) → IsWithin b p → IsInPlot (vertex_of (axes_of b) p)
point-IsInPlot b p w = record {
  across = x_on-IsInside plot_left plot_w (omega arith) b.t_min b.t_max p.t w.not_early w.not_late;
  upright = price-IsInside b p.price_px w.not_low w.not_high;
}

all-IsInPlot :
    (b : Bounds) (ps : List PricePoint)
    → All (IsWithin b) ps
    → All IsInPlot (map (vertex_of (axes_of b)) ps)
all-IsInPlot b [] h = tt
all-IsInPlot b (p ∷ rest) (w, h) = (point-IsInPlot b p w, all-IsInPlot b rest h)

last-IsWithin :
    (b : Bounds) (p : PricePoint) (rest : List PricePoint)
    → All (IsWithin b) (p ∷ rest)
    → IsWithin b (last_of p rest)
last-IsWithin b p [] (w, h) = w
last-IsWithin b p (q ∷ rest) (w, h) = last-IsWithin b q rest h

-- A reference line is drawn in the domain only.
IsInDomain : Bounds → Option ℤ → Type 0
IsInDomain b none = Unit
IsInDomain b (some px) = (b.c_min ≤ℤ px) × (px ≤ℤ b.c_max)

ref_line-IsDrawn :
    (b : Bounds) (px : Option ℤ) → IsInDomain b px → IsDrawn (ref_line (axes_of b) px)
unfolding IsInDomain
ref_line-IsDrawn b none h = tt
ref_line-IsDrawn b (some px) (l, h) = (refl, refl, price-IsInside b px l h)

bounds_of : PricePoint → List PricePoint → Bounds
bounds_of p rest = widen_all (first_bounds p) (p ∷ rest)

tested-IsInDomain :
    (b : Bounds) (px : ℤ) (t : Bool)
    → (t ≡ true → leb_ℤ b.c_min px && leb_ℤ px b.c_max ≡ true)
    → IsInDomain b (if t then some px else none)
unfolding IsInDomain
tested-IsInDomain b px true h = let e = h refl in (ground arith, ground arith)
tested-IsInDomain b px false h = tt

reference-IsInDomain :
    (p : PricePoint) (rest : List PricePoint) (px : Option ℤ)
    → IsInDomain (bounds_of p rest) (reference (series_of (p ∷ rest)) px)
unfolding series_of reference bounds_of IsInDomain
reference-IsInDomain p rest none = tt
reference-IsInDomain p rest (some px) =
    let b = bounds_of p rest in
    tested-IsInDomain b px (ltb_ℤ (pos 0) px && (leb_ℤ b.c_min px && leb_ℤ px b.c_max)) (both _ _)
  where
    both : (a c : Bool) → a && c ≡ true → c ≡ true
    both a c h = ground arith

price_label-IsBeside :
    (b : Bounds) (px : ℤ) → b.c_min ≤ℤ px → px ≤ℤ b.c_max → IsBeside (price_label (axes_of b) px)
price_label-IsBeside b px l h = (omega arith, omega arith, price-IsInside b px l h)

ordered : (b : Bounds) (p : PricePoint) → IsWithin b p → (b.c_min ≤ℤ b.c_max)
ordered b p w = omega (arith, w.not_low, w.not_high)

line-IsInPlot :
    (b : Bounds) (p : PricePoint) (rest : List PricePoint)
    → All (IsWithin b) (p ∷ rest)
    → All IsInPlot (line_of (axes_of b) p rest)
line-IsInPlot b p [] h = tt
line-IsInPlot b p (q ∷ rest) h = all-IsInPlot b (p ∷ q ∷ rest) h

All-if :
    {A : Type 0} (P : A → Type 0) (t : Bool) (xs ys : List A)
    → All P xs
    → All P ys
    → All P (if t then xs else ys)
All-if P true xs ys a b = a
All-if P false xs ys a b = b

module _ (local_ms : ℕ → ℕ) where
  time_label-IsBelow :
      (x : ℕ) (t : ℤ) → plot_left ≤ x → x ≤ plot_right → IsBelow (time_label local_ms x t)
  time_label-IsBelow x t l h = (l, h, omega arith, omega arith)

  view_of-IsContained :
      (b : Bounds) (p : PricePoint) (rest : List PricePoint) (session market : Option ℤ)
      → All (IsWithin b) (p ∷ rest)
      → IsInDomain b session
      → IsInDomain b market
      → IsContained (view_of local_ms (axes_of b) p rest session market)
  view_of-IsContained b p rest session market h s m =
      let up = ordered b p h.0 in
      let low = price_label-IsBeside b b.c_min (omega arith) up in
      record {
        line = line-IsInPlot b p rest h;
        last = point-IsInPlot b (last_of p rest) (last-IsWithin b p rest h);
        session_ref = ref_line-IsDrawn b session s;
        market_ref = ref_line-IsDrawn b market m;
        y_labels =
            All-if IsBeside (eqb_ℤ b.c_max b.c_min) _ _ (low, tt)
              (price_label-IsBeside b b.c_max up (omega arith), (low, tt));
        x_labels =
            All-if IsBelow (eqb_ℤ b.t_max b.t_min) _ _
              (time_label-IsBelow (plot_left + plot_w / 2) b.t_min (omega arith) (omega arith), tt)
              (
                time_label-IsBelow plot_left b.t_min (omega arith) (omega arith),
                (time_label-IsBelow plot_right b.t_max (omega arith) (omega arith), tt),
              );
      }

  -- The chart of a list of points.
  from_points : List PricePoint → ℤ → Option ℤ → Option PriceChartView
  unfolding plotted series_of
  from_points ps session_open_px open_px =
      let s = series_of ps in
      plotted local_ms s.points s.t_min s.t_max s.c_min s.c_max (reference s (some session_open_px))
        (reference s open_px)

  IsContainedChart : Option PriceChartView → Type 0
  IsContainedChart r = (view : PriceChartView) × (r ≡ some view) × IsContained view

  some_points :
      (p : PricePoint) (rest : List PricePoint) (session_open_px : ℤ) (open_px : Option ℤ)
      → IsContainedChart (from_points (p ∷ rest) session_open_px open_px)
  unfolding IsContainedChart from_points plotted series_of bounds_of
  some_points p rest session_open_px open_px =
      let s = series_of (p ∷ rest) in
      let session = reference s (some session_open_px) in
      let market = reference s open_px in
      (
        view_of local_ms (axes_of (bounds_of p rest)) p rest session market,
        refl,
        view_of-IsContained (bounds_of p rest) p rest session market
            (first-AreBoundsOf p rest).within (reference-IsInDomain p rest (some session_open_px))
            (reference-IsInDomain p rest open_px),
      )

  any_points :
      (earlier : List TapeEntry) (q : PricePoint) (later : List PricePoint) (session_open_px : ℤ)
      (open_px : Option ℤ)
      → IsContainedChart (from_points (points_of earlier (q ∷ later)) session_open_px open_px)
  unfolding points_of
  any_points [] q later session_open_px open_px = some_points q later session_open_px open_px
  any_points (e ∷ rest) q later session_open_px open_px =
      any_points rest (point_of e) (q ∷ later) session_open_px open_px

  -- The empty frame stands for a tape without a print, and for no other.
  abbrev pub IsChartOf : List TapeEntry → Option PriceChartView → Type 0
  IsChartOf [] r = r ≡ none
  IsChartOf (e ∷ rest) r = (view : PriceChartView) × (r ≡ some view) × IsContained view

  -- Every tape with at least one print has a chart. Each vertex of its line and the centre of the marker
  -- of the last print lie in the plot area; both reference lines, where drawn, cross it from edge to
  -- edge at a height of it; the anchor of each price label lies in the right margin of the frame, at a
  -- height of the plot area, and the anchor of each time label in the bottom margin, between the left
  -- and the right edge of the plot area. A tape without a print has the empty frame.
  pub price_chart-IsContained :
      (tape : List TapeEntry) (session_open_px : ℤ) (open_px : Option ℤ)
      → IsChartOf tape (price_chart local_ms tape session_open_px open_px)
  unfolding price_chart plotted build_price_series series_of points_of from_points IsContainedChart
  price_chart-IsContained [] session_open_px open_px = refl
  price_chart-IsContained (e ∷ rest) session_open_px open_px =
      any_points rest (point_of e) [] session_open_px open_px
