-- ===== src/Views/Plot/Curve.antt =====
-- components/DepthCurve.tsx: what the depth curve draws, and its click bands.
use low_latency_matching_eng.Prelude.{
  ℕ, ◌+◌, ◌-◌, ℤ, pos, ◌+ℤ◌, leb_ℤ, min_ℤ, max_ℤ, ltb_ℤ, pos_part, List, [], ◌∷◌, ◌++◌, map, Option,
  none, some, Text, if◌then◌else◌,
}
use low_latency_matching_eng.Double.{
  Signed, signed_quotient, signed_times, at, less, half_sum, minus, at_least_zero,
}
use low_latency_matching_eng.Protocol.Value.{Number}
use low_latency_matching_eng.Format.{midpoint_px, midpoint_label}
use low_latency_matching_eng.State.Model.{BookState}
use low_latency_matching_eng.Views.{CurvePoint, build_depth_curve}
use low_latency_matching_eng.Views.Anchors.{anchors_of}
use low_latency_matching_eng.Views.Plot.{Vertex, x_on}

abbrev view_w : ℕ
view_w = 320

abbrev view_h : ℕ
view_h = 160

abbrev pub plot_left : ℕ
plot_left = 8

abbrev pub plot_top : ℕ
plot_top = 12

abbrev pub plot_w : ℕ
plot_w = view_w - plot_left - 8

abbrev pub plot_h : ℕ
plot_h = view_h - plot_top - 16

abbrev pub plot_right : ℕ
plot_right = plot_left + plot_w

abbrev pub plot_bottom : ℕ
plot_bottom = plot_top + plot_h

-- `xMin`, `xMax` and `maxCum`
pub record Axes : Type 0 where
  pub x_min : ℤ
  pub x_max : ℤ
  pub max_cum : ℤ

-- `Math.min(...)` and `Math.max(...)` of the anchors.
unfoldable pub axes_of : CurvePoint → List CurvePoint → Axes
axes_of a [] = record { x_min = a.price_px; x_max = a.price_px; max_cum = a.cum_qty }
axes_of a (b ∷ rest) =
    let axes = axes_of b rest in
    record {
      x_min = min_ℤ a.price_px axes.x_min;
      x_max = max_ℤ a.price_px axes.x_max;
      max_cum = max_ℤ a.cum_qty axes.max_cum;
    }

abbrev pub x_of : Axes → ℤ → Signed
x_of axes px = x_on plot_left plot_w axes.x_min axes.x_max px

-- Upwards from the bottom; without depth every vertex is there.
unfoldable pub y_of : Axes → ℤ → Signed
y_of axes cum_qty =
    if leb_ℤ axes.max_cum (pos 0)
    then at plot_bottom
    else less plot_bottom (signed_times (signed_quotient cum_qty (pos_part axes.max_cum)) plot_h)

abbrev pub vertex_of : Axes → CurvePoint → Vertex
vertex_of axes p = record { x = x_of axes p.price_px; y = y_of axes p.cum_qty }

abbrev pub polyline : Axes → List CurvePoint → List Vertex
polyline axes points = map (vertex_of axes) points

abbrev pub last_of : CurvePoint → List CurvePoint → CurvePoint
last_of p [] = p
last_of p (q ∷ rest) = last_of q rest

abbrev pub on_baseline : Axes → CurvePoint → Vertex
on_baseline axes p = record { x = x_of axes p.price_px; y = at plot_bottom }

-- The line, dropped to the baseline at both ends.
unfoldable pub area : Axes → List CurvePoint → List Vertex
area axes [] = []
area axes (p ∷ rest) =
    on_baseline axes p ∷ polyline axes (p ∷ rest) ++ on_baseline axes (last_of p rest) ∷ []

-- The stable sort by price.
unfoldable pub insert : CurvePoint → List CurvePoint → List CurvePoint
insert a [] = a ∷ []
insert a (b ∷ rest) =
    let later = b ∷ insert a rest in if ltb_ℤ b.price_px a.price_px then later else a ∷ b ∷ rest

unfoldable pub sorted : List CurvePoint → List CurvePoint
sorted [] = []
sorted (a ∷ rest) = insert a (sorted rest)

pub record Band : Type 0 where
  pub price_px : ℤ
  pub left : Signed
  pub width : Signed

-- The boundary to the next level, or the edge of the plot.
abbrev pub right_of : Axes → CurvePoint → List CurvePoint → Signed
right_of axes a [] = at plot_right
right_of axes a (b ∷ rest) = half_sum (x_of axes a.price_px) (x_of axes b.price_px)

-- The first argument is the level before, if there is one.
abbrev pub left_of : Axes → Option CurvePoint → CurvePoint → Signed
left_of axes none a = at plot_left
left_of axes (some b) a = half_sum (x_of axes b.price_px) (x_of axes a.price_px)

unfoldable pub bands_from : Axes → Option CurvePoint → List CurvePoint → List Band
bands_from axes before [] = []
bands_from axes before (a ∷ rest) =
    let left = left_of axes before a in
    record {
      price_px = a.price_px;
      left = left;
      width = at_least_zero (minus (right_of axes a rest) left);
    }
    ∷ bands_from axes (some a) rest

-- `midX`: the midpoint is half the sum of the two prices, and the quotient of the doubled differences is
-- that of the differences.
abbrev pub mid_x : Axes → ℤ → Signed
mid_x axes sum = x_on plot_left plot_w (axes.x_min +ℤ axes.x_min) (axes.x_max +ℤ axes.x_max) sum

pub record DepthCurveView : Type 0 where
  pub bid_area : List Vertex
  pub ask_area : List Vertex
  pub bid_line : List Vertex
  pub ask_line : List Vertex
  pub mid : Option (Signed × Text)
  pub bands : List Band

mid_of : Axes → BookState → Option Number → Option (Signed × Text)
mid_of axes book none = none
mid_of axes book (some mid) =
    some (mid_x axes (book.best_bid +ℤ book.best_ask), midpoint_label book.best_bid book.best_ask)

unfoldable pub drawn : BookState → Option ℕ → List CurvePoint → Option DepthCurveView
unfolding mid_of
drawn book depth [] = none
drawn book depth (a ∷ rest) =
    let model = build_depth_curve book depth in
    let axes = axes_of a rest in
    some (record {
      bid_area = area axes model.bids;
      ask_area = area axes model.asks;
      bid_line = polyline axes model.bids;
      ask_line = polyline axes model.asks;
      mid = mid_of axes book (midpoint_px book.best_bid book.best_ask);
      bands = bands_from axes none (sorted (a ∷ rest));
    })

-- The curve of a book; without a level it is the empty frame.
unfoldable pub depth_curve : BookState → Option ℕ → Option DepthCurveView
unfolding drawn
depth_curve book depth = drawn book depth (anchors_of book depth)
