-- ===== src/Views/Plot/Prices.antt =====
-- components/PriceChart.tsx: what the session price chart draws.
use low_latency_matching_eng.Prelude.{
  ℕ, ◌+◌, ◌-◌, ◌/◌, ℤ, eqb_ℤ, List, [], ◌∷◌, map, Option, none, some, Text, if◌then◌else◌,
}
use low_latency_matching_eng.Double.{Signed}
use low_latency_matching_eng.Protocol.Value.{whole}
use low_latency_matching_eng.Format.{format_price, ms, format_clock_nanos}
use low_latency_matching_eng.State.Model.{TapeEntry}
use low_latency_matching_eng.Views.{PricePoint, build_price_series}
use low_latency_matching_eng.Views.Anchors.{reference}
use low_latency_matching_eng.Views.Plot.{Vertex, x_on, y_on}

abbrev pub view_w : ℕ
view_w = 480

abbrev pub view_h : ℕ
view_h = 200

abbrev pub plot_left : ℕ
plot_left = 8

abbrev pub plot_top : ℕ
plot_top = 12

abbrev pub plot_w : ℕ
plot_w = view_w - plot_left - 52

abbrev pub plot_h : ℕ
plot_h = view_h - plot_top - 18

abbrev pub plot_right : ℕ
plot_right = plot_left + plot_w

abbrev pub plot_bottom : ℕ
plot_bottom = plot_top + plot_h

-- The two axes of a series that is not empty.
pub record Axes : Type 0 where
  pub t_min : ℤ
  pub t_max : ℤ
  pub c_min : ℤ
  pub c_max : ℤ

abbrev pub x_of : Axes → ℤ → Signed
x_of axes t = x_on plot_left plot_w axes.t_min axes.t_max t

abbrev pub y_of : Axes → ℤ → Signed
y_of axes px = y_on plot_top plot_h axes.c_min axes.c_max px

abbrev pub vertex_of : Axes → PricePoint → Vertex
vertex_of axes p = record { x = x_of axes p.t; y = y_of axes p.price_px }

-- A reference line, which is level.
pub record RefLine : Type 0 where
  pub x1 : ℕ
  pub x2 : ℕ
  pub y : Signed

-- A label at an edge: of a price, and of a time.
pub record PriceLabel : Type 0 where
  pub x : ℕ
  pub y : Signed
  pub text : Text

pub record TimeLabel : Type 0 where
  pub x : ℕ
  pub y : ℕ
  pub text : Text

-- What is drawn: the two reference lines, the polyline, the centre of the marker, and the anchors of the
-- labels at the edges.
pub record PriceChartView : Type 0 where
  pub session_ref : Option RefLine
  pub market_ref : Option RefLine
  pub line : List Vertex
  pub last : Vertex
  pub y_labels : List PriceLabel
  pub x_labels : List TimeLabel

-- `points[points.length - 1]`
abbrev pub last_of : PricePoint → List PricePoint → PricePoint
last_of p [] = p
last_of p (q ∷ rest) = last_of q rest

-- A polyline takes two points.
abbrev pub line_of : Axes → PricePoint → List PricePoint → List Vertex
line_of axes p [] = []
line_of axes p (q ∷ rest) = map (vertex_of axes) (p ∷ q ∷ rest)

abbrev pub ref_line : Axes → Option ℤ → Option RefLine
ref_line axes none = none
ref_line axes (some px) = some (record { x1 = plot_left; x2 = plot_right; y = y_of axes px })

abbrev pub price_label : Axes → ℤ → PriceLabel
price_label axes px = record {
  x = plot_right + 4;
  y = y_of axes px;
  text = format_price (whole px);
}

abbrev y_labels_of : Axes → List PriceLabel
y_labels_of axes =
    let low = price_label axes axes.c_min in
    if eqb_ℤ axes.c_max axes.c_min then low ∷ [] else price_label axes axes.c_max ∷ low ∷ []

module _ (local_ms : ℕ → ℕ) where
  abbrev pub time_label : ℕ → ℤ → TimeLabel
  time_label x t = record { x = x; y = plot_bottom + 12; text = format_clock_nanos local_ms t ms }

  abbrev x_labels_of : Axes → List TimeLabel
  x_labels_of axes =
      if eqb_ℤ axes.t_max axes.t_min
      then time_label (plot_left + plot_w / 2) axes.t_min ∷ []
      else time_label plot_left axes.t_min ∷ time_label plot_right axes.t_max ∷ []

  abbrev pub view_of : Axes → PricePoint → List PricePoint → Option ℤ → Option ℤ → PriceChartView
  view_of axes p rest session market = record {
    session_ref = ref_line axes session;
    market_ref = ref_line axes market;
    line = line_of axes p rest;
    last = vertex_of axes (last_of p rest);
    y_labels = y_labels_of axes;
    x_labels = x_labels_of axes;
  }

  unfoldable pub plotted :
      List PricePoint
      → Option ℤ
      → Option ℤ
      → Option ℤ
      → Option ℤ
      → Option ℤ
      → Option ℤ
      → Option PriceChartView
  plotted (p ∷ rest) (some t_min) (some t_max) (some c_min) (some c_max) session market = some (
      view_of (record { t_min = t_min; t_max = t_max; c_min = c_min; c_max = c_max }) p rest session
        market)
  plotted _ _ _ _ _ _ _ = none

  -- The chart of a tape; without a print it is the empty frame.
  unfoldable pub price_chart : List TapeEntry → ℤ → Option ℤ → Option PriceChartView
  unfolding plotted
  price_chart tape session_open_px open_px =
      let s = build_price_series tape in
      plotted s.points s.t_min s.t_max s.c_min s.c_max (reference s (some session_open_px))
        (reference s open_px)
