-- ===== src/Views.antt =====
-- app/frontend/src/depth.ts, priceSeries.ts and sessionStats.ts: what the panels plot and print, as pure
-- functions of the state.
mod Tests
mod Checks
pub mod Depth
pub mod Series
pub mod Stats
pub mod Panels
pub mod Totals
pub mod Header
pub mod Ladder
pub mod Anchors
pub mod Tables
pub mod Plot
use low_latency_matching_eng.Prelude.{
  ℕ, ℤ, pos, ◌+ℤ◌, ltb_ℤ, List, [], ◌∷◌, Option, none, some, Text, take, rev_onto, if◌then◌else◌,
}
use low_latency_matching_eng.Protocol.Frames.{Level}
use low_latency_matching_eng.Protocol.Value.{whole}
use low_latency_matching_eng.Format.{empty_price, format_price, format_qty}
use low_latency_matching_eng.State.Model.{BookState, TapeEntry}

pub record CumLevel : Type 0 where
  pub price_px : ℤ
  pub qty : ℤ
  pub cum_qty : ℤ

-- The loop of `cumulate`, whose `running` is the first argument.
unfoldable pub cumulate_from : ℤ → List Level → List CumLevel
cumulate_from running [] = []
cumulate_from running (level ∷ rest) =
    record { price_px = level.price; qty = level.qty; cum_qty = running +ℤ level.qty }
    ∷ cumulate_from (running +ℤ level.qty) rest

unfoldable pub cumulate : List Level → List CumLevel
cumulate levels = cumulate_from (pos 0) levels

pub record CurvePoint : Type 0 where
  pub price_px : ℤ
  pub cum_qty : ℤ

pub record DepthCurveModel : Type 0 where
  pub bids : List CurvePoint
  pub asks : List CurvePoint

-- The loop of `stepCorners` from `i`; the first argument is `cum[i - 1].cumQty`.
unfoldable pub corners_after : ℤ → List CumLevel → List CurvePoint
corners_after prior [] = []
corners_after prior (c ∷ rest) =
    record { price_px = c.price_px; cum_qty = prior }
    ∷ record { price_px = c.price_px; cum_qty = c.cum_qty }
    ∷ corners_after c.cum_qty rest

unfoldable pub step_corners : List CumLevel → List CurvePoint
step_corners [] = []
step_corners (c ∷ rest) =
    record { price_px = c.price_px; cum_qty = c.cum_qty } ∷ corners_after c.cum_qty rest

-- `levels.slice(0, limit)`, whose limit is infinite without a `depth`
abbrev pub nearest : Option ℕ → List Level → List Level
nearest none levels = levels
nearest (some depth) levels = take depth levels

unfoldable pub build_depth_curve : BookState → Option ℕ → DepthCurveModel
build_depth_curve book depth = record {
  bids = step_corners (cumulate (nearest depth book.bids));
  asks = step_corners (cumulate (nearest depth book.asks));
}

pub record PricePoint : Type 0 where
  pub t : ℤ
  pub price_px : ℤ

pub record PriceSeries : Type 0 where
  pub points : List PricePoint
  pub t_min : Option ℤ
  pub t_max : Option ℤ
  pub c_min : Option ℤ
  pub c_max : Option ℤ

abbrev pub empty_series : PriceSeries
empty_series = record { points = []; t_min = none; t_max = none; c_min = none; c_max = none }

abbrev pub point_of : TapeEntry → PricePoint
point_of entry = record { t = entry.timestamp; price_px = entry.price_px }

-- The first loop, from the end of the tape: its points behind those pushed so far.
unfoldable pub points_of : List TapeEntry → List PricePoint → List PricePoint
points_of [] later = later
points_of (entry ∷ rest) later = points_of rest (point_of entry ∷ later)

pub record Bounds : Type 0 where
  pub t_min : ℤ
  pub t_max : ℤ
  pub c_min : ℤ
  pub c_max : ℤ

-- The body of the second loop.
unfoldable pub widen : Bounds → PricePoint → Bounds
widen b p = record {
  t_min = (if ltb_ℤ p.t b.t_min then p.t else b.t_min);
  t_max = (if ltb_ℤ b.t_max p.t then p.t else b.t_max);
  c_min = (if ltb_ℤ p.price_px b.c_min then p.price_px else b.c_min);
  c_max = (if ltb_ℤ b.c_max p.price_px then p.price_px else b.c_max);
}

unfoldable pub widen_all : Bounds → List PricePoint → Bounds
widen_all b [] = b
widen_all b (p ∷ rest) = widen_all (widen b p) rest

unfoldable pub first_bounds : PricePoint → Bounds
first_bounds p = record { t_min = p.t; t_max = p.t; c_min = p.price_px; c_max = p.price_px }

pub series_of : List PricePoint → PriceSeries
series_of [] = empty_series
series_of (p ∷ rest) =
    let b = widen_all (first_bounds p) (p ∷ rest) in
    record {
      points = p ∷ rest;
      t_min = some b.t_min;
      t_max = some b.t_max;
      c_min = some b.c_min;
      c_max = some b.c_max;
    }

-- A tape that is not empty has a first point.
unfoldable pub build_price_series : List TapeEntry → PriceSeries
unfolding series_of
build_price_series tape = series_of (points_of tape [])

pub record SessionStatsInput : Type 0 where
  pub tape : List TapeEntry
  pub session_high_px : ℤ
  pub session_low_px : ℤ
  pub session_trade_count : ℕ

pub record SessionStatsModel : Type 0 where
  pub high : Text
  pub low : Text
  pub trades : Text
  pub last_price : Text
  pub last_size : Text

abbrev last_price_text : List TapeEntry → Text
last_price_text [] = empty_price
last_price_text (last ∷ rest) = format_price (whole last.price_px)

abbrev last_size_text : List TapeEntry → Text
last_size_text [] = empty_price
last_size_text (last ∷ rest) = format_qty last.quantity

unfoldable pub build_session_stats : SessionStatsInput → SessionStatsModel
build_session_stats input = record {
  high = format_price (whole input.session_high_px);
  low = format_price (whole input.session_low_px);
  trades = format_qty (pos input.session_trade_count);
  last_price = last_price_text input.tape;
  last_size = last_size_text input.tape;
}
