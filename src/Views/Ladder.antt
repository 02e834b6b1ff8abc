-- ===== src/Views/Ladder.antt =====
-- app/frontend/src/components/DepthLadder.tsx: the rows of the depth ladder with their bars.
pub mod Shades
use low_latency_matching_eng.Prelude.{
  ℕ, ◌==◌, Bool, ◌||◌, ℤ, pos, negsuc, ltb_ℤ, max_ℤ, pos_part, List, [], ◌∷◌, map, Text, false,
  if◌then◌else◌,
}
use low_latency_matching_eng.Double.{Double, Signed, signed_quotient, signed_times}
use low_latency_matching_eng.Protocol.Frames.{Level}
use low_latency_matching_eng.Protocol.Value.{whole}
use low_latency_matching_eng.Format.{empty_price, format_price, midpoint_label}
use low_latency_matching_eng.State.Model.{BookState}
use low_latency_matching_eng.Views.{CumLevel, cumulate}
use low_latency_matching_eng.Views.Panels.{spread_label}

pub record LadderRow : Type 0 where
  pub price_px : ℤ
  pub qty : ℤ
  pub cum_qty : ℤ
  pub shade_fraction : Signed
  pub width_pct : Signed

pub record LadderModel : Type 0 where
  pub asks : List LadderRow
  pub bids : List LadderRow

-- The `cumQty` of the last element, and the first argument without one.
abbrev pub last_cum : ℤ → List CumLevel → ℤ
last_cum none_yet [] = none_yet
last_cum none_yet (c ∷ rest) = last_cum c.cum_qty rest

abbrev pub shared_max : List Level → List Level → ℤ
shared_max bids asks = max_ℤ (last_cum (pos 0) (cumulate bids)) (last_cum (pos 0) (cumulate asks))

abbrev pub zero_shade : Signed
zero_shade = record { negative = false; size = record { m = 0; k = 0 } }

unfoldable pub shade_of : ℤ → ℤ → Signed
shade_of most cum_qty =
    if ltb_ℤ (pos 0) most then signed_quotient cum_qty (pos_part most) else zero_shade

unfoldable pub with_width : ℤ → CumLevel → LadderRow
with_width most r = record {
  price_px = r.price_px;
  qty = r.qty;
  cum_qty = r.cum_qty;
  shade_fraction = shade_of most r.cum_qty;
  width_pct = signed_times (shade_of most r.cum_qty) 100;
}

unfoldable pub build_ladder : List Level → List Level → LadderModel
build_ladder bids asks = record {
  asks = map (with_width (shared_max bids asks)) (cumulate asks);
  bids = map (with_width (shared_max bids asks)) (cumulate bids);
}

-- The three cells of the divider.
pub record Divider : Type 0 where
  pub spread : Text
  pub mid : Text
  pub last : Text

unfoldable pub divider : BookState → ℤ → Divider
divider book last_px = record {
  spread = spread_label book.best_bid book.best_ask;
  mid = midpoint_label book.best_bid book.best_ask;
  last = (if ltb_ℤ (pos 0) last_px then format_price (whole last_px) else empty_price);
}

abbrev depth_options : List ℕ
depth_options = 8 ∷ 10 ∷ 14 ∷ []

abbrev pub default_depth : ℕ
default_depth = 10

abbrev offered : ℕ → List ℕ → Bool
offered n [] = false
offered n (m ∷ rest) = n == m || offered n rest

-- The selector offers its options only.
unfoldable pub select_depth : ℕ → ℕ → ℕ
select_depth depth n = if offered n depth_options then n else depth

-- A row as it is rendered: the width of its bar in percent, and its three cells.
pub record LadderCells : Type 0 where
  pub width_pct : Signed
  pub price : Text
  pub qty : ℤ
  pub cum_qty : ℤ

unfoldable pub render_row : LadderRow → LadderCells
render_row row = record {
  width_pct = row.width_pct;
  price = format_price (whole row.price_px);
  qty = row.qty;
  cum_qty = row.cum_qty;
}

-- The ladder: how many rows a pane is high, its two panes and its divider.
pub record DepthLadderView : Type 0 where
  pub depth_rows : ℕ
  pub asks : List LadderCells
  pub middle : Divider
  pub bids : List LadderCells

unfoldable pub depth_ladder : ℕ → BookState → ℤ → DepthLadderView
depth_ladder depth book last_px =
    let model = build_ladder book.bids book.asks in
    record {
      depth_rows = depth;
      asks = map render_row model.asks;
      middle = divider book last_px;
      bids = map render_row model.bids;
    }
