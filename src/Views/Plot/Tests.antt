-- ===== src/Views/Plot/Tests.antt =====
-- The two charts on a small book and a short tape.
use low_latency_matching_eng.Prelude.{
  ℕ, ℤ, pos, ◌-ℤ◌, List, [], ◌∷◌, map, none, some, false, ◌≡◌, refl, arith,
}
use low_latency_matching_eng.Double.{floor, half_sum, to_double, plus, times, quotient}
use low_latency_matching_eng.Protocol.Frames.{Level}
use low_latency_matching_eng.State.Model.{BookState, TapeEntry}
use low_latency_matching_eng.Views.Anchors.{anchors_of}
use low_latency_matching_eng.Views.{CurvePoint}
use low_latency_matching_eng.Views.Plot.Prices.{price_chart}
use low_latency_matching_eng.Views.Plot.Curve.{axes_of, bands_from, sorted, insert, depth_curve}
use low_latency_matching_eng.Views.Plot.{x_on}
use low_latency_matching_eng.Views.Plot.Ends.{IsAcross, IsUpwards, x_on-IsAcross}
use low_latency_matching_eng.Views.Plot.Drawn.{IsChartOf, price_chart-IsContained}
use low_latency_matching_eng.Views.Plot.Bands.{IsBanded, depth_curve-IsBanded}
use low_latency_matching_eng.Views.Plot.Heights.{IsContainedCurve, depth_curve-IsContained}

abbrev print_at : ℤ → ℤ → TapeEntry
print_at px time = record {
  trade_id = pos 1;
  price_px = px;
  quantity = pos 4;
  aggressor_order_id = pos 100;
  passive_order_id = pos 99;
  timestamp = time;
  mine = false;
  aggressor_side = none;
}

abbrev prints : List TapeEntry
prints =
    print_at (pos 1502600) (pos 1700000000000002000)
    ∷ print_at (pos 1502500) (pos 1700000000000001000)
    ∷ []

abbrev utc : ℕ → ℕ
utc t = t

price_chart-IsContained_example :
    IsChartOf utc prints (price_chart utc prints (pos 1502500) (some (pos 1502550)))
price_chart-IsContained_example =
    price_chart-IsContained utc prints (pos 1502500) (some (pos 1502550))

abbrev price_level : ℤ → ℤ → Level
price_level px qty = record { price = px; qty = qty }

abbrev small_book : BookState
small_book = record {
  best_bid = pos 1502500;
  best_ask = pos 1502700;
  bids = price_level (pos 1502500) (pos 6) ∷ price_level (pos 1502400) (pos 4) ∷ [];
  asks = price_level (pos 1502700) (pos 5) ∷ [];
  timestamp = pos 1;
}

abbrev point : ℤ → CurvePoint
point px = record { price_px = px; cum_qty = pos 6 }

-- Three levels at the left edge, in the middle and at the right edge.
three_bands :
    map
      (λ b. floor b.left.size)
      (bands_from
        (axes_of (point (pos 120)) (point (pos 100) ∷ point (pos 110) ∷ []))
        none
        (sorted (point (pos 120) ∷ point (pos 100) ∷ point (pos 110) ∷ [])))
    ≡ 8 ∷ 84 ∷ 236 ∷ []
unfolding bands_from axes_of sorted insert x_on floor half_sum to_double plus ◌-ℤ◌ times quotient
three_bands = refl

depth_curve-IsBanded_example : IsBanded (anchors_of small_book none) (depth_curve small_book none)
depth_curve-IsBanded_example = depth_curve-IsBanded small_book none

depth_curve-IsContained_example :
    IsContainedCurve (anchors_of small_book (some 1)) (depth_curve small_book (some 1))
depth_curve-IsContained_example =
    depth_curve-IsContained small_book (some 1) (omega arith, (omega arith, tt)) (omega arith, tt)

x_on-IsAcross_example :
    IsAcross 12 170 (pos 1502500) (pos 1502600) × IsUpwards 12 170 (pos 1502500) (pos 1502600)
x_on-IsAcross_example = x_on-IsAcross 12 170 (omega arith) (pos 1502500) (pos 1502600) (omega arith)
