-- ===== src/Views/Checks.antt =====
-- The header, the ladder, the depth curve and the tables on a small book and a short session.
use low_latency_matching_eng.Prelude.{
  negsuc, ℕ, ◌+◌, ◌-◌, ◌*◌, ◌≤◌, ℤ, pos, List, [], ◌∷◌, ◌++◌, map, All, none, codes, ◌-ℤ◌, ◌+ℤ◌,
  ◌≡◌, refl, arith,
}
use low_latency_matching_eng.Double.{to_double, quotient, times, hundredths}
use low_latency_matching_eng.Protocol.Value.{whole}
use low_latency_matching_eng.Protocol.Frames.{
  Level, ExecFrame, order_filled, order_partially_filled, order_cancelled, exec, buy, gtc, limit,
  new, NewOrderFrame,
}
use low_latency_matching_eng.Format.{
  signed_to_fixed_2, to_fixed_2, decimal, format_price, format_qty,
}
use low_latency_matching_eng.State.Model.{BookState, initial_state, Action, frame, sent}
use low_latency_matching_eng.State.Orders.{next_order}
use low_latency_matching_eng.State.Reducer.{reducer, run}
use low_latency_matching_eng.State.Reducer.Session.{volume_of}
use low_latency_matching_eng.State.Reducer.Quantities.{AllHonest}
use low_latency_matching_eng.Views.{
  cumulate, cumulate_from, corners_after, step_corners, build_depth_curve,
}
use low_latency_matching_eng.Views.Panels.{passes_block_filter, gt200}
use low_latency_matching_eng.Views.Header.{
  spread_ticks_label, bps_of, spread_bps_label, change_label, with_unit, derive_header,
}
use low_latency_matching_eng.Views.Header.Spread.{spread-labels}
use low_latency_matching_eng.Views.Header.Change.{input_of, IsChange, change_of, header_session}
use low_latency_matching_eng.Views.Anchors.{level_anchors, anchors_of, anchor_of, anchors_of-levels}
use low_latency_matching_eng.Views.Tables.{
  initial_tape_ui, tape_click, filter_clicked, no_prints, tape_rows, shown_prints, trade_tape,
  open_orders,
}
use low_latency_matching_eng.Views.Tables.Orders.{IsRow, open_orders-IsRow}

-- A clock at Greenwich.
abbrev utc : ℕ → ℕ
utc t = t

bps_shown : spread_bps_label (pos 1502500) (pos 1502700) ≡ codes "1.33"
unfolding spread_bps_label bps_of to_double quotient ◌-ℤ◌ ◌+ℤ◌ signed_to_fixed_2 to_fixed_2 decimal
    hundredths
bps_shown = refl

off_tick : spread_ticks_label (pos 1502500) (pos 1502750) ≡ codes "2.5"
unfolding spread_ticks_label ◌-ℤ◌ decimal
off_tick = refl

small_fall : (change_label (pos 1502499) (pos 1502500)).pct ≡ codes "-0.00%"
unfolding change_label times quotient ◌-ℤ◌ signed_to_fixed_2 to_fixed_2 decimal hundredths
small_fall = refl

no_unit : with_unit (codes "—") (codes " bps") ≡ codes "—"
unfolding with_unit
no_unit = refl

spread-labels_example :
    (spread_ticks_label (pos (15025 * 100)) (pos (15027 * 100)) ≡ decimal (15027 - 15025))
    × ((h : ℕ) × (spread_bps_label (pos (15025 * 100)) (pos (15027 * 100))
          ≡ format_price (whole (pos (h * 100))))
        × (h * (15027 + 15025) ≤ 2000000 * (15027 - 15025) + (15027 + 15025))
        × (2000000 * (15027 - 15025) ≤ h * (15027 + 15025) + (15027 + 15025)))
spread-labels_example =
    spread-labels 15025 15027 (omega arith) (omega arith) (omega arith) (omega arith)

abbrev fill_at : ℤ → ℤ → ExecFrame
fill_at trade price = record {
  exec_type = order_filled;
  order_id = pos 100;
  trade_id = trade;
  price = price;
  filled_quantity = pos 4;
  remaining_quantity = pos 0;
  aggressor_order_id = pos 100;
  passive_order_id = pos 99;
  timestamp = pos 1000;
}

abbrev first_fill : ExecFrame
first_fill = fill_at (pos 1) (pos 1502500)

abbrev second_fill : ExecFrame
second_fill = fill_at (pos 2) (pos 1502600)

abbrev two_fills : List Action
two_fills = frame (exec first_fill) ∷ frame (exec second_fill) ∷ []

header_session_example :
    ((derive_header utc (input_of (run initial_state two_fills))).last
      ≡ format_price (whole (pos 1502600)))
    × IsChange 1502500 1502600
        (change_of (derive_header utc (input_of (run initial_state two_fills))))
    × ((derive_header utc (input_of (run initial_state two_fills))).volume
        ≡ format_qty (volume_of (second_fill ∷ first_fill ∷ [])))
header_session_example =
    header_session utc two_fills second_fill (first_fill ∷ []) 1502500 1502600
      (omega arith, (omega arith, tt)) refl refl refl (omega arith) (omega arith)

abbrev bids : List Level
bids =
    record { price = pos 1502500; qty = pos 6 } ∷ record { price = pos 1502400; qty = pos 4 } ∷ []

abbrev asks : List Level
asks = record { price = pos 1502700; qty = pos 3 } ∷ []

abbrev book : BookState
book = record {
  best_bid = pos 1502500;
  best_ask = pos 1502700;
  bids = bids;
  asks = asks;
  timestamp = pos 1000;
}

three_anchors : map (λ p. p.cum_qty) (anchors_of book none) ≡ pos 6 ∷ pos 10 ∷ pos 3 ∷ []
unfolding anchors_of level_anchors build_depth_curve step_corners cumulate cumulate_from
    corners_after ◌+ℤ◌
three_anchors = refl

anchors_of-levels_example :
    anchors_of book none ≡ map anchor_of (cumulate bids) ++ map anchor_of (cumulate asks)
anchors_of-levels_example =
    anchors_of-levels book (omega arith, (omega arith, tt)) (omega arith, tt) (refl, tt) tt

abbrev order : NewOrderFrame
order = record {
  cl_ord_id = pos 7;
  side = buy;
  ord_type = limit;
  tif = gtc;
  price = pos 1502500;
  qty = pos 10;
  max_floor = pos 0;
}

-- An order of 10, of which 4 are filled and the rest is cancelled; the report of the cancel gives -1.
abbrev partial : List Action
partial =
    sent (new order) none
    ∷ frame (
        exec (record {
          exec_type = order_partially_filled;
          order_id = pos 7;
          trade_id = pos 1;
          price = pos 1502500;
          filled_quantity = pos 4;
          remaining_quantity = pos 6;
          aggressor_order_id = pos 7;
          passive_order_id = pos 99;
          timestamp = pos 1000;
        }))
    ∷ frame (
        exec (record {
          exec_type = order_cancelled;
          order_id = pos 7;
          trade_id = negsuc 0;
          price = negsuc 0;
          filled_quantity = negsuc 0;
          remaining_quantity = negsuc 0;
          aggressor_order_id = negsuc 0;
          passive_order_id = negsuc 0;
          timestamp = pos 2000;
        }))
    ∷ []

partial-AllHonest : AllHonest initial_state partial
unfolding reducer next_order
partial-AllHonest = (
  omega arith,
  (
    (λ e. omega arith, (λ e g. (omega arith, omega arith), tt)),
    ((λ e. ground arith, (λ e g. ground arith, tt)), tt),
  ),
)

open_orders-IsRow_example : All IsRow (open_orders utc (run initial_state partial).my_orders)
open_orders-IsRow_example = open_orders-IsRow utc partial partial-AllHonest

-- No print of the session is larger than 200.
no_blocks :
    trade_tape utc
      (tape_click initial_tape_ui (filter_clicked gt200))
      (run initial_state two_fills).tape
    ≡ no_prints (codes "No prints at this size")
unfolding trade_tape tape_rows shown_prints run reducer passes_block_filter tape_click
no_blocks = refl
