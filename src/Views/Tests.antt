-- ===== src/Views/Tests.antt =====
-- The helpers of the panels on a small book and a short tape.
use low_latency_matching_eng.Prelude.{
  ℤ, pos, ◌+ℤ◌, List, [], ◌∷◌, map, none, false, ◌≡◌, refl, arith,
}
use low_latency_matching_eng.Protocol.Frames.{Level, order_filled, exec}
use low_latency_matching_eng.State.Model.{TapeEntry, initial_state, Action, frame}
use low_latency_matching_eng.State.Reducer.{run}
use low_latency_matching_eng.Views.{cumulate, cumulate_from, step_corners, corners_after}
use low_latency_matching_eng.Prelude.{codes, ◌-ℤ◌, negsuc}
use low_latency_matching_eng.Protocol.Frames.{
  buy, gtc, limit, new, NewOrderFrame, order_partially_filled, order_cancelled,
}
use low_latency_matching_eng.State.Model.{sent}
use low_latency_matching_eng.State.Orders.{next_order}
use low_latency_matching_eng.State.Reducer.{reducer}
use low_latency_matching_eng.State.Reducer.Quantities.{AllHonest}
use low_latency_matching_eng.Views.Panels.{
  filled_from, session_filled_qty, session_working_qty, up, flat, tick_directions, spread_label,
}
use low_latency_matching_eng.Views.Totals.{ordered_from, dropped_from, header_totals}

abbrev bids : List Level
bids =
    record { price = pos 1502500; qty = pos 6 }
    ∷ record { price = pos 1502400; qty = pos 4 }
    ∷ record { price = pos 1502300; qty = pos 9 }
    ∷ []

five_corners :
    map (λ p. p.cum_qty) (step_corners (cumulate bids))
    ≡ pos 6 ∷ pos 6 ∷ pos 10 ∷ pos 10 ∷ pos 19 ∷ []
unfolding step_corners cumulate cumulate_from corners_after ◌+ℤ◌
five_corners = refl

abbrev print_at : ℤ → ℤ → TapeEntry
print_at px time = record {
  trade_id = pos 1;
  price_px = px;
  quantity = pos 4;
  aggressor_order_id = pos 100;
  passive_order_id = pos 99;
  timestamp = time;
  mine = false;
  aggressor_side = none;
}

abbrev two_prints : List TapeEntry
two_prints = print_at (pos 1502600) (pos 2000) ∷ print_at (pos 1502500) (pos 1000) ∷ []

abbrev one_fill : List Action
one_fill =
    frame (
      exec (record {
        exec_type = order_filled;
        order_id = pos 100;
        trade_id = pos 1;
        price = pos 1502500;
        filled_quantity = pos 4;
        remaining_quantity = pos 0;
        aggressor_order_id = pos 100;
        passive_order_id = pos 99;
        timestamp = pos 1000;
      }))
    ∷ []

abbrev order : NewOrderFrame
order = record {
  cl_ord_id = pos 7;
  side = buy;
  ord_type = limit;
  tif = gtc;
  price = pos 1502500;
  qty = pos 10;
  max_floor = pos 0;
}

-- An order of 10, of which 4 are filled and the rest is cancelled; the report of the cancel gives -1.
abbrev partial : List Action
partial =
    sent (new order) none
    ∷ frame (
        exec (record {
          exec_type = order_partially_filled;
          order_id = pos 7;
          trade_id = pos 1;
          price = pos 1502500;
          filled_quantity = pos 4;
          remaining_quantity = pos 6;
          aggressor_order_id = pos 7;
          passive_order_id = pos 99;
          timestamp = pos 1000;
        }))
    ∷ frame (
        exec (record {
          exec_type = order_cancelled;
          order_id = pos 7;
          trade_id = negsuc 0;
          price = negsuc 0;
          filled_quantity = negsuc 0;
          remaining_quantity = negsuc 0;
          aggressor_order_id = negsuc 0;
          passive_order_id = negsuc 0;
          timestamp = pos 2000;
        }))
    ∷ []

partial-AllHonest : AllHonest initial_state partial
unfolding reducer next_order
partial-AllHonest = (
  omega arith,
  (
    (λ e. omega arith, (λ e g. (omega arith, omega arith), tt)),
    ((λ e. ground arith, (λ e g. ground arith, tt)), tt),
  ),
)

partial_filled : session_filled_qty (run initial_state partial).my_orders ≡ pos 4
unfolding session_filled_qty filled_from run reducer next_order ◌-ℤ◌ ◌+ℤ◌
partial_filled = refl

header_totals_example :
    session_filled_qty (run initial_state partial).my_orders
      +ℤ session_working_qty (run initial_state partial).my_orders
      +ℤ dropped_from (pos 0) (run initial_state partial).my_orders
    ≡ ordered_from (pos 0) (run initial_state partial).my_orders
header_totals_example = header_totals partial partial-AllHonest

ticks : tick_directions two_prints ≡ up ∷ flat ∷ []
unfolding tick_directions
ticks = refl

one_sided : spread_label (negsuc 0) (pos 1500000) ≡ codes "—"
unfolding spread_label
one_sided = refl
