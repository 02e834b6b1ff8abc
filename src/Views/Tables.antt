-- ===== src/Views/Tables.antt =====
-- app/frontend/src/components/TradeTape.tsx, OpenOrders.tsx and ConnectionBadge.tsx: the rows that the tables
-- show, and the badge.
pub mod Orders
use low_latency_matching_eng.Prelude.{
  ℕ, ℤ, pos, List, [], ◌∷◌, map, Option, none, some, Bool, true, false, Text, codes, if◌then◌else◌,
}
use low_latency_matching_eng.Protocol.Frames.{Side, TimeInForce, OrdType, limit, peg_mid}
use low_latency_matching_eng.Protocol.Value.{whole}
use low_latency_matching_eng.Format.{ClockPrecision, ms, ns, format_price, format_clock_nanos}
use low_latency_matching_eng.State.Model.{
  ConnectionStatus, connecting, open_, reconnecting, TapeEntry,
}
use low_latency_matching_eng.State.Orders.{MyOrder, OrderStatus, is_cancellable}
use low_latency_matching_eng.Views.Panels.{
  filled_of, TypeLabel, order_type_label, BlockFilter, all_sizes, passes_block_filter,
  TickDirection, tick_directions,
}

pub record TapeRow : Type 0 where
  pub mine : Bool
  pub time : Text
  pub direction : TickDirection
  pub price : Text
  pub quantity : ℤ
  pub side : Option Side

-- `tape.filter((entry) => passesBlockFilter(entry.quantity, filter))`
unfoldable pub shown_prints : BlockFilter → List TapeEntry → List TapeEntry
shown_prints filter [] = []
shown_prints filter (entry ∷ rest) =
    let kept = shown_prints filter rest in
    if passes_block_filter entry.quantity filter then entry ∷ kept else kept

pub record TapeUi : Type 0 where
  pub filter : BlockFilter
  pub precision : ClockPrecision

abbrev pub initial_tape_ui : TapeUi
initial_tape_ui = record { filter = all_sizes; precision = ms }

pub data TapeClick : Type 0 where
  filter_clicked : BlockFilter → TapeClick
  precision_clicked : TapeClick

abbrev other_precision : ClockPrecision → ClockPrecision
other_precision ms = ns
other_precision ns = ms

unfoldable pub tape_click : TapeUi → TapeClick → TapeUi
tape_click ui (filter_clicked f) = record ui { filter = f }
tape_click ui precision_clicked = record ui { precision = other_precision ui.precision }

pub data TapeView : Type 0 where
  no_prints : Text → TapeView
  prints : List TapeRow → TapeView

abbrev empty_message : List TapeEntry → Text
empty_message [] = codes "No trades yet"
empty_message (entry ∷ rest) = codes "No prints at this size"

abbrev view_of : Text → List TapeRow → TapeView
view_of message [] = no_prints message
view_of message (row ∷ rows) = prints (row ∷ rows)

pub record OrderRow : Type 0 where
  pub id : ℤ
  pub time : Text
  pub side : Side
  pub type_label : TypeLabel
  pub tif : TimeInForce
  pub price : Text
  pub filled : ℤ
  pub original : ℤ
  pub status : OrderStatus
  pub cancel : Option ℤ

abbrev order_price : OrdType → ℤ → Text
order_price peg_mid px = codes "MID"
order_price limit px = format_price (whole px)

abbrev nanos_or_zero : Option ℤ → ℤ
nanos_or_zero none = pos 0
nanos_or_zero (some n) = n

pub record BadgeView : Type 0 where
  pub label : Text
  pub modifier : Text

unfoldable pub badge_view : ConnectionStatus → BadgeView
badge_view open_ = record { label = codes "Live"; modifier = codes "live" }
badge_view connecting = record { label = codes "Connecting"; modifier = codes "connecting" }
badge_view reconnecting = record { label = codes "Reconnecting"; modifier = codes "reconnecting" }

module _ (local_ms : ℕ → ℕ) where
  -- The rows of the visible prints and their directions, position by position.
  unfoldable pub tape_rows : ClockPrecision → List TapeEntry → List TickDirection → List TapeRow
  tape_rows precision [] directions = []
  tape_rows precision (entry ∷ rest) [] = []
  tape_rows precision (entry ∷ rest) (d ∷ directions) =
      record {
        mine = entry.mine;
        time = format_clock_nanos local_ms entry.timestamp precision;
        direction = d;
        price = format_price (whole entry.price_px);
        quantity = entry.quantity;
        side = entry.aggressor_side;
      }
      ∷ tape_rows precision rest directions

  unfoldable pub trade_tape : TapeUi → List TapeEntry → TapeView
  trade_tape ui tape =
      let shown = shown_prints ui.filter tape in
      view_of (empty_message tape) (tape_rows ui.precision shown (tick_directions shown))

  -- A row; its last field is the id that a click on its Cancel button hands to `onCancel`, if the row
  -- has the button.
  unfoldable pub order_row : MyOrder → OrderRow
  order_row order = record {
    id = order.cl_ord_id;
    time = format_clock_nanos local_ms (nanos_or_zero order.sent_at_nanos) ms;
    side = order.side;
    type_label = order_type_label order;
    tif = order.tif;
    price = order_price order.ord_type order.price_px;
    filled = filled_of order;
    original = order.original_qty;
    status = order.status;
    cancel = (if is_cancellable order.status then some order.cl_ord_id else none);
  }

  unfoldable pub open_orders : List MyOrder → List OrderRow
  open_orders orders = map order_row orders
