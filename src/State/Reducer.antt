-- ===== src/State/Reducer.antt =====
-- app/frontend/src/state/reducer.ts: the reducer, one function for each block of the source.
pub mod Books
pub mod History
pub mod Session
pub mod Rows
pub mod Replay
pub mod Blotter
pub mod Quantities
pub mod Marks
pub mod Connection
use low_latency_matching_eng.Prelude.{
  ℕ, suc, ◌+◌, ◌==◌, ℤ, pos, ◌+ℤ◌, List, [], ◌∷◌, Option, none, some, Bool, true, false, not, ltb_ℤ,
  leb_ℤ, eqb_ℤ, max_ℤ, min_ℤ, take, any, find_index, ◌&&◌, ◌||◌, if◌then◌else◌,
}
use low_latency_matching_eng.Protocol.Frames.{
  BookFrame, ExecFrame, ServerFrame, book, exec, fix, NewOrderFrame, ClientFrame, new, cancel,
  is_fill,
}
use low_latency_matching_eng.State.Orders.{
  MyOrder, pending, has_id, Ref, same, fresh, deref, is_fresh, next_order, passive_fill,
  aggressor_side_for, knows,
}
use low_latency_matching_eng.State.Model.{
  tape_cap, inspector_cap, ConnectionStatus, connecting, open_, reconnecting, BookState, TapeEntry,
  InspectorEntry, fix_entry, exec_entry, AppState, Action, connection, frame, sent,
}

print_entry : AppState → ExecFrame → TapeEntry
print_entry state f = record {
  trade_id = f.trade_id;
  price_px = f.price;
  quantity = f.filled_quantity;
  aggressor_order_id = f.aggressor_order_id;
  passive_order_id = f.passive_order_id;
  timestamp = f.timestamp;
  mine = knows state.my_orders f.aggressor_order_id || knows state.my_orders f.passive_order_id;
  aggressor_side = aggressor_side_for state.my_orders f.aggressor_order_id f.passive_order_id;
}

-- The first fill seeds the high and the low; `<= 0` reads as "still unset".
bounds_unset : AppState → Bool
bounds_unset state = leb_ℤ state.session_high_px (pos 0) || leb_ℤ state.session_low_px (pos 0)

-- The block of `applyExec` under `isFill`: the tape and the five session accumulators.
apply_print : AppState → ExecFrame → AppState
unfolding print_entry bounds_unset
apply_print state f = record state {
  tape = take tape_cap (print_entry state f ∷ state.tape);
  session_volume = state.session_volume +ℤ f.filled_quantity;
  session_open_px =
      (if leb_ℤ state.session_open_px (pos 0) then f.price else state.session_open_px);
  session_high_px = (if bounds_unset state then f.price else max_ℤ state.session_high_px f.price);
  session_low_px = (if bounds_unset state then f.price else min_ℤ state.session_low_px f.price);
  session_trade_count = state.session_trade_count + 1;
}

pub agg_index : List MyOrder → ExecFrame → Option ℕ
agg_index rows f = find_index (has_id f.order_id) rows

pub passive_index : List MyOrder → ExecFrame → Option ℕ
passive_index rows f =
    if is_fill f && ltb_ℤ (pos 0) f.passive_order_id && not (eqb_ℤ f.passive_order_id f.order_id)
    then find_index (has_id f.passive_order_id) rows
    else none

-- `i === index`
abbrev is_at : Option ℕ → ℕ → Bool
is_at none i = false
is_at (some j) i = i == j

-- The callback of the `map` over the rows.
row_step : Option ℕ → Option ℕ → ExecFrame → ℕ → MyOrder → Ref MyOrder
row_step agg passive f i o =
    if is_at agg i
    then next_order o f
    else if is_at passive i
    then passive_fill o f.filled_quantity
    else same

pub next_rows : Option ℕ → Option ℕ → ExecFrame → ℕ → List MyOrder → List MyOrder
next_rows agg passive f i [] = []
next_rows agg passive f i (o ∷ os) =
    deref o (row_step agg passive f i o) ∷ next_rows agg passive f (suc i) os

-- `changed` after the `map`
rows_changed : Option ℕ → Option ℕ → ExecFrame → ℕ → List MyOrder → Bool
rows_changed agg passive f i [] = false
rows_changed agg passive f i (o ∷ os) =
    is_fresh (row_step agg passive f i o) || rows_changed agg passive f (suc i) os

abbrev is_found : Option ℕ → Bool
is_found none = false
is_found (some i) = true

-- The array that `myOrders` names after the frame: the old one, or a new one.
pub apply_rows : List MyOrder → ExecFrame → Ref (List MyOrder)
unfolding agg_index passive_index row_step next_rows rows_changed
apply_rows rows f =
    let agg = agg_index rows f in
    let passive = passive_index rows f in
    if (is_found agg || is_found passive) && rows_changed agg passive f 0 rows
    then fresh (next_rows agg passive f 0 rows)
    else same

abbrev push_log : InspectorEntry → AppState → List InspectorEntry
push_log entry state = take inspector_cap (entry ∷ state.inspector_log)

apply_exec : AppState → ExecFrame → AppState
unfolding apply_print apply_rows
apply_exec state f =
    let printed = if is_fill f then apply_print state f else state in
    record printed {
      my_orders = deref state.my_orders (apply_rows state.my_orders f);
      last_frame_nanos = f.timestamp;
      inspector_log = push_log (exec_entry f) state;
    }

abbrev pub sent_row : NewOrderFrame → Option ℤ → MyOrder
sent_row f sent_at_nanos = record {
  cl_ord_id = f.cl_ord_id;
  side = f.side;
  price_px = f.price;
  original_qty = f.qty;
  remaining_qty = f.qty;
  status = pending;
  ord_type = f.ord_type;
  tif = f.tif;
  display_qty = f.max_floor;
  sent_at_nanos = sent_at_nanos;
}

sent_rows : List MyOrder → ClientFrame → Option ℤ → List MyOrder
sent_rows rows (new f) sent_at_nanos =
    if not (any (has_id f.cl_ord_id) rows) then sent_row f sent_at_nanos ∷ rows else rows
sent_rows rows (cancel f) sent_at_nanos = rows

apply_sent : AppState → ClientFrame → Option ℤ → AppState
unfolding sent_rows
apply_sent state f sent_at_nanos = record state {
  my_orders = sent_rows state.my_orders f sent_at_nanos;
  msg_seq_num = state.msg_seq_num + 1;
}

abbrev book_of : BookFrame → BookState
book_of f = record {
  best_bid = f.best_bid;
  best_ask = f.best_ask;
  bids = f.bids;
  asks = f.asks;
  timestamp = f.timestamp;
}

apply_frame : AppState → ServerFrame → AppState
unfolding apply_exec
apply_frame state (book f) = record state { book = book_of f; last_frame_nanos = f.timestamp }
apply_frame state (fix f) = record state {
  last_frame_nanos = f.timestamp;
  inspector_log = push_log (fix_entry f) state;
}
apply_frame state (exec f) = apply_exec state f

-- `action.status === state.connection`
abbrev same_status : ConnectionStatus → ConnectionStatus → Bool
same_status connecting connecting = true
same_status open_ open_ = true
same_status reconnecting reconnecting = true
same_status _ _ = false

-- An equal status returns the state itself, which is the same value.
unfoldable pub reducer : AppState → Action → AppState
unfolding apply_frame apply_sent
reducer state (connection status) =
    if same_status status state.connection then state else record state { connection = status }
reducer state (frame f) = apply_frame state f
reducer state (sent f sent_at_nanos) = apply_sent state f sent_at_nanos

-- The state after a sequence of dispatches, the oldest first.
unfoldable pub run : AppState → List Action → AppState
run state [] = state
run state (a ∷ rest) = run (reducer state a) rest
