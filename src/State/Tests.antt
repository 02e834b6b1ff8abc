-- ===== src/State/Tests.antt =====
-- Runs of reducer.ts and useOrderBook.ts on concrete sequences.
use low_latency_matching_eng.Prelude.{
  ℕ, suc, pos, negsuc, List, [], ◌∷◌, map, take, rev_onto, Option, none, some, true, false, String,
  ◌-ℤ◌, ◌≡◌, refl, length, find?, All, arith,
}
use low_latency_matching_eng.Protocol.Value.{Value, object, get}
use low_latency_matching_eng.Protocol.Narrow.{parse_server_frame, narrow, int, str}
use low_latency_matching_eng.Protocol.Narrow.Conforms.{published}
use low_latency_matching_eng.Protocol.Frames.{
  buy, sell, gtc, limit, BookFrame, ExecFrame, FixFrame, NewOrderFrame, order_partially_filled,
  order_filled, order_cancelled, book, exec, fix, new,
}
use low_latency_matching_eng.State.Orders.{MyOrder, has_id, next_order, passive_fill}
use low_latency_matching_eng.State.Orders.Rows.{Evolves, IsInRange, IsSettled}
use low_latency_matching_eng.State.Model.{
  AppState, initial_state, Action, connection, frame, sent, open_, reconnecting, tape_cap,
}
use low_latency_matching_eng.State.Reducer.{reducer, run, sent_row}
use low_latency_matching_eng.State.Reducer.Books.{without_book, run_interleaving}
use low_latency_matching_eng.State.Reducer.Replay.{blotter_of, replay, no_orders, run-replay}
use low_latency_matching_eng.State.Reducer.Rows.{row_by_id, exec_rows_by_id}
use low_latency_matching_eng.State.Reducer.Blotter.{run-Evolves}
use low_latency_matching_eng.State.Reducer.Quantities.{AllHonest, blotter_quantities}
use low_latency_matching_eng.State.Reducer.Session.{PricesOf, session_of, session_prices}
use low_latency_matching_eng.State.Reducer.History.{fills, trade_of, trade_of_frame, tape_lem}
use low_latency_matching_eng.State.Socket.{
  mount, text, Event, opened, closed, message, timer_fired, send, unmount, on_send, step, steps,
  shown_state,
}
use low_latency_matching_eng.State.Socket.Lifecycle.{IsWellFormed, steps-IsWellFormed}
use low_latency_matching_eng.State.Socket.Reopens.{IsOpen, steps-reopen}
use low_latency_matching_eng.State.Socket.Status.{steps_status, closed-keeps_book, gone_silent}

abbrev bid_order : NewOrderFrame
bid_order = record {
  cl_ord_id = pos 7;
  side = buy;
  ord_type = limit;
  tif = gtc;
  price = pos 1502500;
  qty = pos 10;
  max_floor = pos 0;
}

abbrev ask_order : NewOrderFrame
ask_order = record {
  cl_ord_id = pos 8;
  side = sell;
  ord_type = limit;
  tif = gtc;
  price = pos 1502600;
  qty = pos 5;
  max_floor = pos 0;
}

-- A fill of 4 for order 7, which has taken a stranger's order.
abbrev own_fill : ExecFrame
own_fill = record {
  exec_type = order_partially_filled;
  order_id = pos 7;
  trade_id = pos 1;
  price = pos 1502500;
  filled_quantity = pos 4;
  remaining_quantity = pos 6;
  aggressor_order_id = pos 7;
  passive_order_id = pos 99;
  timestamp = pos 1000;
}

-- A fill of 5 for a stranger's order 100, in which order 8 is the passive side.
abbrev passive_print : ExecFrame
passive_print = record {
  exec_type = order_filled;
  order_id = pos 100;
  trade_id = pos 2;
  price = pos 1502600;
  filled_quantity = pos 5;
  remaining_quantity = pos 0;
  aggressor_order_id = pos 100;
  passive_order_id = pos 8;
  timestamp = pos 2000;
}

abbrev book_frame : BookFrame
book_frame = record {
  best_bid = pos 1502500;
  best_ask = pos 1502600;
  bids = record { price = pos 1502500; qty = pos 6 } ∷ [];
  asks = record { price = pos 1502600; qty = pos 5 } ∷ [];
  timestamp = pos 1500;
}

abbrev fix_frame : FixFrame
fix_frame = record { raw = "8=FIX.4.2"; seq_num = pos 1; timestamp = pos 900 }

abbrev session : List Action
session =
    connection open_
    ∷ sent (new bid_order) (some (pos 500))
    ∷ sent (new ask_order) none
    ∷ frame (fix fix_frame)
    ∷ frame (exec own_fill)
    ∷ frame (book book_frame)
    ∷ frame (exec passive_print)
    ∷ []

-- The same with the BOOK frame at the end.
abbrev book_last : List Action
book_last =
    connection open_
    ∷ sent (new bid_order) (some (pos 500))
    ∷ sent (new ask_order) none
    ∷ frame (fix fix_frame)
    ∷ frame (exec own_fill)
    ∷ frame (exec passive_print)
    ∷ frame (book book_frame)
    ∷ []

abbrev after_sends : AppState
after_sends = record initial_state {
  my_orders = sent_row ask_order none ∷ sent_row bid_order (some (pos 500)) ∷ [];
}

session_rows : map (λ o. o.remaining_qty) (run initial_state session).my_orders ≡ pos 0 ∷ pos 6 ∷ []
unfolding run reducer next_order passive_fill ◌-ℤ◌
session_rows = refl

run_interleaving_example :
    (without_book (run initial_state session) ≡ without_book (run initial_state book_last))
    × ((run initial_state session).book ≡ (run initial_state book_last).book)
run_interleaving_example = run_interleaving initial_state session book_last refl refl

exec_rows_by_id_example :
    (reducer after_sends (frame (exec passive_print))).my_orders
    ≡ map (row_by_id passive_print) after_sends.my_orders
exec_rows_by_id_example = exec_rows_by_id after_sends passive_print (refl, (refl, tt))

-- The order 7 is cancelled with what it has left; the report gives -1.
abbrev own_cancel : ExecFrame
own_cancel = record {
  exec_type = order_cancelled;
  order_id = pos 7;
  trade_id = negsuc 0;
  price = negsuc 0;
  filled_quantity = negsuc 0;
  remaining_quantity = negsuc 0;
  aggressor_order_id = negsuc 0;
  passive_order_id = negsuc 0;
  timestamp = pos 3000;
}

abbrev cancelled_session : List Action
cancelled_session =
    sent (new bid_order) none
    ∷ sent (new ask_order) none
    ∷ frame (exec own_fill)
    ∷ frame (exec passive_print)
    ∷ frame (exec own_cancel)
    ∷ []

cancelled_session-AllHonest : AllHonest initial_state cancelled_session
unfolding reducer next_order passive_fill
cancelled_session-AllHonest = (
  omega arith,
  (
    omega arith,
    (
      (λ e. omega arith, (λ e. cc, (λ e g. (omega arith, omega arith), tt))),
      (
        (λ e. omega arith, (λ e. cc, (λ e. cc, tt))),
        ((λ e. ground arith, (λ e. cc, (λ e g. ground arith, tt))), tt),
      ),
    ),
  ),
)

blotter_quantities_example :
    All IsInRange (run initial_state cancelled_session).my_orders
    × All IsSettled (run initial_state cancelled_session).my_orders
blotter_quantities_example = blotter_quantities cancelled_session cancelled_session-AllHonest

run-Evolves_example :
    (o' : MyOrder) × (find? (has_id (pos 7)) (run after_sends session).my_orders ≡ some o')
    × Evolves (sent_row bid_order (some (pos 500))) o'
run-Evolves_example =
    run-Evolves after_sends session (pos 7) (sent_row bid_order (some (pos 500))) refl

run-replay_example :
    blotter_of (run initial_state session).my_orders (pos 7) ≡ replay session no_orders (pos 7)
run-replay_example = run-replay session (pos 7)

session_prices_example :
    PricesOf (session_of (run initial_state session)) (rev_onto (fills session) [])
session_prices_example = session_prices session (omega arith, (omega arith, tt))

tape_lem_example :
    map trade_of (run initial_state session).tape
    ≡ take tape_cap (rev_onto (map trade_of_frame (fills session)) [])
tape_lem_example = tape_lem session

-- A parser that knows the one packet of the echo.
abbrev known_json : String → Option Value
known_json s = some (object (published (fix fix_frame)))

-- The connection opens, a frame and an order pass, the connection is lost, and the retry fires.
abbrev day : List Event
day = opened 0 ∷ message 0 (text "echo") ∷ send (new bid_order) true 5 ∷ closed 0 ∷ timer_fired ∷ []

abbrev lost : List Event
lost = opened 0 ∷ closed 0 ∷ []

day_dispatches : length (steps known_json mount day).dispatched ≡ 6
unfolding steps step mount on_send parse_server_frame narrow get int str
day_dispatches = refl

steps-IsWellFormed_example : IsWellFormed (steps known_json mount day)
steps-IsWellFormed_example = steps-IsWellFormed known_json day

lost_attached : (steps known_json mount lost).attached ≡ none
unfolding steps step mount
lost_attached = refl

lost_mounted : (steps known_json mount lost).disposed ≡ false
unfolding steps step mount
lost_mounted = refl

steps_status_example : (shown_state (steps known_json mount lost)).connection ≡ reconnecting
steps_status_example = steps_status known_json lost lost_mounted lost_attached

closed-keeps_book_example :
    (shown_state (step known_json (steps known_json mount day) (closed 1))).book
    ≡ (shown_state (steps known_json mount day)).book
closed-keeps_book_example = closed-keeps_book known_json (steps known_json mount day) 1

gone_silent_example :
    ((steps known_json (step known_json (steps known_json mount day) unmount) day).dispatched
      ≡ (steps known_json mount day).dispatched)
    × ((steps known_json (step known_json (steps known_json mount day) unmount) day).sockets
        ≡ (steps known_json mount day).sockets)
gone_silent_example = gone_silent known_json (steps known_json mount day) day

steps-reopen_example :
    (ws : ℕ) × (suc ws ≡ (step known_json (steps known_json mount lost) timer_fired).sockets)
    × IsOpen ws
        (step known_json (step known_json (steps known_json mount lost) timer_fired) (opened ws))
steps-reopen_example = steps-reopen known_json lost lost_mounted
