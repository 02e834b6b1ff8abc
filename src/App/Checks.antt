-- ===== src/App/Checks.antt =====
-- App.tsx on a terminal that sends an order from the chart page, and cancels it on the trading page.
use low_latency_matching_eng.Prelude.{
  All, Any, inl, pos, negsuc, ◌+ℤ◌, List, [], ◌∷◌, Option, some, true, String, codes, ◌≡◌, refl,
  arith,
}
use low_latency_matching_eng.Protocol.Value.{Value, object, get}
use low_latency_matching_eng.Protocol.Frames.{buy, gtc, limit, order_accepted, exec}
use low_latency_matching_eng.Protocol.Narrow.{parse_server_frame, narrow, exec_type_of, int}
use low_latency_matching_eng.Protocol.Narrow.Conforms.{published}
use low_latency_matching_eng.Protocol.Encode.{
  next_cl_ord_id, cancel_order_frame, peek, new_order_frame,
}
use low_latency_matching_eng.Format.{parse_price}
use low_latency_matching_eng.Ticket.{submit, validate_order_input, validate_display_qty}
use low_latency_matching_eng.State.Orders.{MyOrder, open_, next_order}
use low_latency_matching_eng.State.Socket.{
  opened, message, text, step, mount, shown_state, on_send, send_time,
}
use low_latency_matching_eng.State.Reducer.{run, reducer}
use low_latency_matching_eng.App.{handle_submit, handle_cancel, page_step}
use low_latency_matching_eng.App.Pending.{stamp}
use low_latency_matching_eng.Ticket.Controls.{price_typed, qty_typed, submit_clicked, ticket_step}
use low_latency_matching_eng.App.Terminal.{
  terminal_acted, ticket_props, is_trading, navigate, chart_page, trading_page, navigated,
  row_cancelled, Terminal, new_terminal, TerminalEvent, arrived, ticket_acted, state_of,
  terminal_step, terminal_run,
}
use low_latency_matching_eng.App.Terminal.Screen.{header_of, screen}
use low_latency_matching_eng.App.Terminal.Browse.{page_over, terminal_run-screen}
use low_latency_matching_eng.Inspector.{toolbar_clicked}
use low_latency_matching_eng.Prelude.{ℕ, Text, false}
use low_latency_matching_eng.Protocol.Frames.{ExecFrame}
use low_latency_matching_eng.App.Terminal.{same_page, inspector_acted, depth_selected}
use low_latency_matching_eng.App.Terminal.Pages.{IsTerminalEvent}
use low_latency_matching_eng.App.Terminal.Cancels.{IsCancelSent, row_cancel-IsCancelSent}

-- Every message is the acceptance of order 41.
abbrev accepting : String → Option Value
accepting s = some (
    object (
      published (
        exec (record {
          exec_type = order_accepted;
          order_id = pos 41;
          trade_id = negsuc 0;
          price = pos 1502500;
          filled_quantity = pos 0;
          remaining_quantity = pos 100;
          aggressor_order_id = negsuc 0;
          passive_order_id = negsuc 0;
          timestamp = pos 5000;
        }))))

-- An order is sent from the chart page, and is accepted; then the trading page shows its row.
abbrev placed : List TerminalEvent
placed =
    arrived (opened 0)
    ∷ navigated chart_page
    ∷ ticket_acted (price_typed (codes "150.25")) true 8
    ∷ ticket_acted (qty_typed (codes "100")) true 8
    ∷ ticket_acted submit_clicked true 9
    ∷ arrived (message 0 (text "accepted"))
    ∷ navigated trading_page
    ∷ []

abbrev after_placed : Terminal
after_placed = terminal_run accepting (new_terminal 41) placed

all_placed : All IsTerminalEvent placed
all_placed = (tt, (tt, (tt, (tt, (tt, (tt, (tt, tt)))))))

placed_page : is_trading after_placed.page ≡ true
unfolding terminal_run terminal_step terminal_acted navigate ticket_step
placed_page = refl

abbrev placed_row : MyOrder
placed_row = record {
  cl_ord_id = pos 41;
  side = buy;
  price_px = pos 1502500;
  original_qty = pos 100;
  remaining_qty = pos 100;
  status = open_;
  ord_type = limit;
  tif = gtc;
  display_qty = pos 0;
  sent_at_nanos = some (stamp 9);
}

placed_inside : Any (λ r. r ≡ placed_row) (state_of after_placed).my_orders
unfolding terminal_run terminal_step terminal_acted navigate ticket_step page_step step mount
    ticket_props shown_state run reducer submit validate_order_input validate_display_qty
    parse_price handle_submit on_send next_cl_ord_id new_order_frame send_time ◌+ℤ◌ next_order
    parse_server_frame narrow get exec_type_of int
placed_inside = inl refl

placed_id : after_placed.app.gen.next ≡ pos 42
unfolding terminal_run terminal_step terminal_acted navigate ticket_step page_step step mount
    ticket_props shown_state run reducer submit validate_order_input validate_display_qty
    parse_price handle_submit on_send next_cl_ord_id new_order_frame send_time ◌+ℤ◌ next_order
    parse_server_frame narrow get exec_type_of int
placed_id = refl

placed_socket : after_placed.app.hook.socket_ref ≡ some 0
unfolding terminal_run terminal_step terminal_acted navigate ticket_step page_step step mount
    ticket_props shown_state run reducer submit validate_order_input validate_display_qty
    parse_price handle_submit on_send next_cl_ord_id new_order_frame send_time ◌+ℤ◌ next_order
    parse_server_frame narrow get exec_type_of int
placed_socket = refl

row_cancel-IsCancelSent_example :
    IsCancelSent after_placed.app (pos 41) 42 10 (handle_cancel after_placed.app (pos 41) true 10)
    × ((terminal_step accepting after_placed (row_cancelled placed_row true 10)).app
        ≡ (handle_cancel after_placed.app (pos 41) true 10).0)
row_cancel-IsCancelSent_example =
    row_cancel-IsCancelSent accepting 41 placed after_placed placed_row 42 0 10 all_placed refl
      placed_page placed_inside refl placed_id (omega arith) (omega arith) placed_socket

-- A click on Cancel without a connection: an id is spent, and the one that is shown stays.
abbrev spent : Terminal
spent = terminal_run accepting (new_terminal 41) (row_cancelled placed_row false 8 ∷ [])

id_spent : spent.app.gen.next ≡ pos 42
unfolding terminal_run terminal_step terminal_acted mount handle_cancel next_cl_ord_id
    cancel_order_frame ◌+ℤ◌
id_spent = refl

preview_stale : spent.preview ≡ pos 41
unfolding terminal_run terminal_step terminal_acted mount handle_cancel next_cl_ord_id
    cancel_order_frame on_send peek
preview_stale = refl

-- The ticket is half typed, and the inspector is open.
abbrev browsing : List TerminalEvent
browsing =
    ticket_acted (price_typed (codes "151")) true 11
    ∷ inspector_acted toolbar_clicked
    ∷ depth_selected 14
    ∷ []

browsing_page : same_page (terminal_run accepting after_placed browsing).page chart_page ≡ false
unfolding terminal_run terminal_step terminal_acted navigate ticket_step
browsing_page = refl

abbrev utc : ℕ → ℕ
utc t = t

abbrev no_text : ExecFrame → Text
no_text f = []

terminal_run-screen_example :
    ((terminal_run accepting after_placed browsing).app ≡ after_placed.app)
    × (header_of utc (terminal_run accepting after_placed browsing) ≡ header_of utc after_placed)
    × (screen utc no_text (
          terminal_step accepting
            (terminal_run accepting after_placed browsing)
            (navigated chart_page))
        ≡ screen utc no_text (page_over after_placed chart_page))
terminal_run-screen_example =
    terminal_run-screen accepting utc no_text after_placed browsing chart_page (tt, (tt, (tt, tt)))
      browsing_page
