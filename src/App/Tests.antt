-- ===== src/App/Tests.antt =====
-- App.tsx on a terminal that loses its connection, and sends an order from the chart page.
use low_latency_matching_eng.Prelude.{
  All, pos, List, [], ◌∷◌, Option, none, some, true, String, codes, ◌≡◌, refl, arith,
}
use low_latency_matching_eng.Protocol.Value.{Value}
use low_latency_matching_eng.Protocol.Frames.{buy, gtc, limit, OrderIntent}
use low_latency_matching_eng.Format.{parse_price}
use low_latency_matching_eng.Ticket.{
  TicketState, submit, validate_order_input, validate_display_qty,
}
use low_latency_matching_eng.State.Socket.{opened, closed, timer_fired, step, mount, shown_state}
use low_latency_matching_eng.App.{PageEvent, handle_submit, page_step, page_run}
use low_latency_matching_eng.State.Model.{open_}
use low_latency_matching_eng.Ticket.Controls.{
  acted, price_typed, qty_typed, submit_clicked, ticket_step,
}
use low_latency_matching_eng.App.Terminal.{
  terminal_acted, ticket_props, has_ticket, navigate, chart_page, navigated, Terminal, new_terminal,
  TerminalEvent, arrived, ticket_acted, state_of, terminal_step, terminal_run,
}
use low_latency_matching_eng.App.Terminal.Pages.{
  IsSoundEvent, IsTerminalEvent, terminal_run-page_run,
}
use low_latency_matching_eng.App.Terminal.Submits.{terminal_submit-IsPending}
use low_latency_matching_eng.State.Reducer.{run, reducer}
use low_latency_matching_eng.App.Pending.{IsPending}
use low_latency_matching_eng.App.Fresh.{mounted}

abbrev no_json : String → Option Value
no_json s = none

abbrev plain : TicketState
plain = record {
  side = buy;
  tif = gtc;
  ord_type = limit;
  price_input = codes "150.25";
  qty_input = codes "100";
  display_input = codes "";
  error = none;
}

abbrev plain_intent : OrderIntent
plain_intent = record {
  side = buy;
  ord_type = limit;
  tif = gtc;
  price_px = pos 1502500;
  qty = pos 100;
  display_qty = pos 0;
}

-- The connection opens, is lost, and opens again, and an order is typed on the chart page.
abbrev typed : List TerminalEvent
typed =
    arrived (opened 0)
    ∷ arrived (closed 0)
    ∷ arrived timer_fired
    ∷ arrived (opened 1)
    ∷ navigated chart_page
    ∷ ticket_acted (price_typed (codes "150.25")) true 8
    ∷ ticket_acted (qty_typed (codes "100")) true 8
    ∷ []

abbrev again : Terminal
again = terminal_run no_json (new_terminal 41) typed

all_terminal : All IsTerminalEvent typed
all_terminal = (tt, (tt, (tt, (tt, (tt, (tt, (tt, tt)))))))

on_chart : has_ticket again.page ≡ true
unfolding terminal_run terminal_step terminal_acted navigate ticket_step
on_chart = refl

again_emits :
    (ticket_step again.ticket (acted (ticket_props (state_of again)) submit_clicked)).1
    ≡ some plain_intent
unfolding terminal_run terminal_step terminal_acted navigate ticket_step page_step step mount
    ticket_props shown_state run reducer submit validate_order_input validate_display_qty
    parse_price
again_emits = refl

second_id : again.app.gen.next ≡ pos 41
unfolding terminal_run terminal_step terminal_acted navigate ticket_step page_step step mount
    ticket_props shown_state run reducer
second_id = refl

second_socket : again.app.hook.socket_ref ≡ some 1
unfolding terminal_run terminal_step terminal_acted navigate ticket_step page_step step mount
    ticket_props shown_state run reducer
second_socket = refl

terminal_submit-IsPending_example :
    ((state_of again).connection ≡ open_)
    × IsPending again.app plain_intent 41 9 (handle_submit again.app plain_intent true 9)
    × ((terminal_step no_json again (ticket_acted submit_clicked true 9)).app
        ≡ (handle_submit again.app plain_intent true 9).0)
terminal_submit-IsPending_example =
    terminal_submit-IsPending no_json 41 typed again plain_intent 41 1 9 all_terminal refl on_chart
      again_emits second_id (omega arith) (omega arith) second_socket

terminal_run-page_run_example :
    (pes : List PageEvent) × All IsSoundEvent pes
    × ((terminal_run no_json (new_terminal 41) typed).app ≡ page_run no_json (mounted 41) pes)
terminal_run-page_run_example = terminal_run-page_run no_json 41 typed all_terminal
