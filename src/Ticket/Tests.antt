-- ===== src/Ticket/Tests.antt =====
-- OrderEntry.tsx and CancelTicket.tsx on concrete inputs.
use low_latency_matching_eng.Prelude.{
  List, [], ◌∷◌, All, suc, ◌*◌, pos, none, some, false, true, codes, ◌≡◌, refl, arith,
}
use low_latency_matching_eng.Protocol.Frames.{buy, gtc, limit, peg_mid, OrderIntent}
use low_latency_matching_eng.Format.{trim, parse_price, format_price}
use low_latency_matching_eng.Ticket.{
  validate_qty_input, validate_order_input, validate_display_qty, TicketState, submit, apply_price,
  apply_preset,
}
use low_latency_matching_eng.Ticket.Submit.{IsSound, IsRefused, submit-IsRefused}
use low_latency_matching_eng.Ticket.Controls.{
  ticket_step, preset, TicketProps, empty_ticket, chip_bid, chip_clicked, submit_clicked, qty_typed,
  price_typed, preset_clicked, chip_price, TicketEvent, acted, set_price, ticket_run,
}
use low_latency_matching_eng.Ticket.Controls.Inert.{with_price, last_set, disabled_run}
use low_latency_matching_eng.Ticket.Controls.Intents.{
  IsReady, plain_limit, ticket_run-IsSound, chip-submit,
}

-- An iceberg order of 100 that shows 25.
abbrev iceberg : TicketState
iceberg = record {
  side = buy;
  tif = gtc;
  ord_type = limit;
  price_input = codes "150.25";
  qty_input = codes "100";
  display_input = codes "25";
  error = none;
}

abbrev iceberg_intent : OrderIntent
iceberg_intent = record {
  side = buy;
  ord_type = limit;
  tif = gtc;
  price_px = pos 1502500;
  qty = pos 100;
  display_qty = pos 25;
}

-- The quantity is missing.
abbrev no_quantity : TicketState
no_quantity = record iceberg { qty_input = codes " " }

iceberg_sent : (submit false iceberg).1 ≡ some iceberg_intent
unfolding submit validate_order_input validate_display_qty parse_price
iceberg_sent = refl

nothing_sent : (submit false no_quantity).1 ≡ none
unfolding submit validate_order_input validate_display_qty parse_price
nothing_sent = refl

iceberg_price : parse_price iceberg.price_input ≡ some (pos (suc 15024 * 100))
unfolding parse_price
iceberg_price = refl

submit-IsRefused_example : IsRefused no_quantity (submit false no_quantity).0
submit-IsRefused_example = submit-IsRefused no_quantity nothing_sent

abbrev open_props : TicketProps
open_props = record { disabled = false; best_bid_px = pos 1502500; best_ask_px = pos 1502800 }

abbrev moved_props : TicketProps
moved_props = record { disabled = false; best_bid_px = pos 1502600; best_ask_px = pos 1502800 }

abbrev closed_props : TicketProps
closed_props = record { disabled = true; best_bid_px = pos 1502500; best_ask_px = pos 1502800 }

abbrev clicks : List TicketEvent
clicks =
    acted open_props (preset_clicked 50)
    ∷ acted open_props (chip_clicked chip_bid)
    ∷ acted moved_props submit_clicked
    ∷ []

clicks_sent : (ticket_run empty_ticket clicks).1 ≡ plain_limit empty_ticket 1502500 50 ∷ []
unfolding ticket_run ticket_step chip_price preset validate_qty_input parse_price format_price
    submit validate_order_input validate_display_qty apply_preset
clicks_sent = refl

ticket_run-IsSound_example : All IsSound (ticket_run empty_ticket clicks).1
ticket_run-IsSound_example = ticket_run-IsSound empty_ticket clicks

-- Attempts while the socket is down, with a click in the depth curve between them.
abbrev offline : List TicketEvent
offline =
    acted closed_props (price_typed (codes "1"))
    ∷ set_price (pos 1502500)
    ∷ acted closed_props submit_clicked
    ∷ []

price_written : (ticket_run empty_ticket offline).0.price_input ≡ codes "150.25"
unfolding ticket_run ticket_step apply_price format_price
price_written = refl

disabled_run_example : ticket_run iceberg offline ≡ (with_price iceberg (last_set offline), [])
disabled_run_example = disabled_run iceberg offline (refl, (tt, (refl, tt)))

abbrev pegged_iceberg : TicketState
pegged_iceberg = record iceberg { ord_type = peg_mid }

abbrev peg_clicks : List TicketEvent
peg_clicks =
    acted open_props (qty_typed (codes "5"))
    ∷ acted open_props (price_typed (codes "1"))
    ∷ acted open_props submit_clicked
    ∷ []

abbrev plain_ticket : TicketState
plain_ticket = record iceberg { display_input = []; price_input = [] }

plain-IsReady : IsReady plain_ticket 100
unfolding validate_qty_input trim
plain-IsReady = record { is_limit = refl; quantity = refl; no_display = refl }

bid_shown : chip_price open_props chip_bid ≡ some (pos (15025 * 100))
unfolding chip_price
bid_shown = refl

chip-submit_example :
    ((ticket_run plain_ticket
        (acted open_props (chip_clicked chip_bid) ∷ acted moved_props submit_clicked ∷ [])).1
      ≡ plain_limit plain_ticket (15025 * 100) 100 ∷ [])
    × ((ticket_run plain_ticket
          (set_price (pos (15025 * 100)) ∷ acted moved_props submit_clicked ∷ [])).1
        ≡ plain_limit plain_ticket (15025 * 100) 100 ∷ [])
chip-submit_example =
    chip-submit open_props moved_props chip_bid plain_ticket 15025 100 refl refl plain-IsReady
      bid_shown (omega arith) (omega arith)
