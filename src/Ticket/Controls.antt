-- ===== src/Ticket/Controls.antt =====
-- OrderEntry.tsx and CancelTicket.tsx: the controls that the tickets render, with the conditions under
-- which each is shown and enabled, and what a click or a keystroke does.
pub mod Inert
pub mod Intents
use low_latency_matching_eng.Prelude.{
  ℕ, ◌==◌, ℤ, pos, negsuc, leb_ℤ, List, [], ◌∷◌, Option, none, some, Bool, true, false, not, Text,
  ◌&&◌, ◌||◌, if◌then◌else◌,
}
use low_latency_matching_eng.Protocol.Frames.{
  Side, buy, TimeInForce, gtc, ioc, fok, OrdType, limit, peg_mid, OrderIntent,
}
use low_latency_matching_eng.Ticket.{
  mid_chip_px, apply_preset, TicketState, apply_price, submit, nudge, CancelTicketState,
  cancel_submit,
}

abbrev pub qty_presets : List ℕ
qty_presets = 10 ∷ 50 ∷ 100 ∷ 500 ∷ []

abbrev pub tif_options : List TimeInForce
tif_options = gtc ∷ ioc ∷ fok ∷ []

abbrev pub ord_type_options : List OrdType
ord_type_options = limit ∷ peg_mid ∷ []

pub record TicketProps : Type 0 where
  pub disabled : Bool
  pub best_bid_px : ℤ
  pub best_ask_px : ℤ

abbrev pub empty_ticket : TicketState
empty_ticket = record {
  side = buy;
  tif = gtc;
  ord_type = limit;
  price_input = [];
  qty_input = [];
  display_input = [];
  error = none;
}

pub data Chip : Type 0 where
  chip_bid chip_mid chip_ask : Chip

pub data TicketControl : Type 0 where
  side_clicked : Side → TicketControl
  tif_clicked : TimeInForce → TicketControl
  ord_type_clicked : OrdType → TicketControl
  chip_clicked : Chip → TicketControl
  nudge_down nudge_up : TicketControl
  price_typed qty_typed display_typed : Text → TicketControl
  preset_clicked : ℕ → TicketControl
  submit_clicked : TicketControl

abbrev pub is_peg : OrdType → Bool
is_peg peg_mid = true
is_peg limit = false

abbrev pub is_gtc : TimeInForce → Bool
is_gtc gtc = true
is_gtc _ = false

abbrev pub contains : ℕ → List ℕ → Bool
contains n [] = false
contains n (p ∷ rest) = n == p || contains n rest

abbrev price_if_positive : ℤ → Option ℤ
price_if_positive px = if leb_ℤ px (pos 0) then none else some px

-- The price of a chip, if it is enabled by it.
unfoldable pub chip_price : TicketProps → Chip → Option ℤ
chip_price props chip_bid = price_if_positive props.best_bid_px
chip_price props chip_mid = mid_chip_px props.best_bid_px props.best_ask_px
chip_price props chip_ask = price_if_positive props.best_ask_px

abbrev apply_if : Option ℤ → TicketState → TicketState
apply_if none st = st
apply_if (some px) st = apply_price st px

-- `preset`
unfoldable pub preset : Bool → ℕ → TicketState → TicketState
preset disabled value st =
    if disabled then st else record st { qty_input = apply_preset st.qty_input value }

-- Whether the control is rendered and its own condition leaves it enabled, `disabled` aside. A chip
-- without a price is disabled.
shown : TicketState → TicketControl → Bool
shown st (chip_clicked chip) = not (is_peg st.ord_type)
shown st nudge_down = not (is_peg st.ord_type)
shown st nudge_up = not (is_peg st.ord_type)
shown st (price_typed s) = not (is_peg st.ord_type)
shown st (display_typed s) = not (is_peg st.ord_type) && is_gtc st.tif
shown st (preset_clicked n) = contains n qty_presets
shown st _ = true

-- The handler of the control.
handle : TicketProps → TicketState → TicketControl → TicketState × Option OrderIntent
handle props st (side_clicked s) = (record st { side = s }, none)
handle props st (tif_clicked t) = (record st { tif = t }, none)
handle props st (ord_type_clicked t) = (record st { ord_type = t }, none)
handle props st (chip_clicked chip) = (apply_if (chip_price props chip) st, none)
handle props st nudge_down = (nudge props.disabled (negsuc 0) st, none)
handle props st nudge_up = (nudge props.disabled (pos 1) st, none)
handle props st (price_typed s) = (record st { price_input = s }, none)
handle props st (qty_typed s) = (record st { qty_input = s }, none)
handle props st (display_typed s) = (record st { display_input = s }, none)
handle props st (preset_clicked n) = (preset props.disabled n st, none)
handle props st submit_clicked = submit props.disabled st

-- What can happen to the ticket: an action at a control, under the props of the moment, or the
-- imperative `setPrice` that the page calls on a click in the depth curve.
pub data TicketEvent : Type 0 where
  acted : TicketProps → TicketControl → TicketEvent
  set_price : ℤ → TicketEvent

-- The browser fires no handler of a disabled control.
unfoldable pub ticket_step : TicketState → TicketEvent → TicketState × Option OrderIntent
unfolding shown handle apply_price
ticket_step st (acted props c) =
    if props.disabled || not (shown st c) then (st, none) else handle props st c
ticket_step st (set_price px) = (apply_price st px, none)

abbrev emit : Option OrderIntent → List OrderIntent → List OrderIntent
emit none later = later
emit (some i) later = i ∷ later

-- The ticket after the events, and the intents handed to `onSubmit`, in order.
unfoldable pub ticket_run : TicketState → List TicketEvent → TicketState × List OrderIntent
ticket_run st [] = (st, [])
ticket_run st (e ∷ rest) =
    let (st', emitted) = ticket_step st e in
    let (last, later) = ticket_run st' rest in (last, emit emitted later)

pub data CancelControl : Type 0 where
  id_typed : Text → CancelControl
  cancel_clicked : CancelControl

unfoldable pub cancel_ticket_step :
    Bool → CancelTicketState → CancelControl → CancelTicketState × Option ℤ
cancel_ticket_step disabled st (id_typed s) =
    if disabled then (st, none) else (record st { id_input = s }, none)
cancel_ticket_step disabled st cancel_clicked = cancel_submit disabled st
