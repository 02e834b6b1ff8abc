-- ===== src/Ticket.antt =====
-- app/frontend/src/components/OrderEntry.tsx and CancelTicket.tsx: the two tickets, as the functions
-- of their form state. The controls are in the child Controls.
mod Tests
pub mod Inputs
pub mod Submit
pub mod Prices
pub mod Controls
use low_latency_matching_eng.Prelude.{
  ℕ, suc, ◌+◌, ◌*◌, ◌/◌, ◌==◌, ltb, leb, ℤ, pos, ◌+ℤ◌, ◌*ℤ◌, leb_ℤ, ltb_ℤ, eqb_ℤ, max_ℤ, pos_part,
  List, [], ◌∷◌, Option, none, some, Bool, true, false, not, Text, ◌&&◌, ◌||◌, if◌then◌else◌,
}
use low_latency_matching_eng.Protocol.Value.{whole}
use low_latency_matching_eng.Protocol.Frames.{
  Side, TimeInForce, gtc, ioc, fok, OrdType, limit, peg_mid, OrderIntent, na,
}
use low_latency_matching_eng.Protocol.Encode.{max_safe}
use low_latency_matching_eng.Format.{trim, is_digit, value_of, decimal, parse_price, format_price}

-- The texts PRICE_REASON, QTY_REASON, DISPLAY_REASON and ID_REASON.
pub data Reason : Type 0 where
  price_reason qty_reason display_reason id_reason : Reason

pub data Validated {ℓ} (A : Type ℓ) : Type ℓ where
  valid : A → Validated A
  invalid : Reason → Validated A

infixl 5 ◌>>=◌
abbrev pub ◌>>=◌ {ℓ κ} : {A : Type ℓ} {B : Type κ} → Validated A → (A → Validated B) → Validated B
valid a >>= k = k a
invalid r >>= k = invalid r

abbrev pub every_digit : Text → Bool
every_digit [] = true
every_digit (c ∷ s) = is_digit c && every_digit s

-- `/^\d+$/.test(s)`
abbrev pub all_digits : Text → Bool
all_digits [] = false
all_digits (c ∷ s) = every_digit (c ∷ s)

-- The shared body of the three whole-number validations: digits, a positive safe integer.
positive_whole : Reason → Text → Validated ℕ
positive_whole reason trimmed =
    if not (all_digits trimmed)
    then invalid reason
    else if not (leb (value_of trimmed) max_safe) || leb (value_of trimmed) 0
    then invalid reason
    else valid (value_of trimmed)

unfoldable pub validate_qty_input : Text → Validated ℕ
unfolding positive_whole
validate_qty_input qty_input = positive_whole qty_reason (trim qty_input)

unfoldable pub validate_orig_cl_ord_id : Text → Validated ℕ
unfolding positive_whole
validate_orig_cl_ord_id input = positive_whole id_reason (trim input)

price_or_reason : Option ℤ → Validated ℤ
price_or_reason none = invalid price_reason
price_or_reason (some px) = valid px

unfoldable pub validate_order_input : Text → Text → Validated (ℤ × ℕ)
unfolding validate_qty_input price_or_reason
validate_order_input price_input qty_input = do
  price_px ← price_or_reason (parse_price price_input)
  qty ← validate_qty_input qty_input
  valid (price_px, qty)

display_of : ℕ → ℕ → Validated ℕ
display_of qty display =
    if ltb qty display
    then invalid display_reason
    else valid (if display == qty then 0 else display)

display_trimmed : Text → ℕ → Validated ℕ
unfolding positive_whole display_of
display_trimmed [] qty = valid 0
display_trimmed (c ∷ s) qty = do
  display ← positive_whole display_reason (c ∷ s)
  display_of qty display

unfoldable pub validate_display_qty : Text → ℕ → Validated ℕ
unfolding display_trimmed
validate_display_qty display_input qty = display_trimmed (trim display_input) qty

abbrev pub tick_px : ℕ
tick_px = 100

-- `Math.ceil(mid / TICK_PX) * TICK_PX` of the half sum, in whole numbers.
unfoldable pub mid_chip_px : ℤ → ℤ → Option ℤ
mid_chip_px best_bid best_ask =
    if leb_ℤ best_bid (pos 0) || leb_ℤ best_ask (pos 0)
    then none
    else some (pos ((pos_part best_bid + pos_part best_ask + 199) / 200 * tick_px))

unfoldable pub nudge_px : ℤ → ℤ → ℤ → ℤ
nudge_px px steps tick = max_ℤ tick (px +ℤ steps *ℤ tick)

abbrev is_nil : Text → Bool
is_nil [] = true
is_nil (c ∷ s) = false

unfoldable pub apply_preset : Text → ℕ → Text
apply_preset current preset = if is_nil (trim current) then decimal preset else current

pub record TicketState : Type 0 where
  pub side : Side
  pub tif : TimeInForce
  pub ord_type : OrdType
  pub price_input : Text
  pub qty_input : Text
  pub display_input : Text
  pub error : Option Reason

abbrev failed : TicketState → Reason → TicketState × Option OrderIntent
failed st reason = (record st { error = some reason }, none)

-- `applyPrice`
unfoldable pub apply_price : TicketState → ℤ → TicketState
apply_price st price_px = record st { price_input = format_price (whole price_px); error = none }

submit_peg : TicketState → Validated ℕ → TicketState × Option OrderIntent
submit_peg st (invalid reason) = failed st reason
submit_peg st (valid qty) = (
  record st { error = none; qty_input = [] },
  some (record {
    side = st.side;
    ord_type = peg_mid;
    tif = st.tif;
    price_px = na;
    qty = pos qty;
    display_qty = pos 0;
  }),
)

-- The display quantity is read for a GTC order only.
display_for : TimeInForce → Text → ℕ → Validated ℕ
display_for gtc display_input qty = validate_display_qty display_input qty
display_for _ display_input qty = valid 0

limit_of : TicketState → Validated (ℤ × ℕ × ℕ)
unfolding display_for
limit_of st = do
  (price_px, qty) ← validate_order_input st.price_input st.qty_input
  display_qty ← display_for st.tif st.display_input qty
  valid (price_px, qty, display_qty)

submit_limit : TicketState → Validated (ℤ × ℕ × ℕ) → TicketState × Option OrderIntent
submit_limit st (invalid reason) = failed st reason
submit_limit st (valid (price_px, qty, display_qty)) = (
  record st { error = none; price_input = []; qty_input = []; display_input = [] },
  some (record {
    side = st.side;
    ord_type = limit;
    tif = st.tif;
    price_px = price_px;
    qty = pos qty;
    display_qty = pos display_qty;
  }),
)

abbrev submit_as : OrdType → TicketState → TicketState × Option OrderIntent
submit_as peg_mid st = submit_peg st (validate_qty_input st.qty_input)
submit_as limit st = submit_limit st (limit_of st)

-- The form after the click, and the intent handed to `onSubmit`, if any.
unfoldable pub submit : Bool → TicketState → TicketState × Option OrderIntent
unfolding submit_peg submit_limit limit_of
submit disabled st = if disabled then (st, none) else submit_as st.ord_type st

nudge_from : TicketState → ℤ → Option ℤ → TicketState
unfolding apply_price
nudge_from st steps none = st
nudge_from st steps (some current) = apply_price st (nudge_px current steps (pos tick_px))

unfoldable pub nudge : Bool → ℤ → TicketState → TicketState
unfolding nudge_from
nudge disabled steps st = if disabled then st else nudge_from st steps (parse_price st.price_input)

-- The cancel ticket: its form state and its submit.
pub record CancelTicketState : Type 0 where
  pub id_input : Text
  pub error : Option Reason

cancel_with : CancelTicketState → Validated ℕ → CancelTicketState × Option ℤ
cancel_with st (invalid reason) = (record st { error = some reason }, none)
cancel_with st (valid id) = (record { id_input = []; error = none }, some (pos id))

unfoldable pub cancel_submit : Bool → CancelTicketState → CancelTicketState × Option ℤ
unfolding cancel_with
cancel_submit disabled st =
    if disabled then (st, none) else cancel_with st (validate_orig_cl_ord_id st.id_input)
