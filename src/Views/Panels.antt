-- ===== src/Views/Panels.antt =====
-- The pure helpers of app/frontend/src/components/OpenOrders.tsx, Header.tsx, TradeTape.tsx and
-- DepthLadder.tsx.
use low_latency_matching_eng.Prelude.{
  ℤ, pos, ◌+ℤ◌, ◌-ℤ◌, ltb_ℤ, max_ℤ, List, [], ◌∷◌, Bool, true, Text, ◌&&◌, if◌then◌else◌,
}
use low_latency_matching_eng.Protocol.Frames.{OrdType, limit, peg_mid}
use low_latency_matching_eng.Protocol.Value.{whole}
use low_latency_matching_eng.Format.{empty_price, format_price}
use low_latency_matching_eng.State.Orders.{MyOrder, is_terminal}
use low_latency_matching_eng.State.Model.{TapeEntry}

unfoldable pub filled_of : MyOrder → ℤ
filled_of order = max_ℤ (pos 0) (order.original_qty -ℤ order.remaining_qty)

-- The texts MID, ICE and LMT.
pub data TypeLabel : Type 0 where
  mid ice lmt : TypeLabel

abbrev limit_label : OrdType → ℤ → TypeLabel
limit_label peg_mid display_qty = mid
limit_label limit display_qty = if ltb_ℤ (pos 0) display_qty then ice else lmt

unfoldable pub order_type_label : MyOrder → TypeLabel
order_type_label order = limit_label order.ord_type order.display_qty

-- The `reduce` of `sessionFilledQty`, from a sum; the header repeats `filledOf` there.
unfoldable pub filled_from : ℤ → List MyOrder → ℤ
filled_from sum [] = sum
filled_from sum (o ∷ os) = filled_from (sum +ℤ max_ℤ (pos 0) (o.original_qty -ℤ o.remaining_qty)) os

unfoldable pub session_filled_qty : List MyOrder → ℤ
session_filled_qty orders = filled_from (pos 0) orders

-- The `reduce` of `sessionWorkingQty`, from a sum.
unfoldable pub working_from : ℤ → List MyOrder → ℤ
working_from sum [] = sum
working_from sum (o ∷ os) =
    working_from (if is_terminal o.status then sum else sum +ℤ o.remaining_qty) os

unfoldable pub session_working_qty : List MyOrder → ℤ
session_working_qty orders = working_from (pos 0) orders

pub data BlockFilter : Type 0 where
  all_sizes gt200 gt500 : BlockFilter

unfoldable pub passes_block_filter : ℤ → BlockFilter → Bool
passes_block_filter quantity gt200 = ltb_ℤ (pos 200) quantity
passes_block_filter quantity gt500 = ltb_ℤ (pos 500) quantity
passes_block_filter quantity all_sizes = true

pub data TickDirection : Type 0 where
  up down flat : TickDirection

abbrev against : ℤ → List TapeEntry → TickDirection
against px [] = flat
against px (prev ∷ rest) =
    if ltb_ℤ prev.price_px px then up else if ltb_ℤ px prev.price_px then down else flat

unfoldable pub tick_directions : List TapeEntry → List TickDirection
tick_directions [] = []
tick_directions (entry ∷ rest) = against entry.price_px rest ∷ tick_directions rest

unfoldable pub spread_label : ℤ → ℤ → Text
spread_label best_bid best_ask =
    if ltb_ℤ (pos 0) best_bid && ltb_ℤ (pos 0) best_ask
    then format_price (whole (best_ask -ℤ best_bid))
    else empty_price
