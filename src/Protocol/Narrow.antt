-- ===== src/Protocol/Narrow.antt =====
-- app/frontend/src/protocol/messages.ts: the one place where raw JSON becomes a typed frame.
-- `null` results are `none`. `JSON.parse` is a parameter, whose exception is `none`.
pub mod Parts
pub mod Conforms
use text.Mathlib.Text.{◌==◌ as str_eq}
use low_latency_matching_eng.Prelude.{
  ℤ, String, List, [], ◌∷◌, Option, none, some, Bool, true, false, not, if◌then◌else◌,
}
use low_latency_matching_eng.Protocol.Value.{
  Value, undefined, null, boolean, number, string, array, object, Items, nil, item, Members, get,
  whole, fractional, infinite,
}
use low_latency_matching_eng.Protocol.Frames.{
  ExecType, order_accepted, order_filled, order_partially_filled, order_cancelled, order_rejected,
  order_expired, Level, ServerFrame, book, exec, fix,
}

infixl 5 ◌>>=◌
abbrev pub ◌>>=◌ {ℓ κ} : {A : Type ℓ} {B : Type κ} → Option A → (A → Option B) → Option B
none >>= k = none
some a >>= k = k a

unfoldable pub int : Value → Option ℤ
int (number (whole n)) = some n
int _ = none

-- The empty string is refused.
unfoldable pub str : Value → Option String
str (string s) = if str_eq s "" then none else some s
str _ = none

-- One entry of `levels`: an array of exactly two integers.
level : Value → Option Level
unfolding int
level (array (item p (item q nil))) = do
  price ← int p
  qty ← int q
  some (record { price = price; qty = qty })
level _ = none

level_items : Items → Option (List Level)
level_items nil = some []
level_items (item raw rest) = do first ← level raw; others ← level_items rest; some (first ∷ others)

unfoldable pub levels : Value → Option (List Level)
unfolding level level_items
levels (array raws) = level_items raws
levels _ = none

-- `EXEC_TYPES.includes(value)`, and the name that it is.
abbrev exec_type_named : String → Option ExecType
exec_type_named s =
    if str_eq s "ORDER_ACCEPTED"
    then some order_accepted
    else if str_eq s "ORDER_FILLED"
    then some order_filled
    else if str_eq s "ORDER_PARTIALLY_FILLED"
    then some order_partially_filled
    else if str_eq s "ORDER_CANCELLED"
    then some order_cancelled
    else if str_eq s "ORDER_REJECTED"
    then some order_rejected
    else if str_eq s "ORDER_EXPIRED"
    then some order_expired
    else none

unfoldable pub exec_type_of : Value → Option ExecType
exec_type_of (string s) = exec_type_named s
exec_type_of _ = none

narrow_book : Members → Option ServerFrame
narrow_book ms = do
  best_bid ← int (get "bestBid" ms)
  best_ask ← int (get "bestAsk" ms)
  timestamp ← int (get "timestamp" ms)
  bids ← levels (get "bids" ms)
  asks ← levels (get "asks" ms)
  some (
      book (record {
        best_bid = best_bid;
        best_ask = best_ask;
        bids = bids;
        asks = asks;
        timestamp = timestamp;
      }))

narrow_exec : Members → Option ServerFrame
narrow_exec ms = do
  exec_type ← exec_type_of (get "execType" ms)
  order_id ← int (get "orderId" ms)
  trade_id ← int (get "tradeId" ms)
  price ← int (get "price" ms)
  filled_quantity ← int (get "filledQuantity" ms)
  remaining_quantity ← int (get "remainingQuantity" ms)
  aggressor_order_id ← int (get "aggressorOrderId" ms)
  passive_order_id ← int (get "passiveOrderId" ms)
  timestamp ← int (get "timestamp" ms)
  some (
      exec (record {
        exec_type = exec_type;
        order_id = order_id;
        trade_id = trade_id;
        price = price;
        filled_quantity = filled_quantity;
        remaining_quantity = remaining_quantity;
        aggressor_order_id = aggressor_order_id;
        passive_order_id = passive_order_id;
        timestamp = timestamp;
      }))

-- `value === literal`
unfoldable pub is_text : String → Value → Bool
is_text literal (string s) = str_eq s literal
is_text literal _ = false

narrow_fix : Members → Option ServerFrame
narrow_fix ms =
    if is_text "INBOUND" (get "direction" ms)
    then (do
      raw ← str (get "raw" ms)
      seq_num ← int (get "seqNum" ms)
      timestamp ← int (get "timestamp" ms)
      some (fix (record { raw = raw; seq_num = seq_num; timestamp = timestamp })))
    else none

-- The switch on `parsed.type`, after `isRecord`.
unfoldable pub narrow : Value → Option ServerFrame
unfolding narrow_book narrow_exec narrow_fix is_text
narrow (object ms) =
    if is_text "BOOK" (get "type" ms)
    then narrow_book ms
    else if is_text "EXEC" (get "type" ms)
    then narrow_exec ms
    else if is_text "FIX" (get "type" ms)
    then narrow_fix ms
    else none
narrow _ = none

module _ (json_parse : String → Option Value) where
  unfoldable pub parse_server_frame : String → Option ServerFrame
  parse_server_frame raw = do parsed ← json_parse raw; narrow parsed
