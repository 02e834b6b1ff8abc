-- ===== src/State/Orders.antt =====
-- app/frontend/src/state/reducer.ts: the rows of the blotter and their transitions.
pub mod Sides
pub mod Rows
use low_latency_matching_eng.Prelude.{
  ℤ, pos, ◌-ℤ◌, List, [], ◌∷◌, Option, none, some, Bool, true, false, ltb_ℤ, eqb_ℤ, max_ℤ, find?,
  any, ◌&&◌, if◌then◌else◌,
}
use low_latency_matching_eng.Protocol.Frames.{
  Side, buy, sell, TimeInForce, OrdType, ExecFrame, ExecType, order_accepted, order_filled,
  order_partially_filled, order_cancelled, order_rejected, order_expired,
}

pub data OrderStatus : Type 0 where
  pending open_ partially_filled filled cancelled rejected expired : OrderStatus

-- `TERMINAL.includes(status)`
abbrev pub is_terminal : OrderStatus → Bool
is_terminal filled = true
is_terminal cancelled = true
is_terminal rejected = true
is_terminal expired = true
is_terminal _ = false

abbrev pub is_cancellable : OrderStatus → Bool
is_cancellable open_ = true
is_cancellable partially_filled = true
is_cancellable _ = false

pub record MyOrder : Type 0 where
  pub cl_ord_id : ℤ
  pub side : Side
  pub price_px : ℤ
  pub original_qty : ℤ
  pub remaining_qty : ℤ
  pub status : OrderStatus
  pub ord_type : OrdType
  pub tif : TimeInForce
  pub display_qty : ℤ
  pub sent_at_nanos : Option ℤ

-- `o.clOrdId === id`
abbrev pub has_id : ℤ → MyOrder → Bool
has_id id o = eqb_ℤ o.cl_ord_id id

-- A value that a transition returns: the object that it was given, or one that it has built. The
-- test `updated !== o` asks which.
pub data Ref {ℓ} (A : Type ℓ) : Type ℓ where
  same : Ref A
  fresh : A → Ref A

abbrev pub deref {ℓ} : {A : Type ℓ} → A → Ref A → A
deref o same = o
deref o (fresh x) = x

abbrev pub is_fresh {ℓ} : {A : Type ℓ} → Ref A → Bool
is_fresh same = false
is_fresh (fresh x) = true

-- The label of an accepted order keeps a partial fill.
abbrev accepted_status : OrderStatus → OrderStatus
accepted_status partially_filled = partially_filled
accepted_status _ = open_

-- The switch of `nextOrder`, on an order that is not terminal.
exec_row : MyOrder → ExecFrame → ExecType → MyOrder
exec_row order frame order_accepted = record order {
  status = accepted_status order.status;
  remaining_qty = frame.remaining_quantity;
}
exec_row order frame order_partially_filled = record order {
  status = partially_filled;
  remaining_qty = frame.remaining_quantity;
}
exec_row order frame order_filled = record order { status = filled; remaining_qty = pos 0 }
exec_row order frame order_cancelled = record order { status = cancelled }
exec_row order frame order_rejected = record order { status = rejected }
exec_row order frame order_expired = record order {
  status = expired;
  remaining_qty = frame.remaining_quantity;
}

unfoldable pub next_order : MyOrder → ExecFrame → Ref MyOrder
unfolding exec_row
next_order order frame =
    if is_terminal order.status then same else fresh (exec_row order frame frame.exec_type)

unfoldable pub passive_fill : MyOrder → ℤ → Ref MyOrder
passive_fill order filled_qty =
    if is_terminal order.status
    then same
    else let remaining = max_ℤ (pos 0) (order.remaining_qty -ℤ filled_qty) in
      fresh (record order {
        remaining_qty = remaining;
        status = if eqb_ℤ remaining (pos 0) then filled else partially_filled;
      })

-- `sideOf(id)`
abbrev side_of_row : Option MyOrder → Option Side
side_of_row none = none
side_of_row (some o) = some o.side

unfoldable pub side_of : List MyOrder → ℤ → Option Side
side_of my_orders id = if ltb_ℤ (pos 0) id then side_of_row (find? (has_id id) my_orders) else none

abbrev pub opposite : Side → Side
opposite buy = sell
opposite sell = buy

unfoldable pub aggressor_side_for : List MyOrder → ℤ → ℤ → Option Side
aggressor_side_for my_orders aggressor_order_id passive_order_id =
    elim (side_of my_orders aggressor_order_id) [
      | some side ↦ some side
      | none ↦ elim (side_of my_orders passive_order_id) [
        | some side ↦ some (opposite side)
        | none ↦ none
      ]
    ]

-- `knows(id)` of `applyExec`
unfoldable pub knows : List MyOrder → ℤ → Bool
knows my_orders id = ltb_ℤ (pos 0) id && any (has_id id) my_orders
