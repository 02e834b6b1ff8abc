-- ===== src/Views/Tables/Orders.antt =====
-- OpenOrders.tsx: the rows of the blotter over a session.
use low_latency_matching_eng.Prelude.{
  ℕ, ℤ, pos, ◌-ℤ◌, -ℤ_parts, eq_of_parts, ◌≤ℤ◌, max_ℤ, List, [], ◌∷◌, none, some, some-inj,
  none≢some, All, false, ◌≡◌, refl, ap, sym, ◌∙◌, if◌then◌else◌, arith,
}
use low_latency_matching_eng.State.Model.{Action, initial_state}
use low_latency_matching_eng.State.Orders.{
  MyOrder, OrderStatus, pending, open_, partially_filled, filled, cancelled, rejected, expired,
  is_terminal, is_cancellable,
}
use low_latency_matching_eng.State.Orders.Rows.{IsInRange, IsSettled}
use low_latency_matching_eng.State.Reducer.{run}
use low_latency_matching_eng.State.Reducer.Quantities.{AllHonest, blotter_quantities}
use low_latency_matching_eng.Views.Panels.{filled_of}
use low_latency_matching_eng.Views.Tables.{OrderRow, order_row, open_orders}

-- What a row promises.
pub record IsRow (r : OrderRow) : Type 0 where
  pub at_least_none : pos 0 ≤ℤ r.filled
  pub at_most_all : r.filled ≤ℤ r.original
  pub all_when_filled : r.status ≡ filled → r.filled ≡ r.original
  pub live_when_cancel :
      (id : ℤ) → r.cancel ≡ some id → (id ≡ r.id) × (is_terminal r.status ≡ false)

cancel_live :
    (s : OrderStatus) (own id : ℤ)
    → (if is_cancellable s then some own else none) ≡ some id
    → (id ≡ own) × (is_terminal s ≡ false)
cancel_live open_ own id h = (sym (some-inj h), refl)
cancel_live partially_filled own id h = (sym (some-inj h), refl)
cancel_live pending own id h = absurd (none≢some h)
cancel_live filled own id h = absurd (none≢some h)
cancel_live cancelled own id h = absurd (none≢some h)
cancel_live rejected own id h = absurd (none≢some h)
cancel_live expired own id h = absurd (none≢some h)

difference_bounds :
    (q r : ℤ)
    → pos 0 ≤ℤ r
    → r ≤ℤ q
    → (pos 0 ≤ℤ max_ℤ (pos 0) (q -ℤ r)) × (max_ℤ (pos 0) (q -ℤ r) ≤ℤ q)
difference_bounds q r h k = (ground (arith, -ℤ_parts q r), ground (arith, -ℤ_parts q r))

whole_difference : (q : ℤ) → pos 0 ≤ℤ q → max_ℤ (pos 0) (q -ℤ pos 0) ≡ q
whole_difference q h =
    ap (max_ℤ (pos 0)) (eq_of_parts (q -ℤ pos 0) q (omega (arith, -ℤ_parts q (pos 0)))) ∙ above q h
  where
    above : (q : ℤ) → pos 0 ≤ℤ q → max_ℤ (pos 0) q ≡ q
    above q h = ground (arith, eq_of_parts (pos 0) q)

order_row-IsRow :
    (local_ms : ℕ → ℕ) (o : MyOrder) → IsInRange o → IsSettled o → IsRow (order_row local_ms o)
unfolding order_row filled_of
order_row-IsRow local_ms o (a, b) s =
    let bounds = difference_bounds o.original_qty o.remaining_qty a b in
    record {
      at_least_none = bounds.0;
      at_most_all = bounds.1;
      all_when_filled = λ h.
          ap (λ r. max_ℤ (pos 0) (o.original_qty -ℤ r)) (s h)
          ∙ whole_difference o.original_qty (omega (arith, a, b));
      live_when_cancel = λ id h. cancel_live o.status o.cl_ord_id id h;
    }

open_rows-IsRow :
    (local_ms : ℕ → ℕ) (os : List MyOrder)
    → All IsInRange os
    → All IsSettled os
    → All IsRow (open_orders local_ms os)
unfolding open_orders
open_rows-IsRow local_ms [] h k = tt
open_rows-IsRow local_ms (o ∷ os) (a, h) (b, k) =
    (order_row-IsRow local_ms o a b, open_rows-IsRow local_ms os h k)

-- From the initial state, after dispatches in which every new order and every fill has a quantity of at
-- least zero, and every report of acceptance, partial fill or expiry for an own order gives a remaining
-- quantity between zero and the original one, in every row of the table: what is filled lies between
-- nothing and the original quantity, and is all of it in a FILLED row; and a Cancel button stands only
-- in a row whose order can still change, and hands on the id of that row.
pub open_orders-IsRow :
    (local_ms : ℕ → ℕ) (acts : List Action)
    → AllHonest initial_state acts
    → All IsRow (open_orders local_ms (run initial_state acts).my_orders)
open_orders-IsRow local_ms acts t =
    let (ranges, settled) = blotter_quantities acts t in
    open_rows-IsRow local_ms (run initial_state acts).my_orders ranges settled
