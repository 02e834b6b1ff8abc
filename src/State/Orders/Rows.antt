-- ===== src/State/Orders/Rows.antt =====
-- reducer.ts, `nextOrder` and `passiveFill`: how one row may change.
use low_latency_matching_eng.Prelude.{
  ℕ, ℤ, pos, ◌-ℤ◌, ◌≤ℤ◌, ◌≤◌, -ℤ_parts, eqb_ℤ_iff, max_ℤ, Bool, true, false, ◌≡◌, sym, subst, ◌∙◌,
  arith,
}
use native.Mathlib.Nat.{le_trans}
use low_latency_matching_eng.Protocol.Frames.{
  ExecFrame, ExecType, order_accepted, order_partially_filled, order_expired,
}
use low_latency_matching_eng.State.Orders.{
  OrderStatus, pending, open_, partially_filled, filled, is_terminal, MyOrder, deref, next_order,
  passive_fill,
}

-- How far an order has come. The terminal states are one rank.
abbrev pub rank : OrderStatus → ℕ
rank pending = 0
rank open_ = 1
rank partially_filled = 2
rank _ = 3

-- What a row keeps when it changes into another: all that was captured when it was sent. The status
-- never goes back, and a terminal row does not change at all.
pub record Evolves (o o' : MyOrder) : Type 0 where
  pub id_kept : o'.cl_ord_id ≡ o.cl_ord_id
  pub side_kept : o'.side ≡ o.side
  pub price_kept : o'.price_px ≡ o.price_px
  pub original_kept : o'.original_qty ≡ o.original_qty
  pub ord_type_kept : o'.ord_type ≡ o.ord_type
  pub tif_kept : o'.tif ≡ o.tif
  pub display_kept : o'.display_qty ≡ o.display_qty
  pub sent_at_kept : o'.sent_at_nanos ≡ o.sent_at_nanos
  pub forward : rank o.status ≤ rank o'.status
  pub frozen : is_terminal o.status ≡ true → o' ≡ o

pub Evolves-refl : (o : MyOrder) → Evolves o o
Evolves-refl o = ground arith

pub Evolves-trans : {o o' o'' : MyOrder} → Evolves o o' → Evolves o' o'' → Evolves o o''
Evolves-trans h k = record {
  id_kept = k.id_kept ∙ h.id_kept;
  side_kept = k.side_kept ∙ h.side_kept;
  price_kept = k.price_kept ∙ h.price_kept;
  original_kept = k.original_kept ∙ h.original_kept;
  ord_type_kept = k.ord_type_kept ∙ h.ord_type_kept;
  tif_kept = k.tif_kept ∙ h.tif_kept;
  display_kept = k.display_kept ∙ h.display_kept;
  sent_at_kept = k.sent_at_kept ∙ h.sent_at_kept;
  forward = le_trans h.forward k.forward;
  frozen =
      (λ t. k.frozen (subst (λ r. is_terminal r.status ≡ true) (sym (h.frozen t)) t) ∙ h.frozen t);
}

pub next_order-Evolves : (o : MyOrder) (f : ExecFrame) → Evolves o (deref o (next_order o f))
unfolding next_order
next_order-Evolves o f = ground arith

pub passive_fill-Evolves : (o : MyOrder) (q : ℤ) → Evolves o (deref o (passive_fill o q))
unfolding passive_fill
passive_fill-Evolves o q = ground arith

-- The remaining quantity lies between zero and the original one.
abbrev pub IsInRange : MyOrder → Type 0
IsInRange o = (pos 0 ≤ℤ o.remaining_qty) × (o.remaining_qty ≤ℤ o.original_qty)

-- The kinds of reports that give the remaining quantity of the order they name; a fill in full leaves
-- nothing, and a cancel or a reject gives the sentinel -1.
abbrev pub gives_remaining : ExecType → Bool
gives_remaining order_accepted = true
gives_remaining order_partially_filled = true
gives_remaining order_expired = true
gives_remaining _ = false

-- The same of the quantity that an execution report gives for an order, if it gives one.
abbrev pub Reports : MyOrder → ExecFrame → Type 0
Reports o f =
    gives_remaining f.exec_type ≡ true
    → (pos 0 ≤ℤ f.remaining_quantity) × (f.remaining_quantity ≤ℤ o.original_qty)

pub next_order-IsInRange :
    (o : MyOrder) (f : ExecFrame) → IsInRange o → Reports o f → IsInRange (deref o (next_order o f))
unfolding next_order
next_order-IsInRange o f h r = ground arith

pub passive_fill-IsInRange :
    (o : MyOrder) (q : ℤ) → IsInRange o → pos 0 ≤ℤ q → IsInRange (deref o (passive_fill o q))
unfolding passive_fill
passive_fill-IsInRange o q h r = ground (arith, -ℤ_parts o.remaining_qty q)

-- A row whose status is FILLED has nothing left.
abbrev pub IsSettled : MyOrder → Type 0
IsSettled o = o.status ≡ filled → o.remaining_qty ≡ pos 0

pub next_order-IsSettled :
    (o : MyOrder) (f : ExecFrame) → IsSettled o → IsSettled (deref o (next_order o f))
unfolding next_order
next_order-IsSettled o f h = ground arith

pub passive_fill-IsSettled :
    (o : MyOrder) (q : ℤ) → IsSettled o → IsSettled (deref o (passive_fill o q))
unfolding passive_fill
passive_fill-IsSettled o q h =
    ground (arith, eqb_ℤ_iff (max_ℤ (pos 0) (o.remaining_qty -ℤ q)) (pos 0))
