-- ===== src/Views/Totals.antt =====
-- Header.tsx: the quantity totals of the header over a whole session.
use low_latency_matching_eng.Prelude.{
  ℤ, pos, pos_part, neg_part, ap, ◌+ℤ◌, ◌-ℤ◌, +ℤ_parts, -ℤ_parts, eq_of_parts, ◌≤ℤ◌, max_ℤ, List,
  [], ◌∷◌, All, ◌≡◌, refl, Bool-cases, inl, inr, if◌then◌else◌, arith,
}
use low_latency_matching_eng.State.Orders.{MyOrder, is_terminal}
use low_latency_matching_eng.State.Orders.Rows.{IsInRange}
use low_latency_matching_eng.State.Model.{initial_state, Action}
use low_latency_matching_eng.State.Reducer.{run}
use low_latency_matching_eng.State.Reducer.Quantities.{AllHonest, blotter_quantities}
use low_latency_matching_eng.Views.Panels.{
  filled_from, session_filled_qty, working_from, session_working_qty,
}

-- What was ordered, and what terminal rows have left.
abbrev pub ordered_from : ℤ → List MyOrder → ℤ
ordered_from sum [] = sum
ordered_from sum (o ∷ os) = ordered_from (sum +ℤ o.original_qty) os

abbrev pub dropped_from : ℤ → List MyOrder → ℤ
dropped_from sum [] = sum
dropped_from sum (o ∷ os) =
    dropped_from (if is_terminal o.status then sum +ℤ o.remaining_qty else sum) os

max_lem : (q r : ℤ) → r ≤ℤ q → max_ℤ (pos 0) (q -ℤ r) ≡ q -ℤ r
max_lem q r h = ground (arith, -ℤ_parts q r)

split_terminal :
    (a b c d q r : ℤ)
    → r ≤ℤ q
    → a +ℤ b +ℤ c ≡ d
    → (a +ℤ max_ℤ (pos 0) (q -ℤ r)) +ℤ b +ℤ (c +ℤ r) ≡ d +ℤ q
split_terminal a b c d q r h e =
    let x = q -ℤ r in
    rw (max_lem q r h) (
      eq_of_parts (a +ℤ x +ℤ b +ℤ (c +ℤ r)) (d +ℤ q) (
        omega (
          arith,
          +ℤ_parts a x,
          +ℤ_parts (a +ℤ x) b,
          +ℤ_parts c r,
          +ℤ_parts (a +ℤ x +ℤ b) (c +ℤ r),
          -ℤ_parts q r,
          +ℤ_parts a b,
          +ℤ_parts (a +ℤ b) c,
          +ℤ_parts d q,
          ap pos_part e,
          ap neg_part e,
        )))

split_working :
    (a b c d q r : ℤ)
    → r ≤ℤ q
    → a +ℤ b +ℤ c ≡ d
    → (a +ℤ max_ℤ (pos 0) (q -ℤ r)) +ℤ (b +ℤ r) +ℤ c ≡ d +ℤ q
split_working a b c d q r h e =
    let x = q -ℤ r in
    rw (max_lem q r h) (
      eq_of_parts (a +ℤ x +ℤ (b +ℤ r) +ℤ c) (d +ℤ q) (
        omega (
          arith,
          +ℤ_parts a x,
          +ℤ_parts b r,
          +ℤ_parts (a +ℤ x) (b +ℤ r),
          +ℤ_parts (a +ℤ x +ℤ (b +ℤ r)) c,
          -ℤ_parts q r,
          +ℤ_parts a b,
          +ℤ_parts (a +ℤ b) c,
          +ℤ_parts d q,
          ap pos_part e,
          ap neg_part e,
        )))

totals_from :
    (rows : List MyOrder) (a b c d : ℤ)
    → All IsInRange rows
    → a +ℤ b +ℤ c ≡ d
    → filled_from a rows +ℤ working_from b rows +ℤ dropped_from c rows ≡ ordered_from d rows
unfolding filled_from working_from
totals_from [] a b c d h e = e
totals_from (o ∷ os) a b c d (r, h) e = elim (Bool-cases (is_terminal o.status)) [
  | inl t ↦ rw t (
      totals_from os (a +ℤ max_ℤ (pos 0) (o.original_qty -ℤ o.remaining_qty)) b
        (c +ℤ o.remaining_qty) (d +ℤ o.original_qty) h
        (split_terminal a b c d o.original_qty o.remaining_qty r.1 e))
  | inr t ↦ rw t (
      totals_from os (a +ℤ max_ℤ (pos 0) (o.original_qty -ℤ o.remaining_qty)) (b +ℤ o.remaining_qty)
        c (d +ℤ o.original_qty) h (split_working a b c d o.original_qty o.remaining_qty r.1 e))
]

-- From the initial state, after dispatches in which every new order and every fill has a quantity of at
-- least zero, and every report of acceptance, partial fill or expiry for an own order gives a remaining
-- quantity between zero and the original one: the filled and the working quantity of the header, and
-- what terminal rows have left, sum up to all that was ordered.
pub header_totals :
    (acts : List Action)
    → AllHonest initial_state acts
    → session_filled_qty (run initial_state acts).my_orders
        +ℤ session_working_qty (run initial_state acts).my_orders
        +ℤ dropped_from (pos 0) (run initial_state acts).my_orders
      ≡ ordered_from (pos 0) (run initial_state acts).my_orders
unfolding session_filled_qty session_working_qty
header_totals acts h =
    totals_from (run initial_state acts).my_orders (pos 0) (pos 0) (pos 0) (pos 0)
      (blotter_quantities acts h).0 (unfold ◌+ℤ◌ in refl)
