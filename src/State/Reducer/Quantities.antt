-- ===== src/State/Reducer/Quantities.antt =====
-- reducer.ts: the remaining quantities of the blotter over a whole session.
use low_latency_matching_eng.Prelude.{
  pos, ◌≤ℤ◌, List, [], ◌∷◌, true, map, ◌≡◌, sym, subst, All, Bool-cases, inl, inr, arith,
}
use low_latency_matching_eng.Protocol.Frames.{ExecFrame, book, exec, fix, new, cancel, is_fill}
use low_latency_matching_eng.State.Orders.{MyOrder, has_id}
use low_latency_matching_eng.State.Orders.Rows.{
  IsInRange, Reports, next_order-IsInRange, passive_fill-IsInRange, IsSettled, next_order-IsSettled,
  passive_fill-IsSettled,
}
use low_latency_matching_eng.State.Model.{AppState, initial_state, Action, connection, frame, sent}
use low_latency_matching_eng.State.Reducer.{reducer, run}
use low_latency_matching_eng.State.Reducer.Rows.{Distinct, is_passive, row_by_id, exec_rows_by_id}
use low_latency_matching_eng.State.Reducer.Blotter.{reducer-Distinct}

-- What is taken for granted of a dispatch: a new order has a quantity of at least zero, a fill has
-- one too, and a report of acceptance, of a partial fill or of expiry for an order gives a remaining
-- quantity between zero and its original one. Of the remaining quantity in any other report, which the
-- server sets to -1 for a cancel or a reject, nothing is asked.
abbrev pub IsHonest : AppState → Action → Type 0
IsHonest s (frame (exec f)) =
    (is_fill f ≡ true → pos 0 ≤ℤ f.filled_quantity)
    × All (λ o. has_id f.order_id o ≡ true → Reports o f) s.my_orders
IsHonest s (sent (new f) t) = pos 0 ≤ℤ f.qty
IsHonest s _ = Unit

abbrev pub AllHonest : AppState → List Action → Type 0
AllHonest s [] = Unit
AllHonest s (a ∷ rest) = IsHonest s a × AllHonest (reducer s a) rest

row_by_id-IsInRange :
    (f : ExecFrame) (o : MyOrder)
    → (is_fill f ≡ true → pos 0 ≤ℤ f.filled_quantity)
    → (has_id f.order_id o ≡ true → Reports o f)
    → IsInRange o
    → IsInRange (row_by_id f o)
row_by_id-IsInRange f o fill rep h = elim (Bool-cases (has_id f.order_id o)) [
  | inl e ↦ rw e (next_order-IsInRange o f h (rep e))
  | inr e ↦ elim (Bool-cases (is_passive f o)) [
    | inl e' ↦ rw (e, e') (passive_fill-IsInRange o f.filled_quantity h (fill (ground arith)))
    | inr e' ↦ rw (e, e') h
  ]
]

rows-IsInRange :
    (f : ExecFrame) (rows : List MyOrder)
    → (is_fill f ≡ true → pos 0 ≤ℤ f.filled_quantity)
    → All (λ o. has_id f.order_id o ≡ true → Reports o f) rows
    → All IsInRange rows
    → All IsInRange (map (row_by_id f) rows)
rows-IsInRange f [] fill rep h = tt
rows-IsInRange f (o ∷ os) fill (r, rep) (h, hs) =
    (row_by_id-IsInRange f o fill r h, rows-IsInRange f os fill rep hs)

row_by_id-IsSettled : (f : ExecFrame) (o : MyOrder) → IsSettled o → IsSettled (row_by_id f o)
row_by_id-IsSettled f o h = elim (Bool-cases (has_id f.order_id o)) [
  | inl e ↦ rw e (next_order-IsSettled o f h)
  | inr e ↦ elim (Bool-cases (is_passive f o)) [
    | inl e' ↦ rw (e, e') (passive_fill-IsSettled o f.filled_quantity h)
    | inr e' ↦ rw (e, e') h
  ]
]

rows-IsSettled :
    (f : ExecFrame) (rows : List MyOrder)
    → All IsSettled rows
    → All IsSettled (map (row_by_id f) rows)
rows-IsSettled f [] h = tt
rows-IsSettled f (o ∷ os) (h, hs) = (row_by_id-IsSettled f o h, rows-IsSettled f os hs)

reducer-IsInRange :
    (s : AppState) (a : Action)
    → Distinct s.my_orders
    → IsHonest s a
    → All IsInRange s.my_orders
    → All IsInRange (reducer s a).my_orders
unfolding reducer
reducer-IsInRange s (frame (book f)) d t h = h
reducer-IsInRange s (frame (exec f)) d (fill, rep) h =
    subst (All IsInRange) (sym (exec_rows_by_id s f d)) (rows-IsInRange f s.my_orders fill rep h)
reducer-IsInRange s (frame (fix f)) d t h = h
reducer-IsInRange s (connection c) d t h = ground arith
reducer-IsInRange s (sent (new f) n) d t h = ground arith
reducer-IsInRange s (sent (cancel f) n) d t h = h

reducer-IsSettled :
    (s : AppState) (a : Action)
    → Distinct s.my_orders
    → All IsSettled s.my_orders
    → All IsSettled (reducer s a).my_orders
unfolding reducer
reducer-IsSettled s (frame (book f)) d h = h
reducer-IsSettled s (frame (exec f)) d h =
    subst (All IsSettled) (sym (exec_rows_by_id s f d)) (rows-IsSettled f s.my_orders h)
reducer-IsSettled s (frame (fix f)) d h = h
reducer-IsSettled s (connection c) d h = ground arith
reducer-IsSettled s (sent (new f) n) d h = ground arith
reducer-IsSettled s (sent (cancel f) n) d h = h

run-quantities :
    (s : AppState) (acts : List Action)
    → Distinct s.my_orders
    → AllHonest s acts
    → All IsInRange s.my_orders
    → All IsSettled s.my_orders
    → All IsInRange (run s acts).my_orders × All IsSettled (run s acts).my_orders
unfolding run
run-quantities s [] d t h k = (h, k)
run-quantities s (a ∷ rest) d (t, ts) h k =
    run-quantities (reducer s a) rest (reducer-Distinct s a d) ts (reducer-IsInRange s a d t h)
      (reducer-IsSettled s a d k)

-- From the initial state, after dispatches in which every new order and every fill has a quantity of at
-- least zero, and every report of acceptance, partial fill or expiry for an own order gives a remaining
-- quantity between zero and the original one: the remaining quantity of every row lies between zero and
-- its original quantity, whichever mix of own reports, cancels, rejects and passive fills has reached
-- it, and a FILLED row has nothing left.
pub blotter_quantities :
    (acts : List Action)
    → AllHonest initial_state acts
    → All IsInRange (run initial_state acts).my_orders
      × All IsSettled (run initial_state acts).my_orders
blotter_quantities acts t = run-quantities initial_state acts tt t tt tt
