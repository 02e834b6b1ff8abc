-- ===== src/State/Reducer/Replay.antt =====
-- reducer.ts: the blotter as a map from ids to rows.
use mathlib.Core.Path.{fun_ext}
use mathlib.Core.Option.{map as map_option}
use low_latency_matching_eng.Prelude.{
  ℤ, eqb_ℤ, eqb_ℤ_iff, List, [], ◌∷◌, map, any, find?, find?_hit, find?_miss, find?_absent, Option,
  none, some, Bool, true, Bool-cases, inl, inr, ◌≡◌, refl, ap, sym, subst, ◌∙◌, if◌then◌else◌,
  arith,
}
use low_latency_matching_eng.Protocol.Frames.{
  NewOrderFrame, new, cancel, book, exec, fix, ExecFrame,
}
use low_latency_matching_eng.State.Orders.{MyOrder, has_id}
use low_latency_matching_eng.State.Orders.Rows.{next_order-Evolves, passive_fill-Evolves}
use low_latency_matching_eng.State.Model.{AppState, initial_state, Action, connection, frame, sent}
use low_latency_matching_eng.State.Reducer.{reducer, run, sent_row, same_status, sent_rows}
use low_latency_matching_eng.State.Reducer.Rows.{Distinct, is_passive, row_by_id, exec_rows_by_id}
use low_latency_matching_eng.State.Reducer.Blotter.{reducer-Distinct}

-- The abstract blotter.
abbrev pub Blotter : Type 0
Blotter = ℤ → Option MyOrder

abbrev pub no_orders : Blotter
no_orders id = none

-- An order that is sent is entered under its id, if that is free.
abbrev or_entered : Option MyOrder → MyOrder → Option MyOrder
or_entered none o = some o
or_entered (some old) o = some old

abbrev pub enter : MyOrder → Blotter → Blotter
enter o m id = if eqb_ℤ o.cl_ord_id id then or_entered (m id) o else m id

-- What a dispatch does to the row of each id, whatever the other rows are.
abbrev pub receive : Action → Blotter → Blotter
receive (sent (new f) t) m = enter (sent_row f t) m
receive (frame (exec f)) m = λ id. map_option (row_by_id f) (m id)
receive _ m = m

abbrev pub replay : List Action → Blotter → Blotter
replay [] m = m
replay (a ∷ rest) m = replay rest (receive a m)

abbrev pub blotter_of : List MyOrder → Blotter
blotter_of rows id = find? (has_id id) rows

row_by_id-id : (f : ExecFrame) (o : MyOrder) → (row_by_id f o).cl_ord_id ≡ o.cl_ord_id
row_by_id-id f o = elim (Bool-cases (has_id f.order_id o)) [
  | inl y ↦ rw y (next_order-Evolves o f).id_kept
  | inr n ↦ elim (Bool-cases (is_passive f o)) [
    | inl y ↦ rw (n, y) (passive_fill-Evolves o f.filled_quantity).id_kept
    | inr n' ↦ rw (n, n') refl
  ]
]

find-map :
    (f : ExecFrame) (id : ℤ) (rows : List MyOrder)
    → find? (has_id id) (map (row_by_id f) rows) ≡ map_option (row_by_id f) (find? (has_id id) rows)
find-map f id [] = refl
find-map f id (o ∷ rest) =
    let same = ap (λ k. eqb_ℤ k id) (row_by_id-id f o) in
    elim (Bool-cases (has_id id o)) [
      | inl y ↦
          find?_hit (has_id id) (row_by_id f o) (map (row_by_id f) rest) (same ∙ y)
          ∙ ap (map_option (row_by_id f)) (sym (find?_hit (has_id id) o rest y))
      | inr n ↦
          find?_miss (has_id id) (row_by_id f o) (map (row_by_id f) rest) (same ∙ n)
          ∙ find-map f id rest
          ∙ ap (map_option (row_by_id f)) (sym (find?_miss (has_id id) o rest n))
    ]

find?-present :
    (id : ℤ) (rows : List MyOrder) (o : MyOrder)
    → any (has_id id) rows ≡ true
    → or_entered (find? (has_id id) rows) o ≡ find? (has_id id) rows
find?-present id [] o h = cc
find?-present id (r ∷ rest) o h = elim (Bool-cases (has_id id r)) [
  | inl y ↦ rw (find?_hit (has_id id) r rest y) refl
  | inr n ↦
      let step = find?_miss (has_id id) r rest n in
      ap (λ m. or_entered m o) step ∙ find?-present id rest o (ground arith) ∙ sym step
]

sent-blotter :
    (rows : List MyOrder) (f : NewOrderFrame) (t : Option ℤ) (id : ℤ)
    → blotter_of (sent_rows rows (new f) t) id ≡ enter (sent_row f t) (blotter_of rows) id
unfolding sent_rows
sent-blotter rows f t id = elim (Bool-cases (any (has_id f.cl_ord_id) rows)) [
  | inl e ↦ rw e (elim (Bool-cases (eqb_ℤ f.cl_ord_id id)) [
    | inl y ↦ rw y (sym (find?-present id rows (sent_row f t) (at_id y e)))
    | inr n ↦ rw n refl
  ])
  | inr e ↦ rw e (elim (Bool-cases (eqb_ℤ f.cl_ord_id id)) [
    | inl y ↦
        find?_hit (has_id id) (sent_row f t) rows y
        ∙ rw y (
            ap (λ m. or_entered m (sent_row f t)) (sym (find?_absent (has_id id) rows (at_id y e))))
    | inr n ↦ find?_miss (has_id id) (sent_row f t) rows n ∙ rw n refl
  ])
]
  where
    at_id :
        {b : Bool}
        → eqb_ℤ f.cl_ord_id id ≡ true
        → any (has_id f.cl_ord_id) rows ≡ b
        → any (has_id id) rows ≡ b
    at_id {b} y e = subst (λ k. any (has_id k) rows ≡ b) ((eqb_ℤ_iff f.cl_ord_id id).0 y) e

step-blotter :
    (s : AppState) (a : Action) (id : ℤ)
    → Distinct s.my_orders
    → blotter_of (reducer s a).my_orders id ≡ receive a (blotter_of s.my_orders) id
unfolding reducer
step-blotter s (frame (book f)) id d = refl
step-blotter s (frame (exec f)) id d =
    ap (find? (has_id id)) (exec_rows_by_id s f d) ∙ find-map f id s.my_orders
step-blotter s (frame (fix f)) id d = refl
step-blotter s (connection c) id d = elim (Bool-cases (same_status c s.connection)) [
  | inl e ↦ rw e refl
  | inr e ↦ rw e refl
]
step-blotter s (sent (new f) t) id d = sent-blotter s.my_orders f t id
step-blotter s (sent (cancel f) t) id d = refl

run-blotter :
    (s : AppState) (acts : List Action)
    → Distinct s.my_orders
    → (id : ℤ) → blotter_of (run s acts).my_orders id ≡ replay acts (blotter_of s.my_orders) id
unfolding run
run-blotter s [] d id = refl
run-blotter s (a ∷ rest) d id =
    run-blotter (reducer s a) rest (reducer-Distinct s a d) id
    ∙ ap (λ m. replay rest m id) (fun_ext (λ k. step-blotter s a k d))

-- The list of rows implements a map from ids to rows: after any dispatches, the row that is found by an
-- id is the one that a replay of the same dispatches over the empty map leaves there, where a sent
-- order is entered under its id if that is free, and an EXEC frame changes each row by its own id,
-- whatever the order and the number of the rows.
pub run-replay :
    (acts : List Action) (id : ℤ)
    → blotter_of (run initial_state acts).my_orders id ≡ replay acts no_orders id
run-replay acts id = run-blotter initial_state acts tt id
