-- ===== src/State/Reducer/Blotter.antt =====
-- reducer.ts: the rows of the blotter and their ids over a whole session.
use low_latency_matching_eng.Prelude.{
  ℕ, suc, ℤ, List, [], ◌∷◌, Option, none, some, false, any, find?, ◌≡◌, refl, sym, ap, subst, ◌∙◌,
  eqb_ℤ, eqb_ℤ_iff, subst₂, find?_hit, find?_miss, find?_absent, Bool-cases, inl, inr, arith,
}
use low_latency_matching_eng.Protocol.Frames.{ExecFrame, ClientFrame, book, exec, fix, new, cancel}
use low_latency_matching_eng.State.Orders.{MyOrder, has_id, deref}
use low_latency_matching_eng.State.Orders.Rows.{
  Evolves, Evolves-refl, Evolves-trans, next_order-Evolves, passive_fill-Evolves,
}
use low_latency_matching_eng.State.Model.{AppState, Action, connection, frame, sent}
use low_latency_matching_eng.State.Reducer.{
  agg_index, passive_index, is_at, row_step, next_rows, sent_row, sent_rows, same_status, reducer,
  run,
}
use low_latency_matching_eng.State.Reducer.Rows.{Distinct, apply_rows-next_rows}

row_step-Evolves :
    (agg passive : Option ℕ) (f : ExecFrame) (i : ℕ) (o : MyOrder)
    → Evolves o (deref o (row_step agg passive f i o))
unfolding row_step
row_step-Evolves agg passive f i o = elim (Bool-cases (is_at agg i)) [
  | inl e ↦ rw e (next_order-Evolves o f)
  | inr e ↦ elim (Bool-cases (is_at passive i)) [
    | inl e' ↦ rw (e, e') (passive_fill-Evolves o f.filled_quantity)
    | inr e' ↦ rw (e, e') (Evolves-refl o)
  ]
]

-- The row of an id, where there is one, has become a row that it may become.
abbrev Follows : Option MyOrder → Option MyOrder → Type 0
Follows none later = Unit
Follows (some o) none = ⊥
Follows (some o) (some o') = Evolves o o'

Follows-of_eq : {a a' b b' : Option MyOrder} → a ≡ a' → b ≡ b' → Follows a' b' → Follows a b
Follows-of_eq p q h = subst₂ Follows (sym p) (sym q) h

pub next_rows-any :
    (agg passive : Option ℕ) (f : ExecFrame) (i : ℕ) (id : ℤ) (rows : List MyOrder)
    → any (has_id id) (next_rows agg passive f i rows) ≡ any (has_id id) rows
unfolding next_rows
next_rows-any agg passive f i id [] = refl
next_rows-any agg passive f i id (o ∷ os) =
    rw ((row_step-Evolves agg passive f i o).id_kept, next_rows-any agg passive f (suc i) id os)
      refl

next_rows-Distinct :
    (agg passive : Option ℕ) (f : ExecFrame) (i : ℕ) (rows : List MyOrder)
    → Distinct rows
    → Distinct (next_rows agg passive f i rows)
unfolding next_rows
next_rows-Distinct agg passive f i [] d = tt
next_rows-Distinct agg passive f i (o ∷ os) (d, ds) = (
  rw ((row_step-Evolves agg passive f i o).id_kept)
      (next_rows-any agg passive f (suc i) o.cl_ord_id os ∙ d),
  next_rows-Distinct agg passive f (suc i) os ds,
)

next_rows-Follows :
    (agg passive : Option ℕ) (f : ExecFrame) (i : ℕ) (id : ℤ) (rows : List MyOrder)
    → Follows (find? (has_id id) rows) (find? (has_id id) (next_rows agg passive f i rows))
unfolding next_rows
next_rows-Follows agg passive f i id [] = tt
next_rows-Follows agg passive f i id (o ∷ os) =
    let o' = deref o (row_step agg passive f i o) in
    let os' = next_rows agg passive f (suc i) os in
    let ev = row_step-Evolves agg passive f i o in
    elim (Bool-cases (has_id id o)) [
      | inl e ↦
          Follows-of_eq (find?_hit (has_id id) o os e)
            (find?_hit (has_id id) o' os' (ap (λ k. eqb_ℤ k id) ev.id_kept ∙ e)) ev
      | inr e ↦
          Follows-of_eq (find?_miss (has_id id) o os e)
            (find?_miss (has_id id) o' os' (ap (λ k. eqb_ℤ k id) ev.id_kept ∙ e))
            (next_rows-Follows agg passive f (suc i) id os)
    ]

sent_rows-Distinct :
    (rows : List MyOrder) (f : ClientFrame) (t : Option ℤ)
    → Distinct rows
    → Distinct (sent_rows rows f t)
unfolding sent_rows
sent_rows-Distinct rows (new f) t d = ground arith
sent_rows-Distinct rows (cancel f) t d = d

Follows-refl : (o : Option MyOrder) → Follows o o
Follows-refl none = tt
Follows-refl (some o) = Evolves-refl o

sent_rows-Follows :
    (rows : List MyOrder) (f : ClientFrame) (t : Option ℤ) (id : ℤ)
    → Follows (find? (has_id id) rows) (find? (has_id id) (sent_rows rows f t))
unfolding sent_rows
sent_rows-Follows rows (new f) t id = elim (Bool-cases (any (has_id f.cl_ord_id) rows)) [
  | inl e ↦ rw e (Follows-refl (find? (has_id id) rows))
  | inr e ↦ rw e (elim (Bool-cases (eqb_ℤ f.cl_ord_id id)) [
    | inl e' ↦
        Follows-of_eq
          (find?_absent (has_id id) rows
            (subst (λ k. any (has_id k) rows ≡ false) ((eqb_ℤ_iff f.cl_ord_id id).0 e') e))
          refl tt
    | inr e' ↦
        Follows-of_eq refl (find?_miss (has_id id) (sent_row f t) rows e')
          (Follows-refl (find? (has_id id) rows))
  ])
]
sent_rows-Follows rows (cancel f) t id = Follows-refl (find? (has_id id) rows)

Follows-trans : (a b c : Option MyOrder) → Follows a b → Follows b c → Follows a c
Follows-trans none b c h k = tt
Follows-trans (some o) none c h k = absurd h
Follows-trans (some o) (some o') none h k = absurd k
Follows-trans (some o) (some o') (some o'') h k = Evolves-trans h k

abbrev row_of : AppState → ℤ → Option MyOrder
row_of s id = find? (has_id id) s.my_orders

reducer-Follows :
    (s : AppState) (a : Action) (id : ℤ) → Follows (row_of s id) (row_of (reducer s a) id)
unfolding reducer
reducer-Follows s (frame (book f)) id = Follows-refl (row_of s id)
reducer-Follows s (frame (exec f)) id =
    Follows-of_eq refl (ap (find? (has_id id)) (apply_rows-next_rows s.my_orders f))
      (next_rows-Follows (agg_index s.my_orders f) (passive_index s.my_orders f) f 0 id s.my_orders)
reducer-Follows s (frame (fix f)) id = Follows-refl (row_of s id)
reducer-Follows s (connection c) id = elim (Bool-cases (same_status c s.connection)) [
  | inl e ↦ rw e (Follows-refl (row_of s id))
  | inr e ↦ rw e (Follows-refl (row_of s id))
]
reducer-Follows s (sent f t) id = sent_rows-Follows s.my_orders f t id

run-Follows :
    (s : AppState) (acts : List Action) (id : ℤ) → Follows (row_of s id) (row_of (run s acts) id)
unfolding run
run-Follows s [] id = Follows-refl (row_of s id)
run-Follows s (a ∷ rest) id =
    Follows-trans (row_of s id) (row_of (reducer s a) id) (row_of (run (reducer s a) rest) id)
      (reducer-Follows s a id) (run-Follows (reducer s a) rest id)

Follows-some :
    (o : MyOrder) (later : Option MyOrder)
    → Follows (some o) later
    → (o' : MyOrder) × (later ≡ some o') × Evolves o o'
Follows-some o none h = absurd h
Follows-some o (some o') h = (o', refl, h)

-- If a state has a row with some id, then after any dispatches it still has a row with that id, which
-- keeps all that was captured when it was sent, whose status has not gone back, and which is the
-- same row if its status was terminal.
pub run-Evolves :
    (s : AppState) (acts : List Action) (id : ℤ) (o : MyOrder)
    → find? (has_id id) s.my_orders ≡ some o
    → (o' : MyOrder) × (find? (has_id id) (run s acts).my_orders ≡ some o') × Evolves o o'
run-Evolves s acts id o h =
    Follows-some o (row_of (run s acts) id)
      (subst (λ r. Follows r (row_of (run s acts) id)) h (run-Follows s acts id))

pub reducer-Distinct :
    (s : AppState) (a : Action) → Distinct s.my_orders → Distinct (reducer s a).my_orders
unfolding reducer
reducer-Distinct s (frame (book f)) d = d
reducer-Distinct s (frame (exec f)) d =
    subst Distinct (sym (apply_rows-next_rows s.my_orders f))
      (next_rows-Distinct (agg_index s.my_orders f) (passive_index s.my_orders f) f 0 s.my_orders d)
reducer-Distinct s (frame (fix f)) d = d
reducer-Distinct s (connection c) d = ground arith
reducer-Distinct s (sent f t) d = sent_rows-Distinct s.my_orders f t d

-- From a state with distinct ids, such as the initial one, the ids stay distinct under any dispatches.
run-Distinct :
    (s : AppState) (acts : List Action) → Distinct s.my_orders → Distinct (run s acts).my_orders
unfolding run
run-Distinct s [] d = d
run-Distinct s (a ∷ rest) d = run-Distinct (reducer s a) rest (reducer-Distinct s a d)
