-- ===== src/State/Reducer/Rows.antt =====
-- reducer.ts, the row loop of `applyExec`: positions found by `findIndex` against rows found by id.
use mathlib.Core.Path.{fun_ext}
use low_latency_matching_eng.Prelude.{
  ℕ, suc, ◌≤◌, ◌<◌, ℤ, pos, ltb_ℤ, eqb_ℤ, eqb_ℤ_iff, List, [], ◌∷◌, Option, none, some, Bool, true,
  false, not, any, find_index_from, map, ◌&&◌, ◌||◌, ◌≡◌, inl, inr, refl, sym, ap, subst, ◌∙◌,
  Bool-cases, if◌then◌else◌, arith,
}
use low_latency_matching_eng.Protocol.Frames.{ExecFrame, exec, is_fill}
use low_latency_matching_eng.State.Orders.{
  MyOrder, has_id, same, fresh, deref, next_order, passive_fill,
}
use low_latency_matching_eng.State.Model.{AppState, frame}
use low_latency_matching_eng.State.Reducer.{
  agg_index, passive_index, is_at, row_step, next_rows, rows_changed, is_found, apply_rows, reducer,
}

-- No two rows have one id.
abbrev pub Distinct : List MyOrder → Type 0
Distinct [] = Unit
Distinct (o ∷ os) = (any (has_id o.cl_ord_id) os ≡ false) × Distinct os

-- The fill names the row as its passive side.
abbrev pub is_passive : ExecFrame → MyOrder → Bool
is_passive f o = is_fill f && ltb_ℤ (pos 0) f.passive_order_id && has_id f.passive_order_id o

-- The change of one row, by its id alone.
abbrev pub row_by_id : ExecFrame → MyOrder → MyOrder
row_by_id f o =
    if has_id f.order_id o
    then deref o (next_order o f)
    else if is_passive f o
    then deref o (passive_fill o f.filled_quantity)
    else o

-- A loop that builds no new row gives the rows back.
next_rows-same :
    (agg passive : Option ℕ) (f : ExecFrame) (i : ℕ) (rows : List MyOrder)
    → rows_changed agg passive f i rows ≡ false
    → next_rows agg passive f i rows ≡ rows
unfolding next_rows rows_changed
next_rows-same agg passive f i [] h = refl
next_rows-same agg passive f i (o ∷ os) h = ground (arith, next_rows-same agg passive f (suc i) os)

next_rows-none : (f : ExecFrame) (i : ℕ) (rows : List MyOrder) → next_rows none none f i rows ≡ rows
unfolding next_rows row_step
next_rows-none f i [] = refl
next_rows-none f i (o ∷ os) = ap (λ t. o ∷ t) (next_rows-none f (suc i) os)

apply_rows_cases :
    (f : ExecFrame) (agg passive : Option ℕ) (rows : List MyOrder)
    → deref rows (
        if (is_found agg || is_found passive) && rows_changed agg passive f 0 rows
        then fresh (next_rows agg passive f 0 rows)
        else same)
      ≡ next_rows agg passive f 0 rows
apply_rows_cases f none none rows = sym (next_rows-none f 0 rows)
apply_rows_cases f none (some j) rows = ground (arith, next_rows-same none (some j) f 0 rows)
apply_rows_cases f (some i) passive rows = ground (arith, next_rows-same (some i) passive f 0 rows)

-- Whichever array the code keeps, it holds the rows of the loop.
pub apply_rows-next_rows :
    (rows : List MyOrder) (f : ExecFrame)
    → deref rows (apply_rows rows f) ≡ next_rows (agg_index rows f) (passive_index rows f) f 0 rows
unfolding apply_rows
apply_rows-next_rows rows f = apply_rows_cases f (agg_index rows f) (passive_index rows f) rows

-- A search that starts at `i` finds no position below `i`.
find_index_from-le :
    (id : ℤ) (i j : ℕ) (rows : List MyOrder) → find_index_from i (has_id id) rows ≡ some j → i ≤ j
find_index_from-le id i j [] h = cc
find_index_from-le id i j (o ∷ os) h = ground (arith, find_index_from-le id (suc i) j os)

find_index_from_absent :
    (id : ℤ) (i : ℕ) (rows : List MyOrder)
    → any (has_id id) rows ≡ false
    → find_index_from i (has_id id) rows ≡ none
find_index_from_absent id i [] h = refl
find_index_from_absent id i (o ∷ os) h = ground (arith, find_index_from_absent id (suc i) os)

-- From position `i` on, a position names exactly the rows that a test holds of.
abbrev Points : Option ℕ → (MyOrder → Bool) → ℕ → List MyOrder → Type 0
Points j p i [] = Unit
Points j p i (o ∷ os) = (is_at j i ≡ p o) × Points j p (suc i) os

Points-absent :
    (j : Option ℕ) (id : ℤ) (i : ℕ) (rows : List MyOrder)
    → ((k : ℕ) → j ≡ some k → k < i)
    → any (has_id id) rows ≡ false
    → Points j (has_id id) i rows
Points-absent j id i [] b h = tt
Points-absent none id i (o ∷ os) b h =
    (ground arith, Points-absent none id (suc i) os (λ k e. cc) (ground arith))
Points-absent (some k) id i (o ∷ os) b h = (
  ground (arith, b k refl),
  Points-absent (some k) id (suc i) os (λ m e. ground (arith, b m e)) (ground arith),
)

is_at_below : (j : Option ℕ) (i : ℕ) → ((k : ℕ) → j ≡ some k → i < k) → is_at j i ≡ false
is_at_below none i h = refl
is_at_below (some k) i h = ground (arith, h k refl)

find_index_hit :
    (id : ℤ) (i : ℕ) (o : MyOrder) (os : List MyOrder)
    → has_id id o ≡ true
    → find_index_from i (has_id id) (o ∷ os) ≡ some i
find_index_hit id i o os e = rw (e, find_index_from) refl

find_index_miss :
    (id : ℤ) (i : ℕ) (o : MyOrder) (os : List MyOrder)
    → has_id id o ≡ false
    → find_index_from i (has_id id) (o ∷ os) ≡ find_index_from (suc i) (has_id id) os
find_index_miss id i o os e = rw (e, find_index_from) refl

find_index-Points :
    (id : ℤ) (i : ℕ) (rows : List MyOrder)
    → Distinct rows
    → Points (find_index_from i (has_id id) rows) (has_id id) i rows
find_index-Points id i [] d = tt
find_index-Points id i (o ∷ os) (d, ds) = elim (Bool-cases (has_id id o)) [
  | inl e ↦
      subst (λ j. Points j (has_id id) i (o ∷ os)) (sym (find_index_hit id i o os e))
        (
          ground arith,
          Points-absent (some i) id (suc i) os (λ k p. ground arith)
              (subst (λ m. any (has_id m) os ≡ false) ((eqb_ℤ_iff o.cl_ord_id id).0 e) d),
        )
  | inr e ↦
      subst (λ j. Points j (has_id id) i (o ∷ os)) (sym (find_index_miss id i o os e))
        (
          is_at_below (find_index_from (suc i) (has_id id) os) i
                (λ k p. find_index_from-le id (suc i) k os p)
              ∙ sym e,
          find_index-Points id (suc i) os ds,
        )
]

Points-none : (i : ℕ) (rows : List MyOrder) → Points none (λ o. false) i rows
Points-none i [] = tt
Points-none i (o ∷ os) = (refl, Points-none (suc i) os)

-- Where the positions name the rows of two tests, the loop changes each row by those tests.
next_rows-map :
    (agg passive : Option ℕ) (f : ExecFrame) (p q : MyOrder → Bool) (i : ℕ) (rows : List MyOrder)
    → Points agg p i rows
    → Points passive q i rows
    → next_rows agg passive f i rows
      ≡ map
          (λ o.
            if p o
            then deref o (next_order o f)
            else if q o
            then deref o (passive_fill o f.filled_quantity)
            else o)
          rows
unfolding next_rows row_step
next_rows-map agg passive f p q i [] a b = refl
next_rows-map agg passive f p q i (o ∷ os) (a, as') (b, bs) =
    ground (arith, next_rows-map agg passive f p q (suc i) os as' bs)

-- The test of the passive search, as the code writes it.
abbrev passive_guard : ExecFrame → Bool
passive_guard f =
    is_fill f && ltb_ℤ (pos 0) f.passive_order_id && not (eqb_ℤ f.passive_order_id f.order_id)

passive-Points :
    (f : ExecFrame) (rows : List MyOrder)
    → Distinct rows
    → Points (passive_index rows f) (λ o. passive_guard f && has_id f.passive_order_id o) 0 rows
unfolding passive_index
passive-Points f rows d = elim (Bool-cases (passive_guard f)) [
  | inl e ↦ rw e (find_index-Points f.passive_order_id 0 rows d)
  | inr e ↦ rw e (Points-none 0 rows)
]

row_by_id_lem :
    (f : ExecFrame) (o : MyOrder)
    → (if has_id f.order_id o
        then deref o (next_order o f)
        else if passive_guard f && has_id f.passive_order_id o
        then deref o (passive_fill o f.filled_quantity)
        else o)
      ≡ row_by_id f o
row_by_id_lem f o = ground (
  arith,
  eqb_ℤ_iff o.cl_ord_id f.passive_order_id,
  eqb_ℤ_iff o.cl_ord_id f.order_id,
  eqb_ℤ_iff f.passive_order_id f.order_id,
)

apply_rows_by_id :
    (rows : List MyOrder) (f : ExecFrame)
    → Distinct rows
    → deref rows (apply_rows rows f) ≡ map (row_by_id f) rows
unfolding agg_index
apply_rows_by_id rows f d =
    apply_rows-next_rows rows f
    ∙ next_rows-map (agg_index rows f) (passive_index rows f) f (has_id f.order_id)
        (λ o. passive_guard f && has_id f.passive_order_id o) 0 rows
        (find_index-Points f.order_id 0 rows d) (passive-Points f rows d)
    ∙ rw (fun_ext (row_by_id_lem f)) refl

-- With distinct ids, the rows after an EXEC frame are the rows before it, each changed by its own id:
-- the order that the frame names by `nextOrder`, else the passive side of a fill by `passiveFill`,
-- and every other row not at all.
pub exec_rows_by_id :
    (s : AppState) (f : ExecFrame)
    → Distinct s.my_orders
    → (reducer s (frame (exec f))).my_orders ≡ map (row_by_id f) s.my_orders
unfolding reducer
exec_rows_by_id s f = apply_rows_by_id s.my_orders f
