-- ===== src/State/Orders/Sides.antt =====
-- reducer.ts, `aggressorSideFor` against `knows`.
use low_latency_matching_eng.Prelude.{
  ℤ, List, [], ◌∷◌, Option, none, some, Bool, true, false, any, find?, ◌||◌, ◌≡◌, refl, arith,
}
use low_latency_matching_eng.State.Orders.{
  MyOrder, has_id, side_of, side_of_row, aggressor_side_for, knows,
}

abbrev pub is_some {ℓ} : {A : Type ℓ} → Option A → Bool
is_some none = false
is_some (some a) = true

find?-any :
    (id : ℤ) (rows : List MyOrder)
    → is_some (side_of_row (find? (has_id id) rows)) ≡ any (has_id id) rows
find?-any id [] = refl
find?-any id (o ∷ os) = ground (arith, find?-any id os)

side_of-knows : (rows : List MyOrder) (id : ℤ) → is_some (side_of rows id) ≡ knows rows id
unfolding side_of knows
side_of-knows rows id = ground (arith, find?-any id rows)

-- A print has a derived aggressor side exactly if one of the two orders in it is known.
pub aggressor_side-knows :
    (rows : List MyOrder) (a p : ℤ)
    → is_some (aggressor_side_for rows a p) ≡ (knows rows a || knows rows p)
unfolding aggressor_side_for
aggressor_side-knows rows a p = ground (arith, side_of-knows rows a, side_of-knows rows p)
