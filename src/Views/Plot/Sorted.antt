-- ===== src/Views/Plot/Sorted.antt =====
-- components/DepthCurve.tsx: the anchors sorted by price.
use low_latency_matching_eng.Prelude.{
  suc, ◌<◌, length, ℤ, ◌≤ℤ◌, ltb_ℤ, List, [], ◌∷◌, All, true, false, Bool-cases, inl, inr, ◌≡◌,
  refl, arith,
}
use low_latency_matching_eng.Views.{CurvePoint}
use low_latency_matching_eng.Views.Plot.Curve.{insert, sorted}

-- No price is less than the one before it, the first not less than `low`.
abbrev pub IsSortedFrom : ℤ → List CurvePoint → Type 0
IsSortedFrom low [] = Unit
IsSortedFrom low (a ∷ rest) = (low ≤ℤ a.price_px) × IsSortedFrom a.price_px rest

abbrev pub IsSorted : List CurvePoint → Type 0
IsSorted [] = Unit
IsSorted (a ∷ rest) = IsSortedFrom a.price_px rest

above : (a b : ℤ) → ltb_ℤ b a ≡ true → b ≤ℤ a
above a b h = ground arith

not_above : (a b : ℤ) → ltb_ℤ b a ≡ false → a ≤ℤ b
not_above a b h = ground arith

insert-IsSortedFrom :
    (low : ℤ) (a : CurvePoint) (xs : List CurvePoint)
    → low ≤ℤ a.price_px
    → IsSortedFrom low xs
    → IsSortedFrom low (insert a xs)
unfolding insert
insert-IsSortedFrom low a [] h s = (h, tt)
insert-IsSortedFrom low a (b ∷ rest) h (p, s) = elim (Bool-cases (ltb_ℤ b.price_px a.price_px)) [
  | inl y ↦ rw y (p, insert-IsSortedFrom b.price_px a rest (above a.price_px b.price_px y) s)
  | inr n ↦ rw n (h, (not_above a.price_px b.price_px n, s))
]

insert-IsSorted : (a : CurvePoint) (xs : List CurvePoint) → IsSorted xs → IsSorted (insert a xs)
unfolding insert
insert-IsSorted a [] s = tt
insert-IsSorted a (b ∷ rest) s = elim (Bool-cases (ltb_ℤ b.price_px a.price_px)) [
  | inl y ↦ rw y (insert-IsSortedFrom b.price_px a rest (above a.price_px b.price_px y) s)
  | inr n ↦ rw n (not_above a.price_px b.price_px n, s)
]

pub sorted-IsSorted : (xs : List CurvePoint) → IsSorted (sorted xs)
unfolding sorted
sorted-IsSorted [] = tt
sorted-IsSorted (a ∷ rest) = insert-IsSorted a (sorted rest) (sorted-IsSorted rest)

length-insert : (a : CurvePoint) (xs : List CurvePoint) → length (insert a xs) ≡ suc (length xs)
unfolding insert
length-insert a [] = refl
length-insert a (b ∷ rest) = elim (Bool-cases (ltb_ℤ b.price_px a.price_px)) [
  | inl y ↦ rw y (omega (arith, length-insert a rest))
  | inr n ↦ rw n refl
]

insert-All :
    (P : CurvePoint → Type 0) (a : CurvePoint) (xs : List CurvePoint)
    → P a
    → All P xs
    → All P (insert a xs)
unfolding insert
insert-All P a [] p h = (p, tt)
insert-All P a (b ∷ rest) p (q, h) = elim (Bool-cases (ltb_ℤ b.price_px a.price_px)) [
  | inl y ↦ rw y (q, insert-All P a rest p h)
  | inr n ↦ rw n (p, (q, h))
]

pub sorted-All : (P : CurvePoint → Type 0) (xs : List CurvePoint) → All P xs → All P (sorted xs)
unfolding sorted
sorted-All P [] h = tt
sorted-All P (a ∷ rest) (p, h) = insert-All P a (sorted rest) p (sorted-All P rest h)

pub sorted_some : (a : CurvePoint) (rest : List CurvePoint) → 0 < length (sorted (a ∷ rest))
unfolding sorted
sorted_some a rest = insert_some a (sorted rest)
  where
    insert_some : (a : CurvePoint) (xs : List CurvePoint) → 0 < length (insert a xs)
    insert_some a xs = omega (arith, length-insert a xs)
