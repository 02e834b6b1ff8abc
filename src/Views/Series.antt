-- ===== src/Views/Series.antt =====
-- priceSeries.ts: the points of the series and its bounds.
use low_latency_matching_eng.Prelude.{
  ℤ, ◌≤ℤ◌, List, [], ◌∷◌, map, rev_onto, some, All, Any, ◌≡◌, ◌⊎◌, inl, inr, refl, sym, subst, ◌∙◌,
  Bool, true, false, ltb_ℤ, if◌then◌else◌, arith,
}
use low_latency_matching_eng.State.Model.{TapeEntry}
use low_latency_matching_eng.Views.{
  PricePoint, PriceSeries, empty_series, point_of, points_of, Bounds, widen, widen_all,
  first_bounds, series_of, build_price_series,
}

points_of-rev :
    (tape : List TapeEntry) (later : List PricePoint)
    → points_of tape later ≡ rev_onto (map point_of tape) later
unfolding points_of
points_of-rev [] later = refl
points_of-rev (e ∷ rest) later = points_of-rev rest (point_of e ∷ later)

-- The point lies within the bounds.
pub record IsWithin (b : Bounds) (p : PricePoint) : Type 0 where
  pub not_early : b.t_min ≤ℤ p.t
  pub not_late : p.t ≤ℤ b.t_max
  pub not_low : b.c_min ≤ℤ p.price_px
  pub not_high : p.price_px ≤ℤ b.c_max

-- Wider bounds.
record Widens (a b : Bounds) : Type 0 where
  t_low : b.t_min ≤ℤ a.t_min
  t_high : a.t_max ≤ℤ b.t_max
  c_low : b.c_min ≤ℤ a.c_min
  c_high : a.c_max ≤ℤ b.c_max

widen-Widens : (b : Bounds) (p : PricePoint) → Widens b (widen b p) × IsWithin (widen b p) p
unfolding widen
widen-Widens b p = (
  record {
    t_low = ground arith;
    t_high = ground arith;
    c_low = ground arith;
    c_high = ground arith;
  },
  record {
    not_early = ground arith;
    not_late = ground arith;
    not_low = ground arith;
    not_high = ground arith;
  },
)

Widens-trans : {a b c : Bounds} → Widens a b → Widens b c → Widens a c
Widens-trans u v = record {
  t_low = omega (arith, u.t_low, v.t_low);
  t_high = omega (arith, u.t_high, v.t_high);
  c_low = omega (arith, u.c_low, v.c_low);
  c_high = omega (arith, u.c_high, v.c_high);
}

Widens-IsWithin : {a b : Bounds} (p : PricePoint) → Widens a b → IsWithin a p → IsWithin b p
Widens-IsWithin p u w = record {
  not_early = omega (arith, u.t_low, w.not_early);
  not_late = omega (arith, u.t_high, w.not_late);
  not_low = omega (arith, u.c_low, w.not_low);
  not_high = omega (arith, u.c_high, w.not_high);
}

all-Widens :
    (b : Bounds) (ps : List PricePoint)
    → Widens b (widen_all b ps) × All (IsWithin (widen_all b ps)) ps
unfolding widen_all
all-Widens b [] = (
  record { t_low = omega arith; t_high = omega arith; c_low = omega arith; c_high = omega arith },
  tt,
)
all-Widens b (p ∷ rest) =
    let (wider, within) = all-Widens (widen b p) rest in
    let (step, here) = widen-Widens b p in
    (Widens-trans step wider, (Widens-IsWithin p wider here, within))

-- Each bound is that of `b`, or the value of one of the points.
record IsFrom (b r : Bounds) (ps : List PricePoint) : Type 0 where
  t_low : (r.t_min ≡ b.t_min) ⊎ Any (λ q. q.t ≡ r.t_min) ps
  t_high : (r.t_max ≡ b.t_max) ⊎ Any (λ q. q.t ≡ r.t_max) ps
  c_low : (r.c_min ≡ b.c_min) ⊎ Any (λ q. q.price_px ≡ r.c_min) ps
  c_high : (r.c_max ≡ b.c_max) ⊎ Any (λ q. q.price_px ≡ r.c_max) ps

carry : {A : Type 0} {r w b x : ℤ} → (r ≡ w) ⊎ A → (w ≡ b) ⊎ (x ≡ w) → (r ≡ b) ⊎ ((x ≡ r) ⊎ A)
carry (inr a) o = inr (inr a)
carry (inl e) (inl f) = inl (e ∙ f)
carry (inl e) (inr f) = inr (inl (f ∙ sym e))

pick : (c : Bool) (x y : ℤ) → ((if c then x else y) ≡ y) ⊎ (x ≡ (if c then x else y))
pick true x y = inr refl
pick false x y = inl refl

all-IsFrom : (b : Bounds) (ps : List PricePoint) → IsFrom b (widen_all b ps) ps
unfolding widen_all widen
all-IsFrom b [] = record {
  t_low = inl refl;
  t_high = inl refl;
  c_low = inl refl;
  c_high = inl refl;
}
all-IsFrom b (p ∷ rest) =
    let h = all-IsFrom (widen b p) rest in
    record {
      t_low = carry h.t_low (pick (ltb_ℤ p.t b.t_min) p.t b.t_min);
      t_high = carry h.t_high (pick (ltb_ℤ b.t_max p.t) p.t b.t_max);
      c_low = carry h.c_low (pick (ltb_ℤ p.price_px b.c_min) p.price_px b.c_min);
      c_high = carry h.c_high (pick (ltb_ℤ b.c_max p.price_px) p.price_px b.c_max);
    }

-- The bounds are those of the points: all points lie within them, and each of the four is reached.
pub record AreBoundsOf (b : Bounds) (ps : List PricePoint) : Type 0 where
  pub within : All (IsWithin b) ps
  pub first_time : Any (λ q. q.t ≡ b.t_min) ps
  pub last_time : Any (λ q. q.t ≡ b.t_max) ps
  pub low_reached : Any (λ q. q.price_px ≡ b.c_min) ps
  pub high_reached : Any (λ q. q.price_px ≡ b.c_max) ps

reached : {A : Type 0} {r x : ℤ} → (r ≡ x) ⊎ ((x ≡ r) ⊎ A) → (x ≡ r) ⊎ A
reached (inl e) = inl (sym e)
reached (inr a) = a

pub first-AreBoundsOf :
    (p : PricePoint) (rest : List PricePoint)
    → AreBoundsOf (widen_all (first_bounds p) (p ∷ rest)) (p ∷ rest)
unfolding first_bounds
first-AreBoundsOf p rest =
    let h = all-IsFrom (first_bounds p) (p ∷ rest) in
    record {
      within = (all-Widens (first_bounds p) (p ∷ rest)).1;
      first_time = reached h.t_low;
      last_time = reached h.t_high;
      low_reached = reached h.c_low;
      high_reached = reached h.c_high;
    }

-- What a series is of a list of points.
abbrev pub IsSeriesOf : PriceSeries → List PricePoint → Type 0
IsSeriesOf s [] = s ≡ empty_series
IsSeriesOf s (p ∷ rest) =
    (s.points ≡ p ∷ rest)
    × ((b : Bounds) × (s.t_min ≡ some b.t_min)
        × (s.t_max ≡ some b.t_max)
        × (s.c_min ≡ some b.c_min)
        × (s.c_max ≡ some b.c_max)
        × AreBoundsOf b (p ∷ rest))

series_of-IsSeriesOf : (ps : List PricePoint) → IsSeriesOf (series_of ps) ps
unfolding series_of
series_of-IsSeriesOf [] = refl
series_of-IsSeriesOf (p ∷ rest) = (
  refl,
  (widen_all (first_bounds p) (p ∷ rest), refl, refl, refl, refl, first-AreBoundsOf p rest),
)

-- The series of a tape has the times and the prices of the tape in reversed order, so the oldest first.
-- Without a print it has no bounds; otherwise its four bounds are the least and the greatest time and
-- price among its points.
build_price_series-IsSeriesOf :
    (tape : List TapeEntry) → IsSeriesOf (build_price_series tape) (rev_onto (map point_of tape) [])
unfolding build_price_series
build_price_series-IsSeriesOf tape =
    subst (λ ps. IsSeriesOf (series_of ps) (rev_onto (map point_of tape) []))
      (sym (points_of-rev tape [])) (series_of-IsSeriesOf (rev_onto (map point_of tape) []))
