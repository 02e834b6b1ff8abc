-- ===== src/State/Reducer/Session.antt =====
-- reducer.ts: the five session accumulators, compared with the whole history of fills.
use low_latency_matching_eng.Prelude.{
  ℕ, ℤ, pos, ◌+ℤ◌, ◌≤ℤ◌, ◌<ℤ◌, List, [], ◌∷◌, ◌≡◌, inl, inr, refl, sym, subst, ltb_ℤ, max_ℤ, min_ℤ,
  ◌∙◌, length, rev_onto, rev_onto-append, All, Any, All-map, All-append_left, All-append_right,
  All-rev_onto, true, false, Bool-cases, arith,
}
use low_latency_matching_eng.Protocol.Frames.{ExecFrame, book, exec, fix, is_fill}
use low_latency_matching_eng.State.Model.{
  session_open_unset, AppState, initial_state, Action, connection, frame, sent,
}
use low_latency_matching_eng.State.Reducer.{apply_print, bounds_unset, same_status, reducer, run}
use low_latency_matching_eng.State.Reducer.History.{fill_of, fills}

-- `p` is the greatest price of the fills, or the least.
abbrev pub IsHighest : ℤ → List ExecFrame → Type 0
IsHighest p fs = All (λ f. f.price ≤ℤ p) fs × Any (λ f. f.price ≡ p) fs

abbrev pub IsLowest : ℤ → List ExecFrame → Type 0
IsLowest p fs = All (λ f. p ≤ℤ f.price) fs × Any (λ f. f.price ≡ p) fs

-- The price of the last fill of a list.
abbrev pub last_price : ExecFrame → List ExecFrame → ℤ
last_price f [] = f.price
last_price f (g ∷ rest) = last_price g rest

-- The five accumulators.
pub record Session : Type 0 where
  pub volume : ℤ
  pub open_px : ℤ
  pub high_px : ℤ
  pub low_px : ℤ
  pub trade_count : ℕ

abbrev pub session_of : AppState → Session
session_of s = record {
  volume = s.session_volume;
  open_px = s.session_open_px;
  high_px = s.session_high_px;
  low_px = s.session_low_px;
  trade_count = s.session_trade_count;
}

-- What the open, the high and the low are of a history of fills, the newest first.
abbrev pub PricesOf : Session → List ExecFrame → Type 0
PricesOf s [] =
    (s.open_px ≡ session_open_unset)
    × (s.high_px ≡ session_open_unset)
    × (s.low_px ≡ session_open_unset)
PricesOf s (f ∷ rest) =
    (s.open_px ≡ last_price f rest) × IsHighest s.high_px (f ∷ rest) × IsLowest s.low_px (f ∷ rest)

abbrev pub IsPriced : ExecFrame → Type 0
IsPriced f = pos 0 <ℤ f.price

-- Quantities and number of the fills.
abbrev pub volume_of : List ExecFrame → ℤ
volume_of [] = pos 0
volume_of (f ∷ rest) = volume_of rest +ℤ f.filled_quantity

abbrev pub CountsOf : Session → List ExecFrame → Type 0
CountsOf s fs = (s.volume ≡ volume_of fs) × (s.trade_count ≡ length fs)

last_price-pos :
    (f : ExecFrame) (rest : List ExecFrame) → All IsPriced (f ∷ rest) → pos 0 <ℤ last_price f rest
last_price-pos f [] h = h.0
last_price-pos f (g ∷ rest) h = last_price-pos g rest h.1

Any-pos : (p : ℤ) (fs : List ExecFrame) → All IsPriced fs → Any (λ f. f.price ≡ p) fs → pos 0 <ℤ p
Any-pos p [] h a = absurd a
Any-pos p (f ∷ rest) h (inl e) = ground arith
Any-pos p (f ∷ rest) h (inr a) = Any-pos p rest h.1 a

max_right : (p q : ℤ) → ltb_ℤ p q ≡ true → max_ℤ p q ≡ q
max_right p q e = rw e refl

max_left : (p q : ℤ) → ltb_ℤ p q ≡ false → max_ℤ p q ≡ p
max_left p q e = rw e refl

min_right : (p q : ℤ) → ltb_ℤ q p ≡ true → min_ℤ p q ≡ q
min_right p q e = rw e refl

min_left : (p q : ℤ) → ltb_ℤ q p ≡ false → min_ℤ p q ≡ p
min_left p q e = rw e refl

IsHighest-max :
    (p : ℤ) (f : ExecFrame) (fs : List ExecFrame)
    → IsHighest p fs
    → IsHighest (max_ℤ p f.price) (f ∷ fs)
IsHighest-max p f fs (bound, at) = elim (Bool-cases (ltb_ℤ p f.price)) [
  | inl e ↦
      subst (λ m. IsHighest m (f ∷ fs)) (sym (max_right p f.price e))
        ((omega arith, All-map (λ g k. ground (arith, e)) fs bound), inl refl)
  | inr e ↦
      subst (λ m. IsHighest m (f ∷ fs)) (sym (max_left p f.price e)) ((ground arith, bound), inr at)
]

IsLowest-min :
    (p : ℤ) (f : ExecFrame) (fs : List ExecFrame)
    → IsLowest p fs
    → IsLowest (min_ℤ p f.price) (f ∷ fs)
IsLowest-min p f fs (bound, at) = elim (Bool-cases (ltb_ℤ f.price p)) [
  | inl e ↦
      subst (λ m. IsLowest m (f ∷ fs)) (sym (min_right p f.price e))
        ((omega arith, All-map (λ g k. ground (arith, e)) fs bound), inl refl)
  | inr e ↦
      subst (λ m. IsLowest m (f ∷ fs)) (sym (min_left p f.price e)) ((ground arith, bound), inr at)
]

bounds_set :
    (s : AppState) → pos 0 <ℤ s.session_high_px → pos 0 <ℤ s.session_low_px → bounds_unset s ≡ false
unfolding bounds_unset
bounds_set s h l = ground arith

apply_print_high :
    (s : AppState) (f : ExecFrame)
    → bounds_unset s ≡ false
    → ((apply_print s f).session_high_px ≡ max_ℤ s.session_high_px f.price)
      × ((apply_print s f).session_low_px ≡ min_ℤ s.session_low_px f.price)
unfolding apply_print
apply_print_high s f e = (rw e refl, rw e refl)

apply_print_open :
    (s : AppState) (f : ExecFrame)
    → pos 0 <ℤ s.session_open_px
    → (apply_print s f).session_open_px ≡ s.session_open_px
unfolding apply_print
apply_print_open s f h = ground arith

apply_print-prices :
    (s : AppState) (f : ExecFrame) (fs : List ExecFrame)
    → IsPriced f
    → All IsPriced fs
    → PricesOf (session_of s) fs
    → PricesOf (session_of (apply_print s f)) (f ∷ fs)
unfolding apply_print
apply_print-prices s f [] p ps h = ground arith
apply_print-prices s f (g ∷ rest) p ps (o, (hi, hi_at), (lo, lo_at)) =
    let (high, low) = apply_print_high s f (
      bounds_set s (Any-pos s.session_high_px (g ∷ rest) ps hi_at)
        (Any-pos s.session_low_px (g ∷ rest) ps lo_at)) in
    (
      apply_print_open s f (subst (λ p. pos 0 <ℤ p) (sym o) (last_price-pos g rest ps)) ∙ o,
      subst (λ p. IsHighest p (f ∷ g ∷ rest)) (sym high)
          (IsHighest-max s.session_high_px f (g ∷ rest) (hi, hi_at)),
      subst (λ p. IsLowest p (f ∷ g ∷ rest)) (sym low)
          (IsLowest-min s.session_low_px f (g ∷ rest) (lo, lo_at)),
    )

reducer-prices :
    (s : AppState) (a : Action) (fs : List ExecFrame)
    → All IsPriced (fill_of a)
    → All IsPriced fs
    → PricesOf (session_of s) fs
    → PricesOf (session_of (reducer s a)) (rev_onto (fill_of a) fs)
unfolding reducer
reducer-prices s (frame (book f)) fs p ps h = h
reducer-prices s (frame (exec f)) fs p ps h = elim (Bool-cases (is_fill f)) [
  | inl e ↦ rw e (apply_print-prices s f fs (rw e at p).0 ps h)
  | inr e ↦ rw e h
]
reducer-prices s (frame (fix f)) fs p ps h = h
reducer-prices s (connection c) fs p ps h = elim (Bool-cases (same_status c s.connection)) [
  | inl e ↦ rw e h
  | inr e ↦ rw e h
]
reducer-prices s (sent f n) fs p ps h = h

run-prices :
    (s : AppState) (acts : List Action) (fs : List ExecFrame)
    → All IsPriced (fills acts)
    → All IsPriced fs
    → PricesOf (session_of s) fs
    → PricesOf (session_of (run s acts)) (rev_onto (fills acts) fs)
unfolding run
run-prices s [] fs p ps h = h
run-prices s (a ∷ rest) fs p ps h =
    let here = All-append_left IsPriced (fill_of a) (fills rest) p in
    subst (PricesOf (session_of (run (reducer s a) rest)))
      (sym (rev_onto-append (fill_of a) (fills rest) fs))
      (run-prices (reducer s a) rest (rev_onto (fill_of a) fs)
        (All-append_right IsPriced (fill_of a) (fills rest) p)
        (All-rev_onto IsPriced (fill_of a) fs here ps) (reducer-prices s a fs here ps h))

reducer-counts :
    (s : AppState) (a : Action) (fs : List ExecFrame)
    → CountsOf (session_of s) fs
    → CountsOf (session_of (reducer s a)) (rev_onto (fill_of a) fs)
unfolding reducer
reducer-counts s (frame (book f)) fs h = h
reducer-counts s (frame (exec f)) fs h = ground arith
reducer-counts s (frame (fix f)) fs h = h
reducer-counts s (connection c) fs h = ground arith
reducer-counts s (sent f n) fs h = h

run-counts :
    (s : AppState) (acts : List Action) (fs : List ExecFrame)
    → CountsOf (session_of s) fs
    → CountsOf (session_of (run s acts)) (rev_onto (fills acts) fs)
unfolding run
run-counts s [] fs h = h
run-counts s (a ∷ rest) fs h =
    subst (CountsOf (session_of (run (reducer s a) rest)))
      (sym (rev_onto-append (fill_of a) (fills rest) fs))
      (run-counts (reducer s a) rest (rev_onto (fill_of a) fs) (reducer-counts s a fs h))

-- From the initial state, after any dispatches whose fills have positive prices: with no fill the
-- open, the high and the low are unset, and otherwise the open is the price of the oldest fill, and
-- the high and the low are the greatest and the least price of all fills, those that have left the
-- tape included.
pub session_prices :
    (acts : List Action)
    → All IsPriced (fills acts)
    → PricesOf (session_of (run initial_state acts)) (rev_onto (fills acts) [])
session_prices acts p = run-prices initial_state acts [] p tt (refl, refl, refl)

-- From the initial state, after any dispatches: the volume is the sum of the quantities of all
-- fills, and the trade count is their number.
pub session_counts :
    (acts : List Action) → CountsOf (session_of (run initial_state acts)) (rev_onto (fills acts) [])
session_counts acts = run-counts initial_state acts [] (refl, refl)
