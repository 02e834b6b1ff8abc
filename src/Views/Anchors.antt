-- ===== src/Views/Anchors.antt =====
-- app/frontend/src/components/DepthCurve.tsx and PriceChart.tsx: the points that a click in the depth curve
-- selects, and the reference prices that the price chart draws.
use low_latency_matching_eng.Prelude.{
  ℕ, ℤ, pos, ◌+ℤ◌, ◌≤ℤ◌, +ℤ_parts, leb_ℤ, ltb_ℤ, eqb_ℤ, List, [], ◌∷◌, ◌++◌, map, Option, none,
  some, All, eq_of_parts, pos_part, neg_part, ◌+◌, Bool-cases, inl, inr, Bool, true, false, ◌&&◌,
  ◌≡◌, refl, ap, ◌∙◌, if◌then◌else◌, arith,
}
use low_latency_matching_eng.Protocol.Frames.{Level}
use low_latency_matching_eng.State.Model.{BookState}
use low_latency_matching_eng.Views.{
  CumLevel, cumulate, cumulate_from, CurvePoint, corners_after, step_corners, build_depth_curve,
  PriceSeries,
}
use low_latency_matching_eng.Views.Depth.{IsSized}

-- The loop of `levelAnchors`, whose last anchor is the first argument.
unfoldable pub anchors_from : CurvePoint → List CurvePoint → List CurvePoint
anchors_from last [] = last ∷ []
anchors_from last (p ∷ rest) =
    let merged = anchors_from (if ltb_ℤ last.cum_qty p.cum_qty then p else last) rest in
    let pushed = last ∷ anchors_from p rest in
    if eqb_ℤ last.price_px p.price_px then merged else pushed

unfoldable pub level_anchors : List CurvePoint → List CurvePoint
unfolding anchors_from
level_anchors [] = []
level_anchors (p ∷ rest) = anchors_from p rest

-- The anchors of both sides; a click selects the price of one of them.
unfoldable pub anchors_of : BookState → Option ℕ → List CurvePoint
anchors_of book depth =
    let model = build_depth_curve book depth in level_anchors model.bids ++ level_anchors model.asks

abbrev pub in_domain : PriceSeries → ℤ → Bool
in_domain series px = at_least series.c_min && at_most series.c_max
  where
    at_least : Option ℤ → Bool
    at_least none = false
    at_least (some low) = leb_ℤ low px

    at_most : Option ℤ → Bool
    at_most none = false
    at_most (some high) = leb_ℤ px high

-- `sessionRef` and `marketRef`: a price that is drawn as a reference line.
unfoldable pub reference : PriceSeries → Option ℤ → Option ℤ
reference series none = none
reference series (some px) = if ltb_ℤ (pos 0) px && in_domain series px then some px else none

abbrev pub anchor_of : CumLevel → CurvePoint
anchor_of c = record { price_px = c.price_px; cum_qty = c.cum_qty }

-- No level has the price of the one before it, the first not that of `px`.
abbrev pub FollowedBy : ℤ → List Level → Type 0
FollowedBy px [] = Unit
FollowedBy px (m ∷ rest) = (eqb_ℤ px m.price ≡ false) × FollowedBy m.price rest

abbrev pub IsStepped : List Level → Type 0
IsStepped [] = Unit
IsStepped (l ∷ rest) = FollowedBy l.price rest

abbrev point : ℤ → ℤ → CurvePoint
point price_px cum_qty = record { price_px = price_px; cum_qty = cum_qty }

same_price : (px : ℤ) → eqb_ℤ px px ≡ true
same_price px = ground arith

-- The two vertices of a level leave the upper one.
merged_lem :
    (px low high : ℤ)
    → low ≤ℤ high
    → (if ltb_ℤ low high then point px high else point px low) ≡ point px high
merged_lem px low high h = elim (Bool-cases (ltb_ℤ low high)) [
  | inl y ↦ rw y refl
  | inr n ↦ rw n (ap (point px) (eq_of_parts low high (not_below n)))
]
  where
    not_below : ltb_ℤ low high ≡ false → pos_part low + neg_part high ≡ pos_part high + neg_part low
    not_below n = ground arith

anchors-corners :
    (px at : ℤ) (rest : List Level)
    → All IsSized rest
    → FollowedBy px rest
    → anchors_from (point px at) (corners_after at (cumulate_from at rest))
      ≡ point px at ∷ map anchor_of (cumulate_from at rest)
unfolding anchors_from corners_after cumulate_from
anchors-corners px at [] h k = refl
anchors-corners px at (m ∷ rest) (s, h) (d, k) =
    let next = at +ℤ m.qty in
    rw d (
      rw (same_price m.price) (
        ap (λ t. point px at ∷ t)
          (ap (λ p. anchors_from p (corners_after next (cumulate_from next rest)))
              (merged_lem m.price at next (omega (arith, s, +ℤ_parts at m.qty)))
            ∙ anchors-corners m.price next rest h k)))

anchors-side :
    (levels : List Level)
    → All IsSized levels
    → IsStepped levels
    → level_anchors (step_corners (cumulate levels)) ≡ map anchor_of (cumulate levels)
unfolding level_anchors step_corners cumulate cumulate_from
anchors-side [] h k = refl
anchors-side (l ∷ rest) (s, h) k = anchors-corners l.price (pos 0 +ℤ l.qty) rest h k

-- For a book whose quantities are not negative and on whose sides no two neighbours have one price: the
-- collapsed vertices of the curve are again the levels, each with its cumulative total, the bids and
-- then the asks, so that a click selects the price of a level of the book.
pub anchors_of-levels :
    (book : BookState)
    → All IsSized book.bids
    → All IsSized book.asks
    → IsStepped book.bids
    → IsStepped book.asks
    → anchors_of book none
      ≡ map anchor_of (cumulate book.bids) ++ map anchor_of (cumulate book.asks)
unfolding anchors_of build_depth_curve
anchors_of-levels book b a s t = rw (anchors-side book.bids b s, anchors-side book.asks a t) refl
