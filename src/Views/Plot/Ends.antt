-- ===== src/Views/Plot/Ends.antt =====
-- The scales of the two charts: their ends and their order.
use native.Mathlib.Nat.{mul-le-mul_right, add-mul}
use low_latency_matching_eng.Prelude.{
  ℕ, ◌+◌, ◌-◌, ◌*◌, ◌^◌, ◌≤◌, ◌<◌, ℤ, pos, ◌≤ℤ◌, ◌<ℤ◌, eqb_ℤ, false, ◌≡◌, refl, ap, sym, subst,
  subst₂, ◌∙◌, arith,
}
use low_latency_matching_eng.Double.{
  Signed, to_double, quotient, signed_quotient, signed_times, times, plus, less, scale,
}
use low_latency_matching_eng.Double.Accuracy.{to_double-exact}
use low_latency_matching_eng.Double.Round.{round_even-le, quotient_self}
use low_latency_matching_eng.Double.Order.{to_double-le, le-to_double}
use low_latency_matching_eng.Double.Compare.{◌⊑◌, to_double_mono_scaled}
use low_latency_matching_eng.Views.Plot.{share, x_on, y_on}
use low_latency_matching_eng.Views.Plot.Scale.{
  IsShare, share-IsShare, gap, gap_self, from_low, to_double-pos, apart_gap, plus_lem, less_lem,
  times-le,
}
use low_latency_matching_eng.Views.Plot.Order.{x_on_mono, share_mono, scaled_mono}

-- The whole number `c`.
pub record IsAt (c : ℕ) (x : Signed) : Type 0 where
  pub not_negative : x.negative ≡ false
  pub value : x.size.m ≡ c * 2 ^ x.size.k

exact : (c k : ℕ) → c ≤ 2 ^ 53 → to_double (c * 2 ^ k) ≡ c * 2 ^ k
exact c k h = omega (
  arith,
  to_double-le (c * 2 ^ k) c k h (omega arith),
  le-to_double (c * 2 ^ k) c k h (omega arith),
)

nothing-IsAt : (d : ℕ) → 0 < d → IsAt 0 (signed_quotient (pos 0) d)
unfolding quotient
nothing-IsAt d h = record {
  not_negative = refl;
  value = omega (arith, round_even-le (0 * 2 ^ scale 1074 0 (d * 2 ^ 53)) d 0 h (omega arith));
}

all-IsAt : (n d : ℕ) → 0 < n → n ≡ d → IsAt 1 (signed_quotient (pos n) d)
all-IsAt n d h e =
    subst (λ k. IsAt 1 (signed_quotient (pos n) k)) e
      (record { not_negative = refl; value = omega (arith, quotient_self n h) })

-- The least value of the domain has no share, and the greatest has the whole.
share_low : (low high : ℤ) → low ≤ℤ high → eqb_ℤ high low ≡ false → IsAt 0 (share low high low)
share_low low high h apart =
    rw
      (
        from_low low low (omega arith),
        from_low low high h,
        gap_self low,
        to_double-exact 0 (omega arith),
      )
      (nothing-IsAt (to_double (gap low high + 0))
        (to_double-pos (gap low high + 0) (apart_gap low high h apart)))

share_high : (low high : ℤ) → low ≤ℤ high → eqb_ℤ high low ≡ false → IsAt 1 (share low high high)
share_high low high h apart = rw (from_low low high h) (
    all-IsAt (to_double (gap low high)) (to_double (gap low high + 0))
      (to_double-pos (gap low high) (omega (arith, apart_gap low high h apart)))
      (ap to_double (omega arith)))

product : (c width p : ℕ) → c * p * width ≡ c * width * p
product c width p = grind arith

times-exact :
    (width c : ℕ) (x : Signed)
    → c * width ≤ 2 ^ 53
    → IsAt c x
    → (signed_times x width).size.m ≡ c * width * 2 ^ x.size.k
unfolding times
times-exact width c x small h =
    ap to_double (ap (λ m. m * width) h.value ∙ product c width (2 ^ x.size.k))
    ∙ exact (c * width) x.size.k small

-- A part of a width, behind the left edge, and of a height, above the bottom.
plus-IsAt :
    (left width c : ℕ) (x : Signed)
    → left + c * width ≤ 2 ^ 53
    → IsAt c x
    → IsAt (left + c * width) (plus left (signed_times x width))
unfolding times
plus-IsAt left width c x small h =
    let k = x.size.k in
    let t = times-exact width c x (omega (arith, small)) h in
    subst (IsAt (left + c * width)) (sym (plus_lem left (signed_times x width) h.not_negative))
      (record {
        not_negative = refl;
        value =
            ap to_double (ap (λ m. left * 2 ^ k + m) t ∙ sym (add-mul left (c * width) (2 ^ k)))
            ∙ exact (left + c * width) k small;
      })

less-IsAt :
    (bottom end height c : ℕ) (x : Signed)
    → bottom ≡ end + c * height
    → bottom ≤ 2 ^ 53
    → IsAt c x
    → IsAt end (less bottom (signed_times x height))
unfolding times
less-IsAt bottom end height c x sum small h =
    let k = x.size.k in
    let t = times-exact height c x (omega (arith, sum, small)) h in
    let both = ap (λ b. b * 2 ^ k) sum ∙ add-mul end (c * height) (2 ^ k) in
    subst (IsAt end)
      (sym (less_lem bottom (signed_times x height) h.not_negative (omega (arith, t, both))))
      (record {
        not_negative = refl;
        value = ap to_double (left_over _ _ _ _ t both) ∙ exact end k (omega (arith, sum, small));
      })
  where
    left_over : (b t e u : ℕ) → t ≡ u → b ≡ e + u → b - t ≡ e
    left_over b t e u p q = omega (arith, p, q)

-- What is left below a greater share is not more.
lowered :
    (b t t' i j : ℕ)
    → t ≤ b * 2 ^ i
    → t' ≤ b * 2 ^ j
    → t * 2 ^ j ≤ t' * 2 ^ i
    → (b * 2 ^ j - t') * 2 ^ i ≤ (b * 2 ^ i - t) * 2 ^ j
lowered b t t' i j p q h =
    let a = b * 2 ^ j - t' in
    let c = b * 2 ^ i - t in
    let swapped : b * 2 ^ j * 2 ^ i ≡ b * 2 ^ i * 2 ^ j = grind arith in
    omega (
      arith,
      h,
      swapped,
      add-mul a t' (2 ^ i),
      add-mul c t (2 ^ j),
      ap (λ n. n * 2 ^ i) {x = a + t'} {y = b * 2 ^ j} (omega (arith, q)),
      ap (λ n. n * 2 ^ j) {x = c + t} {y = b * 2 ^ i} (omega (arith, p)),
    )

less_mono :
    (bottom height : ℕ) (x y : Signed)
    → height ≤ bottom
    → height ≤ 2 ^ 53
    → IsShare x
    → IsShare y
    → x.size ⊑ y.size
    → (less bottom (signed_times y height)).size ⊑ (less bottom (signed_times x height)).size
unfolding times
less_mono bottom height x y fits small p q h =
    let i = x.size.k in
    let j = y.size.k in
    let t = (signed_times x height).size.m in
    let t' = (signed_times y height).size.m in
    let within = λ (z : Signed) (r : IsShare z).
      mul-le-mul_right {m = height} {n = bottom} (2 ^ z.size.k) fits in
    let low : t ≤ bottom * 2 ^ i = omega (arith, times-le height x small p, within x p) in
    let high : t' ≤ bottom * 2 ^ j = omega (arith, times-le height y small q, within y q) in
    subst₂ (λ (u v : Signed). u.size ⊑ v.size)
      (sym (less_lem bottom (signed_times y height) q.not_negative high))
      (sym (less_lem bottom (signed_times x height) p.not_negative low))
      (to_double_mono_scaled (bottom * 2 ^ j - t') (bottom * 2 ^ i - t) j i (
        lowered bottom t t' i j low high (
          to_double_mono_scaled (x.size.m * height) (y.size.m * height) i j
            (scaled_mono x.size.m y.size.m i j height h))))

module _ (from span : ℕ) (low high : ℤ) where
  -- A horizontal axis: its ends are those of the domain, and a greater value is not further left.
  pub record IsAcross : Type 0 where
    pub first : IsAt from (x_on from span low high low)
    pub last : IsAt (from + span) (x_on from span low high high)
    pub ordered :
        (v w : ℤ)
        → low ≤ℤ v
        → v ≤ℤ w
        → w ≤ℤ high
        → (x_on from span low high v).size ⊑ (x_on from span low high w).size

  -- A vertical axis: its ends are those of the domain, and a greater value is not further down.
  pub record IsUpwards : Type 0 where
    pub lowest : IsAt (from + span) (y_on from span low high low)
    pub highest : IsAt from (y_on from span low high high)
    pub ordered :
        (v w : ℤ)
        → low ≤ℤ v
        → v ≤ℤ w
        → w ≤ℤ high
        → (y_on from span low high w).size ⊑ (y_on from span low high v).size

module _ (from span : ℕ) (small : from + span < 2 ^ 53) (low high : ℤ) (up : low <ℤ high) where
  apart : eqb_ℤ high low ≡ false
  apart = ground arith

  across : IsAcross from span low high
  unfolding x_on
  across = record {
    first = rw apart (
        subst (λ c. IsAt c (plus from (signed_times (share low high low) span)))
          {x = from + 0 * span} (omega arith)
          (plus-IsAt from span 0 (share low high low) (omega arith)
            (share_low low high (omega arith) apart)));
    last = rw apart (
        subst (λ c. IsAt c (plus from (signed_times (share low high high) span)))
          {x = from + 1 * span} (omega arith)
          (plus-IsAt from span 1 (share low high high) (omega arith)
            (share_high low high (omega arith) apart)));
    ordered = x_on_mono from span small low high;
  }

  upwards : IsUpwards from span low high
  unfolding y_on
  upwards = record {
    lowest = rw apart (
        less-IsAt (from + span) (from + span) span 0 (share low high low) (omega arith)
          (omega arith) (share_low low high (omega arith) apart));
    highest = rw apart (
        less-IsAt (from + span) from span 1 (share low high high) (omega arith) (omega arith)
          (share_high low high (omega arith) apart));
    ordered = λ v w a b c. rw apart (
        less_mono (from + span) span (share low high v) (share low high w) (omega arith)
          (omega arith) (share-IsShare low high v a (omega arith) apart)
          (share-IsShare low high w (omega arith) c apart) (share_mono low high v w a b c apart).2);
  }

  -- On an axis of two values or more, on either of the two scales, the least and the greatest value of
  -- the domain are drawn exactly at the two edges, and the places follow the order of the values:
  -- to the right, and upwards.
  pub x_on-IsAcross : IsAcross from span low high × IsUpwards from span low high
  x_on-IsAcross = (across, upwards)
