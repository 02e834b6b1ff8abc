-- ===== src/Format/Quantity.antt =====
-- format.ts, `formatQty`: the grouped decimal text of a quantity.
use mathlib.Core.List.{cons-ne-nil}
use low_latency_matching_eng.Prelude.{
  ℕ, suc, ◌+◌, ◌-◌, ◌%◌, ◌<◌, ◌==◌, pos, List, [], ◌∷◌, inl, inr, ◌≡◌, ◌≢◌, refl, sym, ap, ◌∙◌, ◌⊎◌,
  subst, ℕ_discrete, All, Text, length, if◌then◌else◌, arith,
}
use low_latency_matching_eng.Protocol.Fix.{split, push_front}
use low_latency_matching_eng.Format.{decimal, group_thousands, format_qty}
use low_latency_matching_eng.Format.Decimal.{IsDigit, decimal-digits}

abbrev pub comma : ℕ
comma = b','

-- The text with the commas taken out.
abbrev pub without_commas : Text → Text
without_commas [] = []
without_commas (c ∷ s) = let rest = without_commas s in if c == comma then rest else c ∷ rest

-- Pieces of a text of `n` digits, in groups of three from the right.
abbrev pub AreGroups : ℕ → List Text → Type 0
AreGroups n [] = ⊥
AreGroups n (p ∷ ps) = (length p ≡ (n - 1) % 3 + 1) × All (λ q. length q ≡ 3) ps

without_commas-group : (s : Text) → All IsDigit s → without_commas (group_thousands s) ≡ s
unfolding group_thousands
without_commas-group [] h = refl
without_commas-group (c ∷ s) (d, h) = ground (arith, without_commas-group s h)

pub push-AreGroups :
    (c n : ℕ) (ps : List Text)
    → 0 < n
    → n % 3 ≢ 0
    → AreGroups n ps
    → AreGroups (suc n) (push_front c ps)
push-AreGroups c n [] p q h = absurd h
push-AreGroups c n (x ∷ ps) p q (e, h) = (omega arith, h)

new-AreGroups :
    (c n : ℕ) (ps : List Text)
    → 0 < n
    → n % 3 ≡ 0
    → AreGroups n ps
    → AreGroups (suc n) ((c ∷ []) ∷ ps)
new-AreGroups c n [] p q h = absurd h
new-AreGroups c n (x ∷ ps) p q (e, h) = (omega arith, (omega arith, h))

group_comma :
    (c : ℕ) (s : Text)
    → 0 < length s
    → length s % 3 ≡ 0
    → group_thousands (c ∷ s) ≡ c ∷ comma ∷ group_thousands s
unfolding group_thousands
group_comma c s p q = ground arith

group_plain :
    (c : ℕ) (s : Text)
    → (length s ≡ 0) ⊎ (length s % 3 ≢ 0)
    → group_thousands (c ∷ s) ≡ c ∷ group_thousands s
unfolding group_thousands
group_plain c s h = ground arith

split_digit : (c : ℕ) (s : Text) → IsDigit c → split comma (c ∷ s) ≡ push_front c (split comma s)
unfolding split
split_digit c s d = ground arith

split-comma : (s : Text) → split comma (comma ∷ s) ≡ [] ∷ split comma s
unfolding split
split-comma s = refl

group-AreGroups :
    (s : Text) → All IsDigit s → s ≢ [] → AreGroups (length s) (split comma (group_thousands s))
group-AreGroups [] h n = absurd (n refl)
group-AreGroups (c ∷ []) (d, h) n =
    subst (AreGroups 1) (sym (ap (split comma) (group_plain c [] (inl refl)) ∙ split_digit c _ d))
      (unfold split group_thousands in (refl, tt))
group-AreGroups (c ∷ e ∷ s) (d, h) n = elim (ℕ_discrete (length (e ∷ s) % 3) 0) [
  | yes z ↦
      subst (AreGroups (length (c ∷ e ∷ s)))
        (sym (
          ap (split comma) (group_comma c (e ∷ s) (omega arith) z)
          ∙ split_digit c _ d
          ∙ ap (push_front c) (split-comma (group_thousands (e ∷ s)))))
        (new-AreGroups c (length (e ∷ s)) (split comma (group_thousands (e ∷ s))) (omega arith) z
          (group-AreGroups (e ∷ s) h (cons-ne-nil e s)))
  | no z ↦
      subst (AreGroups (length (c ∷ e ∷ s)))
        (sym (ap (split comma) (group_plain c (e ∷ s) (inr z)) ∙ split_digit c _ d))
        (push-AreGroups c (length (e ∷ s)) (split comma (group_thousands (e ∷ s))) (omega arith) z
          (group-AreGroups (e ∷ s) h (cons-ne-nil e s)))
]

-- A natural quantity is printed as its decimal digits with commas between them, so that all groups
-- have three digits, but the first, which has one to three.
format_qty_lem :
    (n : ℕ)
    → (without_commas (format_qty (pos n)) ≡ decimal n)
      × AreGroups (length (decimal n)) (split comma (format_qty (pos n)))
unfolding format_qty
format_qty_lem n = (
  without_commas-group (decimal n) (decimal-digits n).0,
  group-AreGroups (decimal n) (decimal-digits n).0 (decimal-digits n).1,
)
