-- ===== src/Format/Parse.antt =====
-- format.ts, `parsePrice`: exactly which texts are prices, and of what value.
use mathlib.Core.List.{cons-ne-nil}
use low_latency_matching_eng.Prelude.{
  ℕ, ◌*◌, ◌≤◌, ◌<◌, ℤ, pos, [], ◌∷◌, ◌++◌, append_assoc, Option, none, some, false, Bool-cases, inl,
  inr, ◌≡◌, ◌≢◌, ◌↔◌, refl, sym, ap, ◌∙◌, All, Text, codes, some-inj, none≢some, arith,
}
use low_latency_matching_eng.Protocol.Encode.{max_safe}
use low_latency_matching_eng.Format.{
  trim, is_digit, span_digits, fraction, value_of, checked_units, price_of_match, parse_price,
}
use low_latency_matching_eng.Format.Decimal.{IsDigit, value-snoc}

-- The tail behind the dollars, and the two fraction digits that it stands for.
abbrev pub IsFraction : Text → Text → Type 0
IsFraction [] f = f ≡ codes "00"
IsFraction (c ∷ []) f = ⊥
IsFraction (c ∷ d ∷ []) f = (c ≡ b'.') × IsDigit d × (f ≡ d ∷ b'0' ∷ [])
IsFraction (c ∷ d ∷ e ∷ []) f = (c ≡ b'.') × IsDigit d × IsDigit e × (f ≡ d ∷ e ∷ [])
IsFraction (c ∷ d ∷ e ∷ g ∷ s) f = ⊥

fraction_sound : (s f : Text) → fraction s ≡ some f → IsFraction s f
fraction_sound [] f h = sym (some-inj h)
fraction_sound (c ∷ []) f h = none≢some h
fraction_sound (c ∷ d ∷ []) f h = ground arith
fraction_sound (c ∷ d ∷ e ∷ []) f h = ground arith
fraction_sound (c ∷ d ∷ e ∷ g ∷ s) f h = none≢some h

fraction_complete : (s f : Text) → IsFraction s f → fraction s ≡ some f
fraction_complete [] f h = ap some (sym h)
fraction_complete (c ∷ []) f h = absurd h
fraction_complete (c ∷ d ∷ []) f h = ground arith
fraction_complete (c ∷ d ∷ e ∷ []) f h = ground arith
fraction_complete (c ∷ d ∷ e ∷ g ∷ s) f h = absurd h

span_sound :
    (s : Text) → ((span_digits s).0 ++ (span_digits s).1 ≡ s) × All IsDigit (span_digits s).0
unfolding span_digits
span_sound [] = (refl, tt)
span_sound (c ∷ s) = elim (Bool-cases (is_digit c)) [
  | inl e ↦ rw e (ap (λ t. c ∷ t) (span_sound s).0, (ground arith, (span_sound s).1))
  | inr e ↦ rw e (refl, tt)
]

point_no_digit : (c d : ℕ) (s f : Text) → IsFraction (c ∷ d ∷ s) f → is_digit c ≡ false
point_no_digit c d [] f h = ground arith
point_no_digit c d (e ∷ []) f h = ground arith
point_no_digit c d (e ∷ g ∷ s) f h = absurd h

span_stop : (tail f : Text) → IsFraction tail f → span_digits tail ≡ ([], tail)
unfolding span_digits
span_stop [] f h = refl
span_stop (c ∷ []) f h = absurd h
span_stop (c ∷ d ∷ s) f h = rw (point_no_digit c d s f h) refl

span-append :
    (w tail f : Text) → All IsDigit w → IsFraction tail f → span_digits (w ++ tail) ≡ (w, tail)
unfolding span_digits
span-append [] tail f h k = span_stop tail f k
span-append (c ∷ w) tail f (d, h) k = ground (arith, span-append w tail f h k)

-- Two zeros more behind.
value-00 : (s : Text) → value_of (s ++ codes "00") ≡ value_of s * 100
value-00 s =
    ap value_of (sym (append_assoc s (codes "0") (codes "0")))
    ∙ value-snoc (s ++ codes "0") b'0' 0
    ∙ omega (arith, value-snoc s b'0' 0)

-- A text spells a price: digits, then nothing or a point and one or two digits, with white space
-- around them; its value in cents is positive, and in units a safe integer.
pub record Spells (s : Text) (cents : ℕ) : Type 0 where
  pub dollars : Text
  pub tail : Text
  pub two_digits : Text
  pub trimmed : trim s ≡ dollars ++ tail
  pub all_digits : All IsDigit dollars
  pub some_digits : dollars ≢ []
  pub is_fraction : IsFraction tail two_digits
  pub value_is : cents ≡ value_of (dollars ++ two_digits)
  pub positive : 0 < cents
  pub safe : cents * 100 ≤ max_safe

pub checked_units_sound :
    (n : ℕ) (u : ℤ) → checked_units n ≡ some u → (u ≡ pos n) × (0 < n) × (n ≤ max_safe)
checked_units_sound n u h = ground arith

match_sound :
    (s ds rest : Text) (o : Option Text) (u : ℤ)
    → trim s ≡ ds ++ rest
    → All IsDigit ds
    → fraction rest ≡ o
    → price_of_match ds o ≡ some u
    → (cents : ℕ) × Spells s cents × (u ≡ pos (cents * 100))
unfolding price_of_match
match_sound s [] rest o u t d e h = absurd (none≢some h)
match_sound s (c ∷ ds) rest none u t d e h = absurd (none≢some h)
match_sound s (c ∷ ds) rest (some f) u t d e h =
    let n = value_of ((c ∷ ds) ++ f ++ codes "00") in
    let (exact, positive, fits) = checked_units_sound n u h in
    let cents = value_of ((c ∷ ds) ++ f) in
    let hundred : n ≡ cents * 100 = value-00 ((c ∷ ds) ++ f) in
    (
      cents,
      record {
        dollars = c ∷ ds;
        tail = rest;
        two_digits = f;
        trimmed = t;
        all_digits = d;
        some_digits = cons-ne-nil c ds;
        is_fraction = fraction_sound rest f e;
        value_is = refl;
        positive = omega arith;
        safe = omega arith;
      },
      exact ∙ ap pos hundred,
    )

pub checked_units_complete : (n : ℕ) → 0 < n → n ≤ max_safe → checked_units n ≡ some (pos n)
checked_units_complete n p h = ground arith

match_complete :
    (ds f : Text) (cents : ℕ)
    → ds ≢ []
    → cents ≡ value_of (ds ++ f)
    → 0 < cents
    → cents * 100 ≤ max_safe
    → price_of_match ds (some f) ≡ some (pos (cents * 100))
unfolding price_of_match
match_complete [] f cents n v p h = absurd (n refl)
match_complete (c ∷ ds) f cents n v p h =
    ap checked_units (value-00 ((c ∷ ds) ++ f) ∙ ap (λ k. k * 100) (sym v))
    ∙ checked_units_complete (cents * 100) (omega arith) h

match_value :
    (ds f : Text) → ds ≢ [] → price_of_match ds (some f) ≡ checked_units (value_of (ds ++ f) * 100)
unfolding price_of_match
match_value [] f n = absurd (n refl)
match_value (c ∷ ds) f n = ap checked_units (value-00 ((c ∷ ds) ++ f))

-- A text of the grammar is decided by the value of its digits.
pub parse-joined :
    (s dollars tail f : Text)
    → trim s ≡ dollars ++ tail
    → All IsDigit dollars
    → dollars ≢ []
    → IsFraction tail f
    → parse_price s ≡ checked_units (value_of (dollars ++ f) * 100)
unfolding parse_price
parse-joined s dollars tail f e ds n fr =
    ap (λ t. price_of_match (span_digits t).0 (fraction (span_digits t).1)) e
    ∙ ap (λ r. price_of_match r.0 (fraction r.1)) (span-append dollars tail f ds fr)
    ∙ ap (price_of_match dollars) (fraction_complete tail f fr)
    ∙ match_value dollars f n

-- A text parses to a number of units exactly if it spells a price of that many cents times 100. So
-- every parsed price is positive, on the one-cent tick and a safe integer, and no text that the
-- grammar refuses gets through.
pub parse_price_iff :
    (s : Text) (u : ℤ)
    → (parse_price s ≡ some u) ↔ ((cents : ℕ) × Spells s cents × (u ≡ pos (cents * 100)))
unfolding parse_price
parse_price_iff s u = (
  λ h.
      let (joined, digits) = span_sound (trim s) in
      match_sound s (span_digits (trim s)).0 (span_digits (trim s)).1
        (fraction (span_digits (trim s)).1) u (sym joined) digits refl h,
  λ (cents, sp, e).
      ap (λ t. price_of_match (span_digits t).0 (fraction (span_digits t).1)) sp.trimmed
      ∙ ap (λ r. price_of_match r.0 (fraction r.1))
          (span-append sp.dollars sp.tail sp.two_digits sp.all_digits sp.is_fraction)
      ∙ ap (price_of_match sp.dollars) (fraction_complete sp.tail sp.two_digits sp.is_fraction)
      ∙ match_complete sp.dollars sp.two_digits cents sp.some_digits sp.value_is sp.positive sp.safe
      ∙ ap some (sym e),
)
