-- ===== src/Format/Digits.antt =====
-- `String(n)` of a whole number below 10^21, as a template prints it too: the shortest digits that read
-- back as the number, with zeros behind them.
use low_latency_matching_eng.Prelude.{
  ℕ, zero, suc, ◌+◌, ◌*◌, ◌/◌, ◌^◌, ◌==◌, [], ◌∷◌, length, All, Option, none, some, Text, ◌≡◌, ◌≢◌,
  refl, sym, ap, ◌∙◌, if◌then◌else◌, arith,
}
use low_latency_matching_eng.Double.{round_even, to_double}
use low_latency_matching_eng.Format.{decimal, value_of}
use low_latency_matching_eng.Format.Decimal.{IsDigit, decimal-digits, value_of-decimal}

-- The multiple of a power of ten that reads back as the number, the nearest one if there are two.
unfoldable pub shortest_at : ℕ → ℕ → Option ℕ
shortest_at n p =
    let near = round_even n p * p in
    let low = n / p * p in
    if to_double near == n
    then some near
    else if to_double low == n
    then some low
    else if to_double (low + p) == n
    then some (low + p)
    else none

-- The same for the greatest power of ten that has such a multiple.
unfoldable pub shortest : ℕ → ℕ → Option ℕ
shortest zero n = shortest_at n 1
shortest (suc e) n = elim (shortest_at n (10 ^ suc e)) [ some c ↦ some c | none ↦ shortest e n ]

-- Every number of the program is a double, and has such digits. Another whole number keeps its own,
-- behind a zero.
abbrev digits_of : ℕ → Option ℕ → Text
digits_of n (some c) = decimal c
digits_of n none = b'0' ∷ decimal n

unfoldable pub number_text : ℕ → Text
number_text n = digits_of n (shortest 20 n)

shortest_at-to_double : (n p c : ℕ) → shortest_at n p ≡ some c → to_double c ≡ n
unfolding shortest_at
shortest_at-to_double n p c h = ground arith

either_of :
    (n c : ℕ) (o rest : Option ℕ)
    → (o ≡ some c → to_double c ≡ n)
    → (rest ≡ some c → to_double c ≡ n)
    → (elim o [ some d ↦ some d | none ↦ rest ]) ≡ some c
    → to_double c ≡ n
either_of n c (some d) rest f g h = f h
either_of n c none rest f g h = g h

shortest-to_double : (e n c : ℕ) → shortest e n ≡ some c → to_double c ≡ n
unfolding shortest
shortest-to_double zero n c h = shortest_at-to_double n 1 c h
shortest-to_double (suc e) n c h =
    either_of n c (shortest_at n (10 ^ suc e)) (shortest e n)
      (shortest_at-to_double n (10 ^ suc e) c) (shortest-to_double e n c) h

digits_of-digits : (n : ℕ) (o : Option ℕ) → All IsDigit (digits_of n o) × (digits_of n o ≢ [])
digits_of-digits n (some c) = decimal-digits c
digits_of-digits n none = ((omega arith, (decimal-digits n).0), cc)

pub number_text-digits : (n : ℕ) → All IsDigit (number_text n) × (number_text n ≢ [])
unfolding number_text
number_text-digits n = digits_of-digits n (shortest 20 n)

decimal-inj : {m n : ℕ} → decimal m ≡ decimal n → m ≡ n
decimal-inj {m} {n} h = sym (value_of-decimal m) ∙ ap value_of h ∙ value_of-decimal n

value-zero : (s : Text) → value_of (b'0' ∷ s) ≡ value_of s
value-zero s = refl

no_zero {ℓ} : {G : Type ℓ} (c n : ℕ) → decimal c ≡ b'0' ∷ decimal n → G
no_zero c n h =
    let same : c ≡ n =
      sym (value_of-decimal c) ∙ ap value_of h ∙ value-zero (decimal n) ∙ value_of-decimal n in
    absurd (omega (arith, ap length h, ap (λ k. length (decimal k)) same))

digits_of-inj :
    (m n : ℕ) (o p : Option ℕ)
    → shortest 20 m ≡ o
    → shortest 20 n ≡ p
    → digits_of m o ≡ digits_of n p
    → m ≡ n
digits_of-inj m n (some c) (some d) e f h =
    sym (shortest-to_double 20 m c e) ∙ ap to_double (decimal-inj h) ∙ shortest-to_double 20 n d f
digits_of-inj m n (some c) none e f h = no_zero c n h
digits_of-inj m n none (some d) e f h = no_zero d m (sym h)
digits_of-inj m n none none e f h = decimal-inj (tail h)
  where
    tail : {s t : Text} → b'0' ∷ s ≡ b'0' ∷ t → s ≡ t
    tail h = cc

pub number_text-inj : (m n : ℕ) → number_text m ≡ number_text n → m ≡ n
unfolding number_text
number_text-inj m n h = digits_of-inj m n (shortest 20 m) (shortest 20 n) refl refl h
