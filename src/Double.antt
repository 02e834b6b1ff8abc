-- ===== src/Double.antt =====
-- The double arithmetic that the sources of app/frontend/src call: the rounding of a whole number, of a
-- quotient, of a product and of a sum to 53 significant bits, ties to even, and `toFixed(2)`. A double is
-- a whole number over a power of two; it has its sign beside it where the sources need one.
pub mod Round
pub mod Excess
pub mod Accuracy
pub mod Bits
pub mod Order
pub mod Compare
pub mod Percent
use low_latency_matching_eng.Prelude.{
  ℕ, zero, suc, ◌+◌, ◌-◌, ◌*◌, ◌/◌, ◌%◌, ◌^◌, ◌==◌, ltb, leb, not, ◌-ℤ◌, ℤ, pos, negsuc, Bool, true,
  false, if◌then◌else◌,
}

-- The value `m` / 2^`k`.
pub record Double : Type 0 where
  pub m : ℕ
  pub k : ℕ

-- The whole number that is nearest to `p` / `q`, and the even one of two that are.
unfoldable pub round_even : ℕ → ℕ → ℕ
round_even p q =
    let n = p / q in
    let r = p % q in
    if ltb (2 * r) q then n else if ltb q (2 * r) then n + 1 else if n % 2 == 0 then n else n + 1

-- How many bits a number has beyond 53; one round for each bit.
pub excess : ℕ → ℕ → ℕ
excess zero n = 0
excess (suc fuel) n = let more = suc (excess fuel (n / 2)) in if ltb n (2 ^ 53) then 0 else more

-- The double that is nearest to a whole number; the fuel exceeds the number of bits.
unfoldable pub to_double : ℕ → ℕ
unfolding excess round_even
to_double n = let s = excess n n in round_even n (2 ^ s) * 2 ^ s

-- How often a number doubles below a bound; 1074 is the least exponent of a double.
pub scale : ℕ → ℕ → ℕ → ℕ
scale zero n bound = 0
scale (suc fuel) n bound =
    let more = suc (scale fuel (2 * n) bound) in if ltb (2 * n) bound then more else 0

-- `n / d`, of doubles with a quotient below 2^53.
unfoldable pub quotient : ℕ → ℕ → Double
unfolding scale round_even
quotient n d = let k = scale 1074 n (d * 2 ^ 53) in record { m = round_even (n * 2 ^ k) d; k = k }

-- `x * c`
unfoldable pub times : Double → ℕ → Double
unfolding to_double
times x c = record { m = to_double (x.m * c); k = x.k }

-- `Math.floor(x)`
unfoldable pub floor : Double → ℕ
floor x = x.m / 2 ^ x.k

-- The hundredths of `x.toFixed(2)`: the nearest number of them, and the larger one of two.
unfoldable pub hundredths : Double → ℕ
hundredths x = (200 * x.m + 2 ^ x.k) / (2 * 2 ^ x.k)

-- A double with its sign; that of zero is of no account.
pub record Signed : Type 0 where
  pub negative : Bool
  pub size : Double

abbrev pub signed_quotient : ℤ → ℕ → Signed
signed_quotient (pos n) d = record { negative = false; size = quotient n d }
signed_quotient (negsuc n) d = record { negative = true; size = quotient (suc n) d }

abbrev pub signed_times : Signed → ℕ → Signed
signed_times x c = record x { size = times x.size c }

-- A whole number as a double.
abbrev pub to_double_ℤ : ℤ → ℤ
to_double_ℤ (pos n) = pos (to_double n)
to_double_ℤ (negsuc n) = pos 0 -ℤ pos (to_double (suc n))

abbrev pub at : ℕ → Signed
at c = record { negative = false; size = record { m = c; k = 0 } }

-- The sum of two numbers with signs.
abbrev pub joined : Bool → ℕ → Bool → ℕ → Bool × ℕ
joined false a false b = (false, a + b)
joined true a true b = (true, a + b)
joined false a true b = if leb b a then (false, a - b) else (true, b - a)
joined true a false b = if leb a b then (false, b - a) else (true, a - b)

abbrev pub rounded : Bool × ℕ → ℕ → Signed
rounded (negative, m) k = record { negative = negative; size = record { m = to_double m; k = k } }

-- `c + x` and `c - x`
unfoldable pub plus : ℕ → Signed → Signed
plus c x = rounded (joined false (c * 2 ^ x.size.k) x.negative x.size.m) x.size.k

unfoldable pub less : ℕ → Signed → Signed
less c x = plus c (record x { negative = not x.negative })

-- `(x + y) / 2`; the division by two is exact.
unfoldable pub half_sum : Signed → Signed → Signed
half_sum x y =
    rounded (joined x.negative (x.size.m * 2 ^ y.size.k) y.negative (y.size.m * 2 ^ x.size.k))
      (x.size.k + y.size.k + 1)

-- `x - y`
unfoldable pub minus : Signed → Signed → Signed
minus x y =
    rounded (joined x.negative (x.size.m * 2 ^ y.size.k) (not y.negative) (y.size.m * 2 ^ x.size.k))
      (x.size.k + y.size.k)

-- `Math.max(0, x)`
abbrev pub at_least_zero : Signed → Signed
at_least_zero x = if x.negative then at 0 else x
