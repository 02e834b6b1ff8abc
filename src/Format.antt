-- ===== src/Format.antt =====
-- app/frontend/src/format.ts: prices and quantities as text. A price is a whole number of units of
-- $0.0001. The functions of the language's library that the source calls are modelled as documented,
-- `String(n)` for n below 10^21, where it prints plain decimal.
mod Tests
pub mod Digits
pub mod Decimal
pub mod Shape
pub mod Parse
pub mod RoundTrip
pub mod Quantity
pub mod Midpoint
pub mod Clock
pub mod Fixed
use mathlib.Core.List.{foldl}
use low_latency_matching_eng.Prelude.{
  ℕ, zero, suc, ◌+◌, ◌-◌, ◌*◌, ◌/◌, ◌%◌, ◌==◌, ltb, leb, ℤ, pos, negsuc, ◌+ℤ◌, leb_ℤ, pos_part,
  neg_part, List, [], ◌∷◌, ◌++◌, Option, none, some, Bool, true, false, not, Text, codes, length,
  take, drop, any, ◌&&◌, ◌||◌, if◌then◌else◌,
}
use low_latency_matching_eng.Protocol.Value.{Number, whole, fractional, infinite}
use low_latency_matching_eng.Protocol.Encode.{max_safe}
use low_latency_matching_eng.Double.{Double, Signed, quotient, floor, hundredths}

abbrev pub empty_price : Text
empty_price = codes "—"

-- The decimal digits of a number; one round for each digit.
digits : ℕ → ℕ → Text
digits zero n = []
digits (suc fuel) n =
    let more = digits fuel (n / 10) ++ (b'0' + n % 10) ∷ [] in
    if ltb n 10 then (b'0' + n) ∷ [] else more

-- `String(n)`; the fuel exceeds the number of digits.
unfoldable pub decimal : ℕ → Text
unfolding digits
decimal n = digits (suc n) n

abbrev pub zeros : ℕ → Text
zeros zero = []
zeros (suc n) = b'0' ∷ zeros n

-- `s.padStart(n, '0')` and `s.padEnd(n, '0')`
abbrev pub pad_start : ℕ → Text → Text
pad_start n s = zeros (n - length s) ++ s

abbrev pub pad_end : ℕ → Text → Text
pad_end n s = s ++ zeros (n - length s)

-- `s.slice(0, -n)` and `s.slice(-n)`
abbrev pub slice_front : ℕ → Text → Text
slice_front n s = take (length s - n) s

abbrev pub slice_back : ℕ → Text → Text
slice_back n s = drop (length s - n) s

abbrev push_unless_zero : ℕ → Text → Text
push_unless_zero c [] = if c == b'0' then [] else c ∷ []
push_unless_zero c (d ∷ s) = c ∷ d ∷ s

-- `s.replace(/0+$/, '')`
abbrev pub strip_zeros : Text → Text
strip_zeros [] = []
strip_zeros (c ∷ s) = push_unless_zero c (strip_zeros s)

unfoldable pub format_units : ℕ → Text
unfolding decimal
format_units px =
    let padded = pad_start 5 (decimal px) in
    slice_front 4 padded ++ b'.' ∷ pad_end 2 (strip_zeros (slice_back 4 padded))

unfoldable pub format_price : Number → Text
unfolding format_units
format_price (fractional p k) = empty_price
format_price infinite = empty_price
format_price (whole (negsuc n)) = empty_price
format_price (whole (pos px)) = format_units px

-- A comma goes where a positive multiple of three digits is left.
group_thousands : Text → Text
group_thousands [] = []
group_thousands (c ∷ s) =
    let rest = group_thousands s in
    if ltb 0 (length s) && length s % 3 == 0 then c ∷ b',' ∷ rest else c ∷ rest

unfoldable pub format_qty : ℤ → Text
unfolding group_thousands decimal
format_qty (pos n) = group_thousands (decimal n)
format_qty (negsuc n) = b'-' ∷ group_thousands (decimal (suc n))

-- Half of an integer.
abbrev pub half : ℤ → Number
half (pos n) = if n % 2 == 0 then whole (pos (n / 2)) else fractional (pos n) 1
half (negsuc n) = if n % 2 == 0 then fractional (negsuc n) 1 else whole (negsuc (n / 2))

unfoldable pub midpoint_px : ℤ → ℤ → Option Number
midpoint_px best_bid best_ask =
    if leb_ℤ best_bid (pos 0) || leb_ℤ best_ask (pos 0)
    then none
    else some (half (best_bid +ℤ best_ask))

unfoldable pub midpoint_label : ℤ → ℤ → Text
unfolding format_price
midpoint_label best_bid best_ask =
    if leb_ℤ best_bid (pos 0) || leb_ℤ best_ask (pos 0)
    then empty_price
    else format_price (half (best_bid +ℤ best_ask))

-- The white space that `trim` removes.
abbrev pub is_white : ℕ → Bool
is_white c =
    (leb 9 c && leb c 13)
    || c == 32
    || c == 160
    || c == 0x1680
    || (leb 0x2000 c && leb c 0x200a)
    || c == 0x2028
    || c == 0x2029
    || c == 0x202f
    || c == 0x205f
    || c == 0x3000
    || c == 0xfeff

trim_start : Text → Text
trim_start [] = []
trim_start (c ∷ s) = let rest = trim_start s in if is_white c then rest else c ∷ s

abbrev push_unless_white : ℕ → Text → Text
push_unless_white c [] = if is_white c then [] else c ∷ []
push_unless_white c (d ∷ s) = c ∷ d ∷ s

trim_end : Text → Text
trim_end [] = []
trim_end (c ∷ s) = push_unless_white c (trim_end s)

unfoldable pub trim : Text → Text
unfolding trim_start trim_end
trim s = trim_end (trim_start s)

-- `\d`
abbrev pub is_digit : ℕ → Bool
is_digit c = leb b'0' c && leb c b'9'

abbrev push_digit : ℕ → Text × Text → Text × Text
push_digit c (ds, rest) = (c ∷ ds, rest)

-- The longest run of digits in front, and the rest.
span_digits : Text → Text × Text
span_digits [] = ([], [])
span_digits (c ∷ s) =
    let more = push_digit c (span_digits s) in if is_digit c then more else ([], c ∷ s)

-- The optional group `(?:\.(\d{1,2}))?` up to the end: the two fraction digits, padded.
abbrev fraction : Text → Option Text
fraction [] = some (pad_end 2 [])
fraction (c ∷ []) = none
fraction (c ∷ d ∷ []) = if c == b'.' && is_digit d then some (pad_end 2 (d ∷ [])) else none
fraction (c ∷ d ∷ e ∷ []) =
    if c == b'.' && is_digit d && is_digit e then some (d ∷ e ∷ []) else none
fraction (c ∷ d ∷ e ∷ g ∷ s) = none

-- `Number(digits)`, before rounding. A value above the safe integers is not rounded to a safe one, so
-- the test that follows decides alike.
abbrev pub value_of : Text → ℕ
value_of = foldl (λ n c. n * 10 + (c - b'0')) 0

abbrev pub checked_units : ℕ → Option ℤ
checked_units units = if not (leb units max_safe) || leb units 0 then none else some (pos units)

price_of_match : Text → Option Text → Option ℤ
price_of_match [] f = none
price_of_match (c ∷ ds) none = none
price_of_match (c ∷ ds) (some f) = checked_units (value_of ((c ∷ ds) ++ f ++ codes "00"))

unfoldable pub parse_price : Text → Option ℤ
unfolding trim span_digits price_of_match
parse_price input = let (ds, rest) = span_digits (trim input) in price_of_match ds (fraction rest)

-- `x.toFixed(2)`, of a double below 10^21; above, the text has an exponent.
unfoldable pub to_fixed_2 : Double → Text
to_fixed_2 x =
    let s = pad_start 3 (decimal (hundredths x)) in slice_front 2 s ++ b'.' ∷ slice_back 2 s

unfoldable pub signed_to_fixed_2 : Signed → Text
signed_to_fixed_2 x = if x.negative then b'-' ∷ to_fixed_2 x.size else to_fixed_2 x.size

pub data ClockPrecision : Type 0 where
  ms ns : ClockPrecision

-- The function `pad` of `formatClockNanos`.
abbrev pub pad : ℕ → ℕ → Text
pad n w = pad_start w (decimal n)

abbrev pub hms : ℕ → Text
hms d = pad (d / 3600000 % 24) 2 ++ b':' ∷ pad (d / 60000 % 60) 2 ++ b':' ∷ pad (d / 1000 % 60) 2

abbrev pub clock_fraction : ClockPrecision → ℕ → ℕ → Text
clock_fraction ms d n = pad (d % 1000) 3
clock_fraction ns d n = pad (n % 1000000000) 9

-- `local_ms` gives the local time of a time value, in milliseconds since a local midnight: the time zone
-- of the page.
module _ (local_ms : ℕ → ℕ) where
  clock_at : ClockPrecision → ℕ → ℕ → Text
  unfolding decimal
  clock_at precision d n = hms d ++ b'.' ∷ clock_fraction precision d n

  unfoldable pub format_clock_nanos : ℤ → ClockPrecision → Text
  unfolding clock_at
  format_clock_nanos nanos precision =
      if leb_ℤ nanos (pos 0)
      then empty_price
      else let n = pos_part nanos in clock_at precision (local_ms (floor (quotient n 1000000))) n
