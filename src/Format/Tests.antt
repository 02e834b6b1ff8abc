-- ===== src/Format/Tests.antt =====
-- format.ts on concrete values.
use low_latency_matching_eng.Prelude.{ℕ, ◌*◌, pos, ◌+◌, none, some, codes, ◌≡◌, ◌↔◌, refl, arith}
use low_latency_matching_eng.Protocol.Value.{whole}
use low_latency_matching_eng.Format.{format_price, format_qty, parse_price, ns, format_clock_nanos}
use low_latency_matching_eng.Format.Parse.{Spells, parse_price_iff}
use low_latency_matching_eng.Format.RoundTrip.{parse_price-format_price}

shown : format_price (whole (pos 1502500)) ≡ codes "150.25"
unfolding format_price
shown = refl

half_tick : format_price (whole (pos 1502550)) ≡ codes "150.255"
unfolding format_price
half_tick = refl

grouped : format_qty (pos 1234567) ≡ codes "1,234,567"
unfolding format_qty
grouped = refl

parsed : parse_price (codes " 150.2 ") ≡ some (pos 1502000)
unfolding parse_price
parsed = refl

three_decimals : parse_price (codes "150.255") ≡ none
unfolding parse_price
three_decimals = refl

parse_price_iff_example :
    (parse_price (codes "150.25") ≡ some (pos 1502500))
    ↔ ((cents : ℕ) × Spells (codes "150.25") cents × (pos 1502500 ≡ pos (cents * 100)))
parse_price_iff_example = parse_price_iff (codes "150.25") (pos 1502500)

parse_price-format_price_example :
    parse_price (format_price (whole (pos (15025 * 100)))) ≡ some (pos (15025 * 100))
parse_price-format_price_example = parse_price-format_price 15025 (omega arith) (omega arith)

-- Two hours east of Greenwich.
abbrev east : ℕ → ℕ
east t = t + 7200000

clock : format_clock_nanos east (pos 1750000000123456789) ns ≡ codes "17:06:40.123456789"
unfolding format_clock_nanos low_latency_matching_eng.Double.floor
    low_latency_matching_eng.Double.quotient
clock = refl
