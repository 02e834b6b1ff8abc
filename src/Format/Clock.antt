-- ===== src/Format/Clock.antt =====
-- format.ts, `formatClockNanos`: the local time of a timestamp.
use native.Mathlib.Nat.{pow-suc}
use low_latency_matching_eng.Prelude.{
  ℕ, zero, suc, ◌+◌, ◌-◌, ◌*◌, ◌/◌, ◌%◌, ◌^◌, ◌≤◌, ◌<◌, ℤ, pos, negsuc, leb_ℤ, ◌<ℤ◌, [], ◌∷◌, ◌++◌,
  length, length-append, dec_lt, ◌≡◌, refl, false, arith,
}
use low_latency_matching_eng.Double.{to_double, quotient, floor}
use low_latency_matching_eng.Double.Round.{floor-quotient}
use low_latency_matching_eng.Double.Excess.{to_double-near, quotient-bits}
use low_latency_matching_eng.Format.{
  decimal, zeros, pad, hms, ClockPrecision, ms, ns, clock_fraction, format_clock_nanos, clock_at,
}
use low_latency_matching_eng.Format.Decimal.{decimal_small, decimal_step}
use low_latency_matching_eng.State.Socket.{send_time}

send_time-near :
    (now : ℕ)
    → now < 2 ^ 41
    → (now * 1000000 + 499744 ≤ send_time now) × (send_time now ≤ now * 1000000 + 500256)
unfolding send_time
send_time-near now h =
    let a = to_double-near (now * 1000000) (omega arith) in
    let b = to_double-near (to_double (now * 1000000) + 500000) (omega (arith, a)) in
    (omega (arith, a, b), omega (arith, a, b))

-- The division of a send time by a million is rounded to a number whose floor is the clock's reading.
pub send_time-floor : (now : ℕ) → now < 2 ^ 41 → floor (quotient (send_time now) 1000000) ≡ now
send_time-floor now h =
    let near = send_time-near now h in
    floor-quotient (send_time now) 1000000 now (omega arith)
      (quotient-bits (send_time now) 1000000 (omega (arith, near.1))) (omega (arith, near.0))
      (omega (arith, near.1))

shown_pos : (n : ℕ) → 0 < n → leb_ℤ (pos n) (pos 0) ≡ false
shown_pos n h = ground arith

-- The row of an order shows the millisecond at which it was sent, in the local time: neither the two
-- roundings of the send time nor that of the clock's division moves it, for a clock below 2^41 ms,
-- which is September of 2039.
send_time-shown :
    (local_ms : ℕ → ℕ) (now : ℕ)
    → now < 2 ^ 41
    → format_clock_nanos local_ms (pos (send_time now)) ms
      ≡ hms (local_ms now) ++ b'.' ∷ pad (local_ms now % 1000) 3
unfolding format_clock_nanos clock_at
send_time-shown local_ms now h =
    rw (shown_pos (send_time now) (omega (arith, send_time-near now h)), send_time-floor now h) refl

length-decimal : (w n : ℕ) → n < 10 ^ suc w → length (decimal n) ≤ suc w
length-decimal zero n h = rw (decimal_small n (omega (arith, h))) (omega arith)
length-decimal (suc w) n h = elim (dec_lt n 10) [
  | yes p ↦ rw (decimal_small n p) (omega arith)
  | no p ↦ rw (decimal_step n (omega arith)) (
      omega (
        arith,
        length-append {0} (decimal (n / 10)) ((b'0' + n % 10) ∷ []),
        length-decimal w (n / 10) (omega (arith, h, pow-suc 10 (suc w))),
      ))
]

length-zeros : (n : ℕ) → length (zeros n) ≡ n
length-zeros zero = refl
length-zeros (suc n) = omega (arith, length-zeros n)

length-pad : (n w : ℕ) → n < 10 ^ suc w → length (pad n (suc w)) ≡ suc w
length-pad n w h = omega (
  arith,
  length-append {0} (zeros (suc w - length (decimal n))) (decimal n),
  length-zeros (suc w - length (decimal n)),
  length-decimal w n h,
)

abbrev pub clock_width : ClockPrecision → ℕ
clock_width ms = 12
clock_width ns = 18

length-hms : (d : ℕ) → length (hms d) ≡ 8
length-hms d =
    let h = pad (d / 3600000 % 24) 2 in
    let m = pad (d / 60000 % 60) 2 in
    let s = pad (d / 1000 % 60) 2 in
    omega (
      arith,
      length-append {0} (h ++ b':' ∷ m) (b':' ∷ s),
      length-append {0} h (b':' ∷ m),
      length-pad (d / 3600000 % 24) 1 (omega arith),
      length-pad (d / 60000 % 60) 1 (omega arith),
      length-pad (d / 1000 % 60) 1 (omega arith),
    )

length_clock :
    (precision : ClockPrecision) (d n : ℕ)
    → length (hms d ++ b'.' ∷ clock_fraction precision d n) ≡ clock_width precision
length_clock ms d n = omega (
  arith,
  length-append {0} (hms d) (b'.' ∷ clock_fraction ms d n),
  length-hms d,
  length-pad (d % 1000) 2 (omega arith),
)
length_clock ns d n = omega (
  arith,
  length-append {0} (hms d) (b'.' ∷ clock_fraction ns d n),
  length-hms d,
  length-pad (n % 1000000000) 8 (omega arith),
)

-- A positive timestamp is shown as a clock time of fixed width: 12 characters with milliseconds, and 18
-- with nanoseconds.
format_clock_nanos-width :
    (local_ms : ℕ → ℕ) (nanos : ℤ) (precision : ClockPrecision)
    → pos 0 <ℤ nanos
    → length (format_clock_nanos local_ms nanos precision) ≡ clock_width precision
unfolding format_clock_nanos clock_at
format_clock_nanos-width local_ms (pos n) precision h =
    rw (shown_pos n (omega arith))
      (length_clock precision (local_ms (floor (quotient n 1000000))) n)
format_clock_nanos-width local_ms (negsuc n) precision h = absurd (omega arith)
