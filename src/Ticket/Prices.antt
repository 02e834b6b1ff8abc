-- ===== src/Ticket/Prices.antt =====
-- OrderEntry.tsx: the mid chip and the nudges, `midChipPx` and `nudgePx`.
use low_latency_matching_eng.Prelude.{
  ℕ, suc, ◌+◌, ◌*◌, ◌/◌, ◌≤◌, ◌<◌, ℤ, pos, negsuc, ◌+ℤ◌, ◌*ℤ◌, ltb, if◌then◌else◌, some, false, ◌≡◌,
  ap, ◌∙◌, arith,
}
use low_latency_matching_eng.Protocol.Value.{whole}
use low_latency_matching_eng.Protocol.Encode.{max_safe}
use low_latency_matching_eng.Format.{parse_price, format_price}
use low_latency_matching_eng.Format.RoundTrip.{parse_price-format_price}
use low_latency_matching_eng.Ticket.{tick_px, mid_chip_px, nudge_px, TicketState, nudge, nudge_from}

-- Of two positive prices on the tick, the chip is a price on the tick, not below the midpoint, less
-- than a tick above it, and between the two prices.
mid_chip_px-tick :
    (b a : ℕ)
    → 0 < b
    → b ≤ a
    → (m : ℕ) × (mid_chip_px (pos (b * 100)) (pos (a * 100)) ≡ some (pos (m * 100)))
      × (b + a ≤ m + m)
      × (m + m ≤ b + a + 1)
      × (b ≤ m)
      × (m ≤ a)
unfolding mid_chip_px
mid_chip_px-tick b a p q =
    ((b + a + 1) / 2, ground arith, omega arith, omega arith, omega arith, omega arith)

-- One tick up, and one tick down with the floor at one tick.
nudge_up :
    (cents : ℕ) → nudge_px (pos (cents * 100)) (pos 1) (pos tick_px) ≡ pos ((cents + 1) * 100)
unfolding nudge_px ◌+ℤ◌ ◌*ℤ◌
nudge_up cents = ground arith

nudge_down :
    (cents : ℕ)
    → nudge_px (pos (suc cents * 100)) (negsuc 0) (pos tick_px)
      ≡ pos ((if ltb 0 cents then cents else 1) * 100)
unfolding nudge_px ◌+ℤ◌ ◌*ℤ◌
nudge_down cents = ground arith

nudge_lem :
    (st : TicketState) (steps : ℤ) (cents target : ℕ)
    → parse_price st.price_input ≡ some (pos (cents * 100))
    → nudge_px (pos (cents * 100)) steps (pos tick_px) ≡ pos (target * 100)
    → 0 < target
    → target * 100 ≤ max_safe
    → parse_price (nudge false steps st).price_input ≡ some (pos (target * 100))
unfolding nudge
nudge_lem st steps cents target h e p q =
    ap (λ o. parse_price (nudge_from st steps o).price_input) h
    ∙ ap (λ px. parse_price (format_price (whole px))) e
    ∙ parse_price-format_price target p q

-- A nudge of an enabled ticket whose input parses: the new input parses to one tick more, or to one
-- tick less but never below one tick, if the next price up is a safe integer.
nudge-parse_price :
    (st : TicketState) (cents : ℕ)
    → parse_price st.price_input ≡ some (pos (suc cents * 100))
    → (suc cents + 1) * 100 ≤ max_safe
    → (parse_price (nudge false (pos 1) st).price_input ≡ some (pos ((suc cents + 1) * 100)))
      × (parse_price (nudge false (negsuc 0) st).price_input
          ≡ some (pos ((if ltb 0 cents then cents else 1) * 100)))
nudge-parse_price st cents h q = (
  nudge_lem st (pos 1) (suc cents) (suc cents + 1) h (nudge_up (suc cents)) (omega arith) q,
  nudge_lem st (negsuc 0) (suc cents) (if ltb 0 cents then cents else 1) h (nudge_down cents)
      (ground arith) (ground arith),
)
