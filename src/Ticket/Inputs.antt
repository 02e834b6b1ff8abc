-- ===== src/Ticket/Inputs.antt =====
-- OrderEntry.tsx and CancelTicket.tsx: what the validations let through.
use low_latency_matching_eng.Prelude.{
  ℕ, ◌≤◌, ◌<◌, [], ◌∷◌, true, ◌≡◌, ◌≢◌, ◌↔◌, ◌⊎◌, refl, All, Text, arith,
}
use low_latency_matching_eng.Protocol.Encode.{max_safe}
use low_latency_matching_eng.Format.{trim, value_of}
use low_latency_matching_eng.Format.Decimal.{IsDigit}
use low_latency_matching_eng.Ticket.{
  Reason, qty_reason, id_reason, valid, every_digit, positive_whole, validate_qty_input,
  validate_orig_cl_ord_id, display_of, display_trimmed, validate_display_qty,
}

-- The trimmed text is one or more digits that spell the number, positive and a safe integer.
pub record SpellsWhole (s : Text) (n : ℕ) : Type 0 where
  pub digits : All IsDigit s
  pub some_digits : s ≢ []
  pub value_is : n ≡ value_of s
  pub positive : 0 < n
  pub safe : n ≤ max_safe

every_digit-sound : (s : Text) → every_digit s ≡ true → All IsDigit s
every_digit-sound [] h = tt
every_digit-sound (c ∷ s) h = (ground arith, every_digit-sound s (ground arith))

every_digit_complete : (s : Text) → All IsDigit s → every_digit s ≡ true
every_digit_complete [] h = refl
every_digit_complete (c ∷ s) (d, h) = ground (arith, every_digit_complete s h)

positive_whole_sound :
    (r : Reason) (s : Text) (n : ℕ) → positive_whole r s ≡ valid n → SpellsWhole s n
unfolding positive_whole
positive_whole_sound r [] n h = cc
positive_whole_sound r (c ∷ s) n h = record {
  digits = every_digit-sound (c ∷ s) (ground arith);
  some_digits = cc;
  value_is = ground arith;
  positive = ground arith;
  safe = ground arith;
}

positive_whole_complete :
    (r : Reason) (s : Text) (n : ℕ) → SpellsWhole s n → positive_whole r s ≡ valid n
unfolding positive_whole
positive_whole_complete r [] n h = absurd (h.some_digits refl)
positive_whole_complete r (c ∷ s) n h = ground (arith, every_digit_complete (c ∷ s) h.digits)

-- A quantity is accepted exactly if the trimmed text spells it as a positive safe integer, and an id to
-- cancel likewise.
pub validate_whole_iff :
    (s : Text) (n : ℕ)
    → ((validate_qty_input s ≡ valid n) ↔ SpellsWhole (trim s) n)
      × ((validate_orig_cl_ord_id s ≡ valid n) ↔ SpellsWhole (trim s) n)
unfolding validate_qty_input validate_orig_cl_ord_id
validate_whole_iff s n = (
  (positive_whole_sound qty_reason (trim s) n, positive_whole_complete qty_reason (trim s) n),
  (positive_whole_sound id_reason (trim s) n, positive_whole_complete id_reason (trim s) n),
)

-- The display quantity of an order of `qty`: 0 for a plain order, else less than `qty`.
abbrev pub IsDisplay : ℕ → ℕ → Type 0
IsDisplay qty d = (d ≡ 0) ⊎ ((0 < d) × (d < qty))

display_trimmed_sound : (s : Text) (qty d : ℕ) → display_trimmed s qty ≡ valid d → IsDisplay qty d
unfolding display_trimmed display_of
display_trimmed_sound [] qty d h = ground arith
display_trimmed_sound (c ∷ s) qty d h = ground arith

-- An accepted display quantity is 0 or less than the quantity of the order.
pub validate_display_qty_sound :
    (s : Text) (qty d : ℕ) → validate_display_qty s qty ≡ valid d → IsDisplay qty d
unfolding validate_display_qty
validate_display_qty_sound s qty d h = display_trimmed_sound (trim s) qty d h
