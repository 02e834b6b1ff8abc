-- ===== src/Ticket/Controls/Inert.antt =====
-- OrderEntry.tsx: the ticket while it is disabled, and its limit inputs while it is a peg.
use low_latency_matching_eng.Prelude.{
  ℤ, List, [], ◌∷◌, Option, none, some, true, All, ◌≡◌, refl, ap, Text,
}
use low_latency_matching_eng.Protocol.Frames.{limit, peg_mid, OrderIntent}
use low_latency_matching_eng.Ticket.{TicketState, apply_price}
use low_latency_matching_eng.Ticket.Controls.{
  TicketProps, TicketControl, ord_type_clicked, TicketEvent, acted, set_price, ticket_step,
  ticket_run,
}

abbrev pub later_or : ℤ → Option ℤ → Option ℤ
later_or px none = some px
later_or px (some later) = some later

-- The price that the depth curve wrote last.
abbrev pub last_set : List TicketEvent → Option ℤ
last_set [] = none
last_set (acted props c ∷ rest) = last_set rest
last_set (set_price px ∷ rest) = later_or px (last_set rest)

-- The ticket with a price written from outside, if any.
abbrev pub with_price : TicketState → Option ℤ → TicketState
with_price st none = st
with_price st (some px) = apply_price st px

abbrev pub IsDisabledEvent : TicketEvent → Type 0
IsDisabledEvent (acted props c) = props.disabled ≡ true
IsDisabledEvent (set_price px) = Unit

disabled_step :
    (st : TicketState) (props : TicketProps) (c : TicketControl)
    → props.disabled ≡ true
    → ticket_step st (acted props c) ≡ (st, none)
unfolding ticket_step
disabled_step st props c h = rw h refl

-- A ticket that is disabled throughout, whatever is done at its controls and at the depth curve: it
-- emits nothing, and it is the ticket from before but for the price that the curve wrote last, which
-- is in the price input, and whose writing clears the error.
pub disabled_run :
    (st : TicketState) (es : List TicketEvent)
    → All IsDisabledEvent es
    → ticket_run st es ≡ (with_price st (last_set es), [])
unfolding ticket_run apply_price ticket_step
disabled_run st [] h = refl
disabled_run st (acted props c ∷ rest) (d, h) =
    rw (disabled_step st props c d, disabled_run st rest h) refl
disabled_run st (set_price px ∷ rest) (d, h) =
    rw (disabled_run (apply_price st px) rest h) (pair (overwritten (last_set rest)))
  where
    overwritten : (o : Option ℤ) → with_price (apply_price st px) o ≡ with_price st (later_or px o)
    overwritten none = refl
    overwritten (some q) = refl

    pair : {a b : TicketState} → a ≡ b → ◌≡◌ {A = TicketState × List OrderIntent} (a, []) (b, [])
    pair e = ap (λ k. (k, [])) e

pub record IsPegged (price display : Text) (st : TicketState) : Type 0 where
  pub pegged : st.ord_type ≡ peg_mid
  pub price_kept : st.price_input ≡ price
  pub display_kept : st.display_input ≡ display

-- Neither a click on Limit nor a price from the depth curve.
abbrev pub IsPegEvent : TicketEvent → Type 0
IsPegEvent (acted props (ord_type_clicked limit)) = ⊥
IsPegEvent (set_price px) = ⊥
IsPegEvent _ = Unit
