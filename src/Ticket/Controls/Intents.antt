-- ===== src/Ticket/Controls/Intents.antt =====
-- OrderEntry.tsx: what the ticket emits over a whole sequence of actions.
use low_latency_matching_eng.Prelude.{
  ℕ, ◌*◌, ◌≤◌, ◌<◌, ℤ, pos, List, [], ◌∷◌, Option, none, some, none≢some, Bool, true, false, not,
  ◌||◌, All, Text, ◌≡◌, refl, ap, ◌∙◌, if◌then◌else◌,
}
use low_latency_matching_eng.Protocol.Frames.{TimeInForce, gtc, ioc, fok, limit, OrderIntent}
use low_latency_matching_eng.Protocol.Encode.{max_safe}
use low_latency_matching_eng.Format.{trim}
use low_latency_matching_eng.Format.RoundTrip.{parse_price-format_price}
use low_latency_matching_eng.Ticket.{
  valid, validate_qty_input, validate_order_input, price_or_reason, validate_display_qty,
  display_trimmed, display_for, limit_of, submit_limit, TicketState, apply_price, submit,
}
use low_latency_matching_eng.Ticket.Submit.{IsSound, submit-IsSound}
use low_latency_matching_eng.Ticket.Controls.{
  TicketProps, Chip, TicketControl, side_clicked, tif_clicked, ord_type_clicked, chip_clicked,
  nudge_down, nudge_up, price_typed, qty_typed, display_typed, preset_clicked, submit_clicked,
  is_peg, apply_if, shown, handle, chip_price, TicketEvent, acted, set_price, ticket_step,
  ticket_run, emit,
}

handle-IsSound :
    (props : TicketProps) (st : TicketState) (c : TicketControl) (i : OrderIntent)
    → (handle props st c).1 ≡ some i
    → IsSound i
unfolding handle
handle-IsSound props st submit_clicked i e = (submit-IsSound props.disabled st i e).1
handle-IsSound props st (side_clicked s) i e = absurd (none≢some e)
handle-IsSound props st (tif_clicked s) i e = absurd (none≢some e)
handle-IsSound props st (ord_type_clicked s) i e = absurd (none≢some e)
handle-IsSound props st (chip_clicked s) i e = absurd (none≢some e)
handle-IsSound props st nudge_down i e = absurd (none≢some e)
handle-IsSound props st nudge_up i e = absurd (none≢some e)
handle-IsSound props st (price_typed s) i e = absurd (none≢some e)
handle-IsSound props st (qty_typed s) i e = absurd (none≢some e)
handle-IsSound props st (display_typed s) i e = absurd (none≢some e)
handle-IsSound props st (preset_clicked s) i e = absurd (none≢some e)

guarded_some :
    (b : Bool) (st : TicketState) (next : TicketState × Option OrderIntent) (i : OrderIntent)
    → (if b then (st, none) else next).1 ≡ some i
    → next.1 ≡ some i
guarded_some true st next i e = absurd (none≢some e)
guarded_some false st next i e = e

pub step-IsSound :
    (st : TicketState) (e : TicketEvent) (i : OrderIntent)
    → (ticket_step st e).1 ≡ some i
    → IsSound i
unfolding ticket_step
step-IsSound st (acted props c) i e =
    handle-IsSound props st c i
      (guarded_some (props.disabled || not (shown st c)) st (handle props st c) i e)
step-IsSound st (set_price px) i e = absurd (none≢some e)

emit_all :
    (o : Option OrderIntent) (later : List OrderIntent)
    → ((i : OrderIntent) → o ≡ some i → IsSound i)
    → All IsSound later
    → All IsSound (emit o later)
emit_all none later f h = h
emit_all (some i) later f h = (f i refl, h)

-- Whatever is done at the controls, in any order, under any props, and whatever prices the depth curve
-- writes in between: every intent that is emitted is sound, with its positive safe quantity, its
-- positive safe price or the peg sentinel, and its display quantity on a GTC limit order only.
pub ticket_run-IsSound :
    (st : TicketState) (es : List TicketEvent) → All IsSound (ticket_run st es).1
unfolding ticket_run
ticket_run-IsSound st [] = tt
ticket_run-IsSound st (e ∷ rest) =
    emit_all (ticket_step st e).1 (ticket_run (ticket_step st e).0 rest).1 (step-IsSound st e)
      (ticket_run-IsSound (ticket_step st e).0 rest)

no_display_for : (t : TimeInForce) (s : Text) (q : ℕ) → trim s ≡ [] → display_for t s q ≡ valid 0
unfolding display_for validate_display_qty display_trimmed
no_display_for gtc s q h = rw h refl
no_display_for ioc s q h = refl
no_display_for fok s q h = refl

-- The intent of a plain limit order.
abbrev pub plain_limit : TicketState → ℕ → ℕ → OrderIntent
plain_limit st px q = record {
  side = st.side;
  ord_type = limit;
  tif = st.tif;
  price_px = pos px;
  qty = pos q;
  display_qty = pos 0;
}

-- What a ticket is that sends a plain limit order of `q` at any price.
pub record IsReady (st : TicketState) (q : ℕ) : Type 0 where
  pub is_limit : st.ord_type ≡ limit
  pub quantity : validate_qty_input st.qty_input ≡ valid q
  pub no_display : trim st.display_input ≡ []

priced_limit :
    (st : TicketState) (cents q : ℕ)
    → IsReady st q
    → 0 < cents
    → cents * 100 ≤ max_safe
    → limit_of (apply_price st (pos (cents * 100))) ≡ valid (pos (cents * 100), q, 0)
unfolding limit_of validate_order_input price_or_reason apply_price
priced_limit st cents q h p safe =
    rw
      (
        parse_price-format_price cents p safe,
        h.quantity,
        no_display_for st.tif st.display_input q h.no_display,
      )
      refl

priced_submit :
    (st : TicketState) (cents q : ℕ)
    → IsReady st q
    → 0 < cents
    → cents * 100 ≤ max_safe
    → (submit false (apply_price st (pos (cents * 100)))).1 ≡ some (plain_limit st (cents * 100) q)
unfolding submit apply_price submit_limit
priced_submit st cents q h p safe = rw h.is_limit (rw (priced_limit st cents q h p safe) refl)

enabled_step :
    (props : TicketProps) (st : TicketState) (c : TicketControl)
    → props.disabled ≡ false
    → shown st c ≡ true
    → ticket_step st (acted props c) ≡ handle props st c
unfolding ticket_step
enabled_step props st c d k = rw (d, k) refl

chip_step :
    (props : TicketProps) (chip : Chip) (st : TicketState) (px : ℤ)
    → props.disabled ≡ false
    → st.ord_type ≡ limit
    → chip_price props chip ≡ some px
    → ticket_step st (acted props (chip_clicked chip)) ≡ (apply_price st px, none)
unfolding shown handle
chip_step props chip st px d l c =
    enabled_step props st (chip_clicked chip) d (ap (λ t. not (is_peg t)) l) ∙ pair c
  where
    pair :
        {o p : Option ℤ}
        → o ≡ p
        → ◌≡◌ {A = TicketState × Option OrderIntent} (apply_if o st, none) (apply_if p st, none)
    pair e = ap (λ o. (apply_if o st, none)) e

set_price_step :
    (st : TicketState) (px : ℤ) → ticket_step st (set_price px) ≡ (apply_price st px, none)
unfolding ticket_step
set_price_step st px = refl

submit_emits :
    (props : TicketProps) (st : TicketState) (i : OrderIntent)
    → props.disabled ≡ false
    → (submit false st).1 ≡ some i
    → (ticket_run st (acted props submit_clicked ∷ [])).1 ≡ i ∷ []
unfolding ticket_run ticket_step shown handle
submit_emits props st i d e = rw d (rw e refl)

-- A click on a chip and then on Submit, or one in the depth curve and then on Submit: if the ticket is
-- a limit order with a valid quantity and no display quantity, and the chip's or the curve's price is
-- positive, on the tick and safe, then exactly one intent goes out, a plain limit order at that very
-- price, even if the book, and with it the chip, has changed between the clicks.
pub chip-submit :
    (props later : TicketProps) (chip : Chip) (st : TicketState) (cents q : ℕ)
    → props.disabled ≡ false
    → later.disabled ≡ false
    → IsReady st q
    → chip_price props chip ≡ some (pos (cents * 100))
    → 0 < cents
    → cents * 100 ≤ max_safe
    → ((ticket_run st (acted props (chip_clicked chip) ∷ acted later submit_clicked ∷ [])).1
        ≡ plain_limit st (cents * 100) q ∷ [])
      × ((ticket_run st (set_price (pos (cents * 100)) ∷ acted later submit_clicked ∷ [])).1
          ≡ plain_limit st (cents * 100) q ∷ [])
unfolding ticket_run
chip-submit props later chip st cents q d d' r c p safe =
    let priced = apply_price st (pos (cents * 100)) in
    let sent =
      submit_emits later priced (plain_limit st (cents * 100) q) d'
        (priced_submit st cents q r p safe) in
    (
      rw (chip_step props chip st (pos (cents * 100)) d r.is_limit c) sent,
      rw (set_price_step st (pos (cents * 100))) sent,
    )

-- A click on Submit emits what `submit` does.
pub submit_click :
    (props : TicketProps) (st : TicketState) (i : OrderIntent)
    → (ticket_step st (acted props submit_clicked)).1 ≡ some i
    → (submit props.disabled st).1 ≡ some i
unfolding ticket_step handle
submit_click props st i e =
    guarded_some (props.disabled || not (shown st submit_clicked)) st (submit props.disabled st) i e
