-- ===== src/Ticket/Submit.antt =====
-- OrderEntry.tsx, `submit`: what leaves the ticket.
use low_latency_matching_eng.Prelude.{
  ℕ, ℤ, pos, Option, none, some, Bool, true, false, ◌≡◌, ◌≢◌, ◌⊎◌, inl, inr, refl, sym, ap, subst,
  subst₂, some-inj, none≢some, ◌∙◌, Text, arith,
}
use low_latency_matching_eng.Protocol.Encode.{ok, new_order_frame}
use low_latency_matching_eng.Protocol.Encode.Builders.{
  IsPositiveSafe, IsSendable, new_order_frame_iff,
}
use low_latency_matching_eng.Protocol.Frames.{
  TimeInForce, gtc, ioc, fok, OrdType, limit, peg_mid, NewOrderFrame, OrderIntent, na,
}
use low_latency_matching_eng.Format.{parse_price}
use low_latency_matching_eng.Format.Parse.{parse_price_iff}
use low_latency_matching_eng.Ticket.{
  Reason, Validated, valid, invalid, ◌>>=◌, validate_qty_input, price_or_reason,
  validate_order_input, display_for, TicketState, submit_peg, limit_of, submit_limit, submit_as,
  submit, failed,
}
use low_latency_matching_eng.Ticket.Inputs.{
  IsDisplay, validate_whole_iff, validate_display_qty_sound,
}

-- What an emitted intent is: priced unless a peg, with a positive quantity, and with a
-- display quantity only for a resting limit order, less than its quantity.
pub record IsSound (i : OrderIntent) : Type 0 where
  pub qty_ok : IsPositiveSafe i.qty
  pub priced : ((i.ord_type ≡ peg_mid) × (i.price_px ≡ na)) ⊎ IsPositiveSafe i.price_px
  pub display : (d : ℕ) × (q : ℕ) × (i.display_qty ≡ pos d) × (i.qty ≡ pos q) × IsDisplay q d
  pub iceberg_only : i.display_qty ≢ pos 0 → (i.ord_type ≡ limit) × (i.tif ≡ gtc)

-- A chain that ends valid has passed its first step, with some value.
passed {ℓ κ μ} :
    {A : Type ℓ} {B : Type κ} {G : Type μ} (m : Validated A) (k : A → Validated B) {b : B}
    → (m >>= k) ≡ valid b
    → ((a : A) → m ≡ valid a → k a ≡ valid b → G)
    → G
passed (valid a) k h next = next a refl h
passed (invalid r) k h next = cc

valid-inj {ℓ} : {A : Type ℓ} {a b : A} → valid a ≡ valid b → a ≡ b
valid-inj h = cc

-- What the limit path has checked.
record LimitChecked (st : TicketState) (price : ℤ) (qty d : ℕ) : Type 0 where
  price_ok : IsPositiveSafe price
  qty_ok : IsPositiveSafe (pos qty)
  display_ok : IsDisplay qty d
  gtc_only : d ≢ 0 → st.tif ≡ gtc

price_sound : (o : Option ℤ) (px : ℤ) → price_or_reason o ≡ valid px → o ≡ some px
unfolding price_or_reason
price_sound none px h = cc
price_sound (some q) px h = cc

parsed_ok : (s : Text) (px : ℤ) → parse_price s ≡ some px → IsPositiveSafe px
parsed_ok s px h =
    let (cents, sp, e) = (parse_price_iff s px).0 h in
    let p = sp.positive in
    let q = sp.safe in subst IsPositiveSafe (sym e) (omega arith, omega arith)

whole_ok : (s : Text) (n : ℕ) → validate_qty_input s ≡ valid n → IsPositiveSafe (pos n)
whole_ok s n h =
    let w = (validate_whole_iff s n).0.0 h in
    let p = w.positive in let q = w.safe in (omega arith, omega arith)

display_for_sound :
    (t : TimeInForce) (s : Text) (qty d : ℕ)
    → display_for t s qty ≡ valid d
    → IsDisplay qty d × (d ≢ 0 → t ≡ gtc)
unfolding display_for
display_for_sound gtc s qty d h = (validate_display_qty_sound s qty d h, λ n. refl)
display_for_sound ioc s qty d h = (inl (sym (valid-inj h)), λ n. absurd (n (sym (valid-inj h))))
display_for_sound fok s qty d h = (inl (sym (valid-inj h)), λ n. absurd (n (sym (valid-inj h))))

limit_of_sound :
    (st : TicketState) (price : ℤ) (qty d : ℕ)
    → limit_of st ≡ valid (price, qty, d)
    → LimitChecked st price qty d
unfolding limit_of validate_order_input
limit_of_sound st price qty d h =
    passed (validate_order_input st.price_input st.qty_input) _ h λ order h1 rest.
      passed (display_for st.tif st.display_input order.1) _ rest λ shown h2 done.
        passed (price_or_reason (parse_price st.price_input)) _ h1 λ px h3 rest3.
          passed (validate_qty_input st.qty_input) _ rest3 λ q h4 done4.
            let eo = valid-inj done4 in
            let e = valid-inj done in
            let e_display = ap (λ (t : ℤ × ℕ × ℕ). t.2) e in
            let (display_fits, only_gtc) =
              display_for_sound st.tif st.display_input order.1 shown h2 in
            record {
              price_ok =
                  subst IsPositiveSafe (ap (λ (t : ℤ × ℕ). t.0) eo ∙ ap (λ (t : ℤ × ℕ × ℕ). t.0) e)
                    (parsed_ok st.price_input px (price_sound (parse_price st.price_input) px h3));
              qty_ok =
                  subst (λ k. IsPositiveSafe (pos k))
                    (ap (λ (t : ℤ × ℕ). t.1) eo ∙ ap (λ (t : ℤ × ℕ × ℕ). t.1) e)
                    (whole_ok st.qty_input q h4);
              display_ok = subst₂ IsDisplay (ap (λ (t : ℤ × ℕ × ℕ). t.1) e) e_display display_fits;
              gtc_only = λ n. only_gtc (λ z. n (sym e_display ∙ z));
            }

submit_limit-IsSound :
    (st : TicketState) (v : Validated (ℤ × ℕ × ℕ)) (i : OrderIntent)
    → limit_of st ≡ v
    → (submit_limit st v).1 ≡ some i
    → IsSound i
unfolding submit_limit
submit_limit-IsSound st (invalid r) i h e = absurd (none≢some e)
submit_limit-IsSound st (valid (price, qty, d)) i h e =
    let c = limit_of_sound st price qty d h in
    subst IsSound (some-inj e) (record {
      qty_ok = c.qty_ok;
      priced = inr c.price_ok;
      display = (d, qty, refl, refl, c.display_ok);
      iceberg_only = λ n. (refl, c.gtc_only (λ z. n (ap pos z)));
    })

submit_peg-IsSound :
    (st : TicketState) (v : Validated ℕ) (i : OrderIntent)
    → validate_qty_input st.qty_input ≡ v
    → (submit_peg st v).1 ≡ some i
    → IsSound i
unfolding submit_peg
submit_peg-IsSound st (invalid r) i h e = absurd (none≢some e)
submit_peg-IsSound st (valid qty) i h e = subst IsSound (some-inj e) (record {
  qty_ok = whole_ok st.qty_input qty h;
  priced = inl (refl, refl);
  display = (0, qty, refl, refl, inl refl);
  iceberg_only = λ n. absurd (n refl);
})

submit_as-IsSound :
    (t : OrdType) (st : TicketState) (i : OrderIntent) → (submit_as t st).1 ≡ some i → IsSound i
submit_as-IsSound limit st i e = submit_limit-IsSound st (limit_of st) i refl e
submit_as-IsSound peg_mid st i e = submit_peg-IsSound st (validate_qty_input st.qty_input) i refl e

-- Whatever the ticket emits is sound: a positive quantity; a positive price unless it is
-- a peg, which carries the NA price; a display quantity other than 0 only on a GTC limit order, and
-- then less than the quantity. A disabled ticket emits nothing.
pub submit-IsSound :
    (disabled : Bool) (st : TicketState) (i : OrderIntent)
    → (submit disabled st).1 ≡ some i
    → (disabled ≡ false) × IsSound i
unfolding submit
submit-IsSound true st i e = absurd (none≢some e)
submit-IsSound false st i e = (refl, submit_as-IsSound st.ord_type st i e)

pub sound-IsSendable : (id : ℤ) (i : OrderIntent) → IsPositiveSafe id → IsSound i → IsSendable id i
sound-IsSendable id i p s = (p, peg_or_priced s.priced, s.qty_ok)
  where
    peg_or_priced :
        ((i.ord_type ≡ peg_mid) × (i.price_px ≡ na)) ⊎ IsPositiveSafe i.price_px
        → (i.ord_type ≡ peg_mid) ⊎ IsPositiveSafe i.price_px
    peg_or_priced (inl (a, b)) = inl a
    peg_or_priced (inr b) = inr b

-- The frame builder never throws on an order from the ticket: with any positive safe id it builds a
-- frame with that id and the quantity of the intent.
submit-new_order_frame :
    (disabled : Bool) (st : TicketState) (i : OrderIntent) (id : ℤ)
    → (submit disabled st).1 ≡ some i
    → IsPositiveSafe id
    → (f : NewOrderFrame) × (new_order_frame id i ≡ ok f) × (f.cl_ord_id ≡ id) × (f.qty ≡ i.qty)
submit-new_order_frame disabled st i id e p =
    let sendable = sound-IsSendable id i p (submit-IsSound disabled st i e).1 in
    (_, (new_order_frame_iff id i _).1 (sendable, refl), refl, refl)

abbrev pub HasError : TicketState → Type 0
HasError st = (r : Reason) × (st.error ≡ some r)

-- What a refused click leaves: the typed inputs and the choices, and a reason.
pub record IsRefused (before after : TicketState) : Type 0 where
  pub side_kept : after.side ≡ before.side
  pub tif_kept : after.tif ≡ before.tif
  pub ord_type_kept : after.ord_type ≡ before.ord_type
  pub price_kept : after.price_input ≡ before.price_input
  pub qty_kept : after.qty_input ≡ before.qty_input
  pub display_kept : after.display_input ≡ before.display_input
  pub shown : HasError after

failed-IsRefused : (st : TicketState) (r : Reason) → IsRefused st (failed st r).0
failed-IsRefused st r = record {
  side_kept = refl;
  tif_kept = refl;
  ord_type_kept = refl;
  price_kept = refl;
  qty_kept = refl;
  display_kept = refl;
  shown = (r, refl);
}

limit-IsRefused :
    (st : TicketState) (v : Validated (ℤ × ℕ × ℕ))
    → (submit_limit st v).1 ≡ none
    → IsRefused st (submit_limit st v).0
unfolding submit_limit
limit-IsRefused st (invalid r) e = failed-IsRefused st r
limit-IsRefused st (valid x) e = absurd (none≢some (sym e))

peg-IsRefused :
    (st : TicketState) (v : Validated ℕ)
    → (submit_peg st v).1 ≡ none
    → IsRefused st (submit_peg st v).0
unfolding submit_peg
peg-IsRefused st (invalid r) e = failed-IsRefused st r
peg-IsRefused st (valid x) e = absurd (none≢some (sym e))

submit_as-IsRefused :
    (t : OrdType) (st : TicketState) → (submit_as t st).1 ≡ none → IsRefused st (submit_as t st).0
submit_as-IsRefused limit st e = limit-IsRefused st (limit_of st) e
submit_as-IsRefused peg_mid st e = peg-IsRefused st (validate_qty_input st.qty_input) e

-- An enabled ticket that emits nothing keeps all that was typed and chosen, and shows a reason.
pub submit-IsRefused :
    (st : TicketState) → (submit false st).1 ≡ none → IsRefused st (submit false st).0
unfolding submit
submit-IsRefused st e = submit_as-IsRefused st.ord_type st e
