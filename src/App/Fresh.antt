-- ===== src/App/Fresh.antt =====
-- App.tsx: the ids of a page over all its events.
use low_latency_matching_eng.Prelude.{
  ℕ, ◌≤◌, ◌<◌, ℤ, pos, ◌+ℤ◌, +ℤ_parts, ◌≤ℤ◌, ◌<ℤ◌, List, [], ◌∷◌, Option, some, Bool, true, false,
  String, All, ◌≡◌, refl, sym, ap, subst, ◌∙◌, arith,
}
use low_latency_matching_eng.Protocol.Value.{Value}
use low_latency_matching_eng.Protocol.Frames.{
  NewOrderFrame, CancelOrderFrame, ClientFrame, new, cancel, OrderIntent,
}
use low_latency_matching_eng.Protocol.Encode.{
  Checked, ok, range_error, ◌>>=◌, max_safe, ClOrdIdGenerator, next_cl_ord_id, new_order_frame,
  cancel_order_frame,
}
use low_latency_matching_eng.Protocol.Encode.Builders.{new_order_frame_iff}
use low_latency_matching_eng.State.Socket.{mount, shown_state}
use low_latency_matching_eng.State.Socket.Rows.{has_row, IsDelivery, step_ids, adds, on_send_ids}
use low_latency_matching_eng.State.Reducer.{reducer, run}
use low_latency_matching_eng.Ticket.{TicketState, submit}
use low_latency_matching_eng.App.Pending.{IsPending, handle_submit-IsPending}
use low_latency_matching_eng.App.{
  App, with_id, send_built, build_new, build_cancel, handle_submit, handle_cancel, PageEvent,
  delivered, submitted, cancelled, page_step, page_run,
}

-- No row carries the next id, or a later one.
abbrev pub IsFresh : App → Type 0
IsFresh app = (k : ℤ) → app.gen.next ≤ℤ k → has_row k app.hook ≡ false

-- What a call of the generator yields, where it does not throw.
IsDraw : ClOrdIdGenerator → Checked (ℤ × ClOrdIdGenerator) → Type 0
IsDraw gen (range_error label) = Unit
IsDraw gen (ok (id, gen')) = (id ≡ gen.next) × (gen'.next ≡ gen.next +ℤ pos 1)

next-IsDraw : (gen : ClOrdIdGenerator) → IsDraw gen (next_cl_ord_id gen)
unfolding next_cl_ord_id IsDraw
next-IsDraw gen = ground arith

-- The frames of a builder carry the id that it is given, and no other.
IsNumbered : (ℤ → Checked ClientFrame) → Type 0
IsNumbered build = (id k : ℤ) (f : ClientFrame) → build id ≡ ok f → id <ℤ k → adds k f ≡ false

pub ok-inj {ℓ} : {A : Type ℓ} {a b : A} → ok a ≡ ok b → a ≡ b
ok-inj h = cc

pub new_numbered :
    (i : OrderIntent) (id k : ℤ) (m : Checked NewOrderFrame) (f : ClientFrame)
    → new_order_frame id i ≡ m
    → (m >>= λ g. ok (new g)) ≡ ok f
    → id <ℤ k
    → adds k f ≡ false
new_numbered i id k (range_error label) f e h p = cc
new_numbered i id k (ok g) f e h p =
    let same_id = ap (λ (x : NewOrderFrame). x.cl_ord_id) ((new_order_frame_iff id i g).0 e).1 in
    subst (λ x. adds k x ≡ false) (ok-inj h) (ground (arith, same_id))

pub cancel_numbered :
    (m : Checked CancelOrderFrame) (k : ℤ) (f : ClientFrame)
    → (m >>= λ g. ok (cancel g)) ≡ ok f
    → adds k f ≡ false
cancel_numbered (range_error label) k f h = cc
cancel_numbered (ok g) k f h = subst (λ x. adds k x ≡ false) (ok-inj h) refl

later : (a k : ℤ) → a +ℤ pos 1 ≤ℤ k → (a ≤ℤ k) × (a <ℤ k)
later a k h = (omega (arith, +ℤ_parts a (pos 1)), omega (arith, +ℤ_parts a (pos 1)))

built-IsFresh :
    (app : App) (m : Checked ClientFrame) (ready : Bool) (now : ℕ)
    → IsFresh app
    → ((k : ℤ) (f : ClientFrame) → m ≡ ok f → app.gen.next ≤ℤ k → adds k f ≡ false)
    → IsFresh (send_built app m ready now).0
unfolding send_built
built-IsFresh app (range_error label) ready now fresh numbered = fresh
built-IsFresh app (ok f) ready now fresh numbered =
    λ k p. on_send_ids app.hook f ready now k (numbered k f refl p) (fresh k p)

with_id-IsFresh :
    (app : App) (drawn : Checked (ℤ × ClOrdIdGenerator)) (build : ℤ → Checked ClientFrame)
    (ready : Bool) (now : ℕ)
    → IsFresh app
    → IsDraw app.gen drawn
    → IsNumbered build
    → IsFresh (with_id app drawn build ready now).0
unfolding with_id IsDraw IsNumbered
with_id-IsFresh app (range_error label) build ready now fresh d numbered = fresh
with_id-IsFresh app (ok (id, gen)) build ready now fresh (is_next, one_up) numbered =
    let past = λ (k : ℤ) (p : gen.next ≤ℤ k). later app.gen.next k (subst (λ n. n ≤ℤ k) one_up p) in
    built-IsFresh (record app { gen = gen }) (build id) ready now (λ k p. fresh k (past k p).0)
      (λ k f e p. numbered id k f e (subst (λ n. n <ℤ k) (sym is_next) (past k p).1))

-- What happens to a page: deliveries by the browser, and the callbacks. The hook's `send` is called by
-- the callbacks only.
abbrev pub IsPageEvent : PageEvent → Type 0
IsPageEvent (delivered e) = IsDelivery e
IsPageEvent _ = Unit

page_step-IsFresh :
    (json_parse : String → Option Value) (app : App) (e : PageEvent)
    → IsPageEvent e
    → IsFresh app
    → IsFresh (page_step json_parse app e)
unfolding page_step handle_submit handle_cancel IsNumbered
page_step-IsFresh json_parse app (delivered e) d fresh =
    λ k p. step_ids json_parse app.hook e k d ∙ fresh k p
page_step-IsFresh json_parse app (submitted i ready now) d fresh =
    with_id-IsFresh app (next_cl_ord_id app.gen) (build_new i) ready now fresh (next-IsDraw app.gen)
      (λ id k f h p. new_numbered i id k (new_order_frame id i) f refl h p)
page_step-IsFresh json_parse app (cancelled orig ready now) d fresh =
    with_id-IsFresh app (next_cl_ord_id app.gen) (build_cancel orig) ready now fresh
      (next-IsDraw app.gen) (λ id k f h p. cancel_numbered (cancel_order_frame id orig) k f h)

page_run-IsFresh :
    (json_parse : String → Option Value) (app : App) (events : List PageEvent)
    → All IsPageEvent events
    → IsFresh app
    → IsFresh (page_run json_parse app events)
unfolding page_run
page_run-IsFresh json_parse app [] h fresh = fresh
page_run-IsFresh json_parse app (e ∷ rest) (d, h) fresh =
    page_run-IsFresh json_parse (page_step json_parse app e) rest h
      (page_step-IsFresh json_parse app e d fresh)

-- A page that has just been mounted, whose id source starts at the seed.
abbrev pub mounted : ℕ → App
mounted seed = record { hook = mount; gen = record { next = pos seed } }

mounted-IsFresh : (seed : ℕ) → IsFresh (mounted seed)
unfolding mount shown_state run reducer
mounted-IsFresh seed = λ k p. refl

-- After any events of a page, connections lost and orders sent before included: if the order ticket
-- emits an intent while the socket is open and the next id is a positive safe integer, then
-- `handleSubmit` sends it under that id, throws nothing, spends the id, and puts the row of the
-- intent in front of the blotter, PENDING, with the whole quantity left and the time of the send.
pub page_submit-IsPending :
    (json_parse : String → Option Value) (seed : ℕ) (events : List PageEvent) (disabled : Bool)
    (st : TicketState) (i : OrderIntent) (n ws now : ℕ)
    → All IsPageEvent events
    → (submit disabled st).1 ≡ some i
    → (page_run json_parse (mounted seed) events).gen.next ≡ pos n
    → 0 < n
    → n ≤ max_safe
    → (page_run json_parse (mounted seed) events).hook.socket_ref ≡ some ws
    → IsPending
        (page_run json_parse (mounted seed) events)
        i
        n
        now
        (handle_submit (page_run json_parse (mounted seed) events) i true now)
page_submit-IsPending json_parse seed events disabled st i n ws now h emitted at p safe live =
    let app = page_run json_parse (mounted seed) events in
    handle_submit-IsPending app disabled st i n ws now emitted at p safe live (
      page_run-IsFresh json_parse (mounted seed) events h (mounted-IsFresh seed) (pos n)
        (subst (λ a. a ≤ℤ pos n) (sym at) (omega arith)))
