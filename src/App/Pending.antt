-- ===== src/App/Pending.antt =====
-- App.tsx: from a click on the ticket to a row of the blotter.
use low_latency_matching_eng.Prelude.{
  ℕ, suc, ◌≤◌, ◌<◌, ℤ, pos, ◌∷◌, Option, some, Bool, true, false, any, ◌≡◌, refl, sym, ap, subst,
  ◌∙◌, arith,
}
use low_latency_matching_eng.Protocol.Frames.{NewOrderFrame, new, OrderIntent}
use low_latency_matching_eng.Protocol.Encode.{ok, ◌>>=◌, max_safe, next_cl_ord_id}
use low_latency_matching_eng.Protocol.Encode.Ids.{next_lem}
use low_latency_matching_eng.Protocol.Encode.Builders.{IsSendable, sent_price, new_order_frame_iff}
use low_latency_matching_eng.State.Orders.{MyOrder, pending, has_id}
use low_latency_matching_eng.State.Model.{AppState, initial_state, sent}
use low_latency_matching_eng.State.Reducer.{reducer, run, sent_row}
use low_latency_matching_eng.State.Reducer.Connection.{run-snoc}
use low_latency_matching_eng.State.Socket.{Hook, on_send, send_time, shown_state}
use low_latency_matching_eng.Ticket.{TicketState, submit}
use low_latency_matching_eng.Ticket.Submit.{submit-IsSound, sound-IsSendable}
use low_latency_matching_eng.App.{
  App, Outcome, returned, with_id, send_built, build_new, handle_submit,
}

-- The time that `send` stamps.
abbrev pub stamp : ℕ → ℤ
stamp now = pos (send_time now)

-- The row of an intent that has been sent.
abbrev pub pending_row : ℤ → OrderIntent → ℕ → MyOrder
pending_row id i now = record {
  cl_ord_id = id;
  side = i.side;
  price_px = sent_price i.ord_type i.price_px;
  original_qty = i.qty;
  remaining_qty = i.qty;
  status = pending;
  ord_type = i.ord_type;
  tif = i.tif;
  display_qty = i.display_qty;
  sent_at_nanos = some (stamp now);
}

abbrev frame_of : ℤ → OrderIntent → NewOrderFrame
frame_of id i = record {
  cl_ord_id = id;
  side = i.side;
  ord_type = i.ord_type;
  tif = i.tif;
  price = sent_price i.ord_type i.price_px;
  qty = i.qty;
  max_floor = i.display_qty;
}

sent_rows-new :
    (s : AppState) (f : NewOrderFrame) (t : Option ℤ)
    → any (has_id f.cl_ord_id) s.my_orders ≡ false
    → (reducer s (sent (new f) t)).my_orders ≡ sent_row f t ∷ s.my_orders
unfolding reducer
sent_rows-new s f t h = ground arith

-- A frame that is written to a live socket becomes a row.
send-row :
    (h : Hook) (ws : ℕ) (f : NewOrderFrame) (now : ℕ)
    → h.socket_ref ≡ some ws
    → any (has_id f.cl_ord_id) (shown_state h).my_orders ≡ false
    → ((on_send h (new f) true now).1 ≡ true)
      × ((shown_state (on_send h (new f) true now).0).my_orders
          ≡ sent_row f (some (stamp now)) ∷ (shown_state h).my_orders)
unfolding on_send shown_state
send-row h ws f now live absent = rw live (
  refl,
  ap (λ s. s.my_orders) (run-snoc initial_state h.dispatched (sent (new f) (some (stamp now))))
      ∙ sent_rows-new (run initial_state h.dispatched) f (some (stamp now)) absent,
)

-- What a sendable intent becomes: the frame with the next id, and the generator one further.
handle_submit_sendable :
    (app : App) (i : OrderIntent) (n now : ℕ)
    → app.gen.next ≡ pos n
    → n ≤ max_safe
    → IsSendable (pos n) i
    → handle_submit app i true now
      ≡ send_built
          (record app { gen = record { next = pos (suc n) } })
          (ok (new (frame_of (pos n) i)))
          true
          now
unfolding handle_submit with_id
handle_submit_sendable app i n now at safe sendable =
    ap (λ drawn. with_id app drawn (build_new i) true now)
      (ap (λ k. next_cl_ord_id (record { next = k })) at ∙ next_lem n safe)
    ∙ ap
        (λ built.
          send_built (record app { gen = record { next = pos (suc n) } })
            (built >>= λ f. ok (new f)) true now)
        ((new_order_frame_iff (pos n) i (frame_of (pos n) i)).1 (sendable, refl))

-- The page after a click: `send` has answered true, the row of the intent is in front of the rows, and
-- the id is spent.
pub record IsPending (before : App) (i : OrderIntent) (n now : ℕ) (result : App × Outcome)
    : Type 0 where
  pub answered : result.1 ≡ returned true
  pub row_added :
      (shown_state result.0.hook).my_orders
      ≡ pending_row (pos n) i now ∷ (shown_state before.hook).my_orders
  pub id_spent : result.0.gen.next ≡ pos (suc n)

-- An intent that the order ticket emits, on a page whose socket is open and whose next id is a positive
-- safe integer that no row carries: `handleSubmit` sends it under that id, throws nothing, and puts
-- its row in front of the blotter, PENDING, with the whole quantity left and the time of the send.
pub handle_submit-IsPending :
    (app : App) (disabled : Bool) (st : TicketState) (i : OrderIntent) (n ws now : ℕ)
    → (submit disabled st).1 ≡ some i
    → app.gen.next ≡ pos n
    → 0 < n
    → n ≤ max_safe
    → app.hook.socket_ref ≡ some ws
    → any (has_id (pos n)) (shown_state app.hook).my_orders ≡ false
    → IsPending app i n now (handle_submit app i true now)
unfolding send_built
handle_submit-IsPending app disabled st i n ws now emitted at p safe live absent =
    let sendable =
      sound-IsSendable (pos n) i (omega arith, omega arith)
        (submit-IsSound disabled st i emitted).1 in
    let (answer, row) = send-row app.hook ws (frame_of (pos n) i) now live absent in
    subst (IsPending app i n now) (sym (handle_submit_sendable app i n now at safe sendable))
      (record { answered = ap returned answer; row_added = row; id_spent = refl })
