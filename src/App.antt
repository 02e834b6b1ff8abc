-- ===== src/App.antt =====
-- app/frontend/src/App.tsx: the two callbacks that join the tickets, the id source, the frame builders and
-- the socket.
mod Tests
mod Checks
pub mod Pending
pub mod Fresh
pub mod Rendered
pub mod Terminal
use low_latency_matching_eng.Prelude.{ℕ, ℤ, List, [], ◌∷◌, Option, String, Bool}
use low_latency_matching_eng.Protocol.Value.{Value}
use low_latency_matching_eng.Protocol.Frames.{
  NewOrderFrame, CancelOrderFrame, ClientFrame, new, cancel, OrderIntent,
}
use low_latency_matching_eng.Protocol.Encode.{
  Checked, ok, range_error, ◌>>=◌, ClOrdIdGenerator, next_cl_ord_id, new_order_frame,
  cancel_order_frame,
}
use low_latency_matching_eng.State.Socket.{Hook, Event, on_send, step}

-- The hook and the one id source of the page.
pub record App : Type 0 where
  pub hook : Hook
  pub gen : ClOrdIdGenerator

-- A callback returns, with the answer of `send`, or the RangeError of a builder passes through it.
pub data Outcome : Type 0 where
  returned : Bool → Outcome
  thrown : String → Outcome

abbrev after_send : App → Hook × Bool → App × Outcome
after_send app (hook, written) = (record app { hook = hook }, returned written)

send_built : App → Checked ClientFrame → Bool → ℕ → App × Outcome
send_built app (range_error label) ready now = (app, thrown label)
send_built app (ok f) ready now = after_send app (on_send app.hook f ready now)

-- The id is drawn before the frame is built, and is spent even if the builder throws.
with_id :
    App → Checked (ℤ × ClOrdIdGenerator) → (ℤ → Checked ClientFrame) → Bool → ℕ → App × Outcome
unfolding send_built
with_id app (range_error label) build ready now = (app, thrown label)
with_id app (ok (id, gen)) build ready now =
    send_built (record app { gen = gen }) (build id) ready now

abbrev build_new : OrderIntent → ℤ → Checked ClientFrame
build_new intent id = do f ← new_order_frame id intent; ok (new f)

abbrev build_cancel : ℤ → ℤ → Checked ClientFrame
build_cancel orig_cl_ord_id id = do f ← cancel_order_frame id orig_cl_ord_id; ok (cancel f)

-- The last two arguments are what `send` reads: whether the socket is open, and the clock.
unfoldable pub handle_submit : App → OrderIntent → Bool → ℕ → App × Outcome
unfolding with_id
handle_submit app intent ready now =
    with_id app (next_cl_ord_id app.gen) (build_new intent) ready now

unfoldable pub handle_cancel : App → ℤ → Bool → ℕ → App × Outcome
unfolding with_id
handle_cancel app orig_cl_ord_id ready now =
    with_id app (next_cl_ord_id app.gen) (build_cancel orig_cl_ord_id) ready now

-- What happens to the page: an event that the browser delivers to the hook, or a callback of a ticket.
pub data PageEvent : Type 0 where
  delivered : Event → PageEvent
  submitted : OrderIntent → Bool → ℕ → PageEvent
  cancelled : ℤ → Bool → ℕ → PageEvent

module _ (json_parse : String → Option Value) where
  unfoldable pub page_step : App → PageEvent → App
  page_step app (delivered e) = record app { hook = step json_parse app.hook e }
  page_step app (submitted i ready now) = (handle_submit app i ready now).0
  page_step app (cancelled orig ready now) = (handle_cancel app orig ready now).0

  unfoldable pub page_run : App → List PageEvent → App
  page_run app [] = app
  page_run app (e ∷ rest) = page_run (page_step app e) rest
