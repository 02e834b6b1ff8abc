-- ===== src/State/Socket/Rows.antt =====
-- useOrderBook.ts: which events can add an id to the blotter.
use low_latency_matching_eng.Prelude.{
  ℕ, ◌==◌, ℤ, pos, eqb_ℤ, List, [], ◌∷◌, ◌++◌, Option, none, some, Bool, true, false, String, any,
  ◌≡◌, refl, ap, ◌∙◌, Bool-cases, inl, inr, if◌then◌else◌, arith,
}
use low_latency_matching_eng.Protocol.Value.{Value}
use low_latency_matching_eng.Protocol.Narrow.{parse_server_frame}
use low_latency_matching_eng.Protocol.Frames.{
  ServerFrame, ClientFrame, new, cancel, book, exec, fix,
}
use low_latency_matching_eng.State.Orders.{has_id}
use low_latency_matching_eng.State.Model.{
  AppState, initial_state, Action, connection, frame, sent, connecting, open_, reconnecting,
}
use low_latency_matching_eng.State.Reducer.{reducer, run, agg_index, passive_index}
use low_latency_matching_eng.State.Reducer.History.{is_sent}
use low_latency_matching_eng.State.Reducer.Rows.{apply_rows-next_rows}
use low_latency_matching_eng.State.Reducer.Blotter.{next_rows-any}
use low_latency_matching_eng.State.Reducer.Connection.{run-snoc}
use low_latency_matching_eng.State.Socket.{
  send_time, Hook, on_open, on_message, on_close, on_timer, clean_up, connect, dispatch_frame,
  send_on, on_send, step, shown_state, is_current, MessageData, text, binary, Event, opened, closed,
  message, timer_fired, send, unmount,
}

abbrev pub has_row : ℤ → Hook → Bool
has_row k h = any (has_id k) (shown_state h).my_orders

-- Only a sent order adds an id.
reducer_ids :
    (s : AppState) (a : Action) (k : ℤ)
    → is_sent a ≡ false
    → any (has_id k) (reducer s a).my_orders ≡ any (has_id k) s.my_orders
unfolding reducer
reducer_ids s (frame (book f)) k h = refl
reducer_ids s (frame (exec f)) k h =
    ap (any (has_id k)) (apply_rows-next_rows s.my_orders f)
    ∙ next_rows-any (agg_index s.my_orders f) (passive_index s.my_orders f) f 0 k s.my_orders
reducer_ids s (frame (fix f)) k h = refl
reducer_ids s (connection c) k h = ground arith
reducer_ids s (sent f t) k h = cc

pub dispatch_ids :
    (acts : List Action) (a : Action) (k : ℤ)
    → is_sent a ≡ false
    → any (has_id k) (run initial_state (acts ++ a ∷ [])).my_orders
      ≡ any (has_id k) (run initial_state acts).my_orders
dispatch_ids acts a k h =
    ap (λ s. any (has_id k) s.my_orders) (run-snoc initial_state acts a)
    ∙ reducer_ids (run initial_state acts) a k h

open_ids : (h : Hook) (k : ℤ) → has_row k (on_open h) ≡ has_row k h
unfolding on_open shown_state
open_ids h k = elim (Bool-cases h.disposed) [
  | inl e ↦ simp e refl
  | inr e ↦ simp e (dispatch_ids h.dispatched (connection open_) k refl)
]

close_ids : (h : Hook) (ws : ℕ) (k : ℤ) → has_row k (on_close h ws) ≡ has_row k h
unfolding on_close shown_state
close_ids h ws k = elim (Bool-cases h.disposed) [
  | inl e ↦ simp e refl
  | inr e ↦ simp e (dispatch_ids h.dispatched (connection reconnecting) k refl)
]

frame_ids :
    (h : Hook) (o : Option ServerFrame) (k : ℤ) → has_row k (dispatch_frame h o) ≡ has_row k h
unfolding dispatch_frame shown_state
frame_ids h none k = refl
frame_ids h (some f) k = dispatch_ids h.dispatched (frame f) k refl

message_ids :
    (json_parse : String → Option Value) (h : Hook) (m : MessageData) (k : ℤ)
    → has_row k (on_message json_parse h m) ≡ has_row k h
unfolding on_message
message_ids json_parse h binary k = refl
message_ids json_parse h (text raw) k = elim (Bool-cases h.disposed) [
  | inl e ↦ simp e refl
  | inr e ↦ simp e (frame_ids h (parse_server_frame json_parse raw) k)
]

connect_ids : (h : Hook) (k : ℤ) → has_row k (connect h) ≡ has_row k h
unfolding connect shown_state
connect_ids h k = elim (Bool-cases h.disposed) [
  | inl e ↦ simp e refl
  | inr e ↦ simp e (
      dispatch_ids h.dispatched (connection (if h.attempt == 0 then connecting else reconnecting)) k
        refl)
]

timer_ids : (h : Hook) (t : Option ℕ) (k : ℤ) → has_row k (on_timer t h) ≡ has_row k h
unfolding on_timer shown_state
timer_ids h none k = refl
timer_ids h (some ms) k = connect_ids (record h { timer = none }) k

-- The events of the browser, which are all but a send.
abbrev pub IsDelivery : Event → Type 0
IsDelivery (send f ready now) = ⊥
IsDelivery _ = Unit

-- No event of the browser adds an id to the blotter, or takes one away.
pub step_ids :
    (json_parse : String → Option Value) (h : Hook) (e : Event) (k : ℤ)
    → IsDelivery e
    → has_row k (step json_parse h e) ≡ has_row k h
unfolding step clean_up shown_state
step_ids json_parse h (opened ws) k d = elim (Bool-cases (is_current h.attached ws)) [
  | inl e ↦ rw e (open_ids h k)
  | inr e ↦ rw e refl
]
step_ids json_parse h (closed ws) k d = elim (Bool-cases (is_current h.attached ws)) [
  | inl e ↦ rw e (close_ids h ws k)
  | inr e ↦ rw e refl
]
step_ids json_parse h (message ws m) k d = elim (Bool-cases (is_current h.attached ws)) [
  | inl e ↦ rw e (message_ids json_parse h m k)
  | inr e ↦ rw e refl
]
step_ids json_parse h timer_fired k d = timer_ids h h.timer k
step_ids json_parse h (send f ready now) k d = absurd d
step_ids json_parse h unmount k d = refl

-- A frame that brings the id.
abbrev pub adds : ℤ → ClientFrame → Bool
adds k (new f) = eqb_ℤ f.cl_ord_id k
adds k (cancel f) = false

sent_ids :
    (s : AppState) (f : ClientFrame) (t : Option ℤ) (k : ℤ)
    → adds k f ≡ false
    → any (has_id k) s.my_orders ≡ false
    → any (has_id k) (reducer s (sent f t)).my_orders ≡ false
unfolding reducer
sent_ids s (new f) t k h absent = ground arith
sent_ids s (cancel f) t k h absent = absent

ref_ids :
    (ref : Option ℕ) (h : Hook) (f : ClientFrame) (ready : Bool) (now : ℕ) (k : ℤ)
    → adds k f ≡ false
    → has_row k h ≡ false
    → has_row k (send_on ref h f ready now).0 ≡ false
unfolding send_on shown_state
ref_ids none h f ready now k a absent = absent
ref_ids (some ws) h f false now k a absent = absent
ref_ids (some ws) h f true now k a absent =
    let stamped = sent f (some (pos (send_time now))) in
    ap (λ s. any (has_id k) s.my_orders) (run-snoc initial_state h.dispatched stamped)
    ∙ sent_ids (run initial_state h.dispatched) f (some (pos (send_time now))) k a absent

-- A send adds no id but that of its frame.
pub on_send_ids :
    (h : Hook) (f : ClientFrame) (ready : Bool) (now : ℕ) (k : ℤ)
    → adds k f ≡ false
    → has_row k h ≡ false
    → has_row k (on_send h f ready now).0 ≡ false
unfolding on_send
on_send_ids h f ready now k a absent = ref_ids h.socket_ref h f ready now k a absent
