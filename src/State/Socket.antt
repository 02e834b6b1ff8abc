-- ===== src/State/Socket.antt =====
-- app/frontend/src/state/useOrderBook.ts: the socket lifecycle, as a step function on the events that
-- the browser delivers to one mount of the hook. Sockets carry numbers in the order of their
-- creation; a handler that `detach` has taken off is not called. The reducer is given the dispatches
-- in order.
pub mod Lifecycle
pub mod Status
pub mod Rows
pub mod Reopens
use low_latency_matching_eng.Prelude.{
  ℕ, zero, suc, ◌+◌, ◌*◌, ◌^◌, ◌==◌, min, ℤ, pos, List, [], ◌∷◌, ◌++◌, Option, none, some, Bool,
  true, false, not, String, ◌&&◌, if◌then◌else◌,
}
use low_latency_matching_eng.Double.{to_double}
use low_latency_matching_eng.Protocol.Value.{Value}
use low_latency_matching_eng.Protocol.Narrow.{parse_server_frame}
use low_latency_matching_eng.Protocol.Frames.{ServerFrame, ClientFrame}
use low_latency_matching_eng.State.Model.{
  ConnectionStatus, connecting, open_, reconnecting, AppState, initial_state, Action, connection,
  frame, sent,
}
use low_latency_matching_eng.State.Reducer.{run}

abbrev pub base_backoff_ms : ℕ
base_backoff_ms = 250

abbrev pub max_backoff_ms : ℕ
max_backoff_ms = 4000

-- `Math.min(BASE_BACKOFF_MS * 2 ** attempt, MAX_BACKOFF_MS)`
unfoldable pub delay : ℕ → ℕ
delay attempt = min (base_backoff_ms * 2 ^ attempt) max_backoff_ms

-- The variables of the effect, `socketRef`, and the dispatches so far, the oldest first. `timer` is
-- the delay of a pending retry; `attached` is the socket whose handlers are on; `sockets` counts the
-- sockets that have been opened.
pub record Hook : Type 0 where
  pub disposed : Bool
  pub socket : Option ℕ
  pub socket_ref : Option ℕ
  pub attached : Option ℕ
  pub timer : Option ℕ
  pub attempt : ℕ
  pub sockets : ℕ
  pub dispatched : List Action

abbrev dispatch : Action → Hook → Hook
dispatch a h = record h { dispatched = h.dispatched ++ a ∷ [] }

-- A new socket with its handlers on.
abbrev connected : Hook → Hook
connected h = record h {
  socket = some h.sockets;
  socket_ref = some h.sockets;
  attached = some h.sockets;
  sockets = suc h.sockets;
  dispatched =
      h.dispatched ++ connection (if h.attempt == 0 then connecting else reconnecting) ∷ [];
}

-- `connect()`
connect : Hook → Hook
connect h = if h.disposed then h else connected h

abbrev unmounted : Hook
unmounted = record {
  disposed = false;
  socket = none;
  socket_ref = none;
  attached = none;
  timer = none;
  attempt = 0;
  sockets = 0;
  dispatched = [];
}

unfoldable pub mount : Hook
unfolding connect
mount = connect unmounted

-- Data of a message event: a text, or binary data.
pub data MessageData : Type 0 where
  text : String → MessageData
  binary : MessageData

-- What the browser and the page do.
pub data Event : Type 0 where
  opened closed : ℕ → Event
  message : ℕ → MessageData → Event
  timer_fired : Event
  send : ClientFrame → Bool → ℕ → Event
  unmount : Event

abbrev is_current : Option ℕ → ℕ → Bool
is_current none ws = false
is_current (some w) ws = w == ws

on_open : Hook → Hook
on_open h = if h.disposed then h else dispatch (connection open_) (record h { attempt = 0 })

dispatch_frame : Hook → Option ServerFrame → Hook
dispatch_frame h none = h
dispatch_frame h (some f) = dispatch (frame f) h

on_message : (String → Option Value) → Hook → MessageData → Hook
unfolding dispatch_frame
on_message json_parse h binary = h
on_message json_parse h (text raw) =
    if h.disposed then h else dispatch_frame h (parse_server_frame json_parse raw)

-- The handlers come off, and a retry is set.
abbrev disconnected : Hook → ℕ → Hook
disconnected h ws = record h {
  attached = none;
  socket_ref = (if is_current h.socket_ref ws then none else h.socket_ref);
  socket = none;
  dispatched = h.dispatched ++ connection reconnecting ∷ [];
  timer = some (delay h.attempt);
  attempt = h.attempt + 1;
}

on_close : Hook → ℕ → Hook
unfolding delay
on_close h ws = if h.disposed then h else disconnected h ws

-- The timer's callback is `connect`; a fired timer is no longer pending.
on_timer : Option ℕ → Hook → Hook
unfolding connect
on_timer none h = h
on_timer (some ms) h = connect (record h { timer = none })

clean_up : Hook → Hook
clean_up h = record h { disposed = true; timer = none; socket_ref = none; attached = none }

-- `Date.now() * 1_000_000 + 500_000`, each step rounded to a double.
unfoldable pub send_time : ℕ → ℕ
send_time now = to_double (to_double (now * 1000000) + 500000)

-- `send`: the third argument is `Date.now()`, the second whether the socket's `readyState` is OPEN.
send_on : Option ℕ → Hook → ClientFrame → Bool → ℕ → Hook × Bool
send_on none h f ready now = (h, false)
send_on (some ws) h f ready now =
    if not ready then (h, false) else (dispatch (sent f (some (pos (send_time now)))) h, true)

unfoldable pub on_send : Hook → ClientFrame → Bool → ℕ → Hook × Bool
unfolding send_on
on_send h f ready now = send_on h.socket_ref h f ready now

module _ (json_parse : String → Option Value) where
  -- An event that finds no handler, or no pending timer, does nothing.
  unfoldable pub step : Hook → Event → Hook
  unfolding on_open on_message on_close on_timer clean_up on_send
  step h (opened ws) = if is_current h.attached ws then on_open h else h
  step h (closed ws) = if is_current h.attached ws then on_close h ws else h
  step h (message ws m) = if is_current h.attached ws then on_message json_parse h m else h
  step h timer_fired = on_timer h.timer h
  step h (send f ready now) = (on_send h f ready now).0
  step h unmount = clean_up h

  unfoldable pub steps : Hook → List Event → Hook
  steps h [] = h
  steps h (e ∷ rest) = steps (step h e) rest

-- The state that the page shows.
unfoldable pub shown_state : Hook → AppState
shown_state h = run initial_state h.dispatched
