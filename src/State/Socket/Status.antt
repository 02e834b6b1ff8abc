-- ===== src/State/Socket/Status.antt =====
-- useOrderBook.ts: what the page shows across drops of the connection, and after the clean-up.
use low_latency_matching_eng.Prelude.{
  ℕ, pos, List, [], ◌∷◌, Option, none, some, Bool, true, false, String, ◌≡◌, ◌≢◌, refl, sym, ap,
  subst, ◌∙◌, Bool-cases, inl, inr, none≢some, true≢false, if◌then◌else◌, arith,
}
use low_latency_matching_eng.Protocol.Value.{Value}
use low_latency_matching_eng.Protocol.Frames.{ClientFrame}
use low_latency_matching_eng.State.Model.{reconnecting, initial_state, Action, connection, sent}
use low_latency_matching_eng.State.Reducer.{run, reducer}
use low_latency_matching_eng.State.Reducer.Connection.{reducer-connection, run-snoc}
use low_latency_matching_eng.State.Reducer.Books.{reducer_book}
use low_latency_matching_eng.State.Socket.{
  send_time, Hook, connected, mount, MessageData, text, binary, Event, opened, closed, message,
  timer_fired, send, unmount, is_current, on_open, on_message, on_close, disconnected, on_timer,
  send_on, step, steps, shown_state, dispatch,
}

-- One more dispatch is one more step of the reducer.
shown-dispatch : (h : Hook) (a : Action) → shown_state (dispatch a h) ≡ reducer (shown_state h) a
unfolding shown_state
shown-dispatch h a = run-snoc initial_state h.dispatched a

-- A mounted hook without a socket shows RECONNECTING.
abbrev IsTruthful : Hook → Type 0
IsTruthful h = h.disposed ≡ false → h.attached ≡ none → (shown_state h).connection ≡ reconnecting

current-ne-none : (o : Option ℕ) (ws : ℕ) → is_current o ws ≡ true → o ≢ none
current-ne-none none ws e n = cc
current-ne-none (some w) ws e n = none≢some (sym n)

-- A handler that runs on an attached socket and leaves it attached.
attached-IsTruthful :
    (h h' : Hook) (ws : ℕ)
    → is_current h.attached ws ≡ true
    → h'.attached ≡ h.attached
    → IsTruthful h'
attached-IsTruthful h h' ws e a d n = absurd (current-ne-none h.attached ws e (sym a ∙ n))

open_attached : (h : Hook) → (on_open h).attached ≡ h.attached
unfolding on_open
open_attached h = ground arith

close-IsTruthful : (h : Hook) (ws : ℕ) → IsTruthful h → IsTruthful (on_close h ws)
unfolding on_close shown_state
close-IsTruthful h ws t = elim (Bool-cases h.disposed) [
  | inl e ↦ subst (λ b. IsTruthful (if b then h else disconnected h ws)) (sym e) t
  | inr e ↦
      subst (λ b. IsTruthful (if b then h else disconnected h ws)) (sym e)
        (λ d n.
          ap (λ s. s.connection) (run-snoc initial_state h.dispatched (connection reconnecting))
          ∙ reducer-connection (run initial_state h.dispatched) (connection reconnecting))
]

close-keeps_book : (h : Hook) (ws : ℕ) → (shown_state (on_close h ws)).book ≡ (shown_state h).book
unfolding on_close shown_state
close-keeps_book h ws = elim (Bool-cases h.disposed) [
  | inl e ↦ simp e refl
  | inr e ↦ simp e (
      ap (λ s. s.book) (run-snoc initial_state h.dispatched (connection reconnecting))
      ∙ reducer_book (run initial_state h.dispatched) (connection reconnecting))
]

timer-IsTruthful : (h : Hook) (t : Option ℕ) → IsTruthful h → IsTruthful (on_timer t h)
unfolding on_timer
timer-IsTruthful h none t = t
timer-IsTruthful h (some ms) t =
    let h' = record h { timer = none } in
    elim (Bool-cases h.disposed) [
      | inl e ↦
          subst (λ b. IsTruthful (if b then h' else connected h')) (sym e)
            (λ d n. absurd (true≢false (sym e ∙ d)))
      | inr e ↦
          subst (λ b. IsTruthful (if b then h' else connected h')) (sym e)
            (λ d n. absurd (none≢some (sym n)))
    ]

send-IsTruthful :
    (o : Option ℕ) (h : Hook) (f : ClientFrame) (ready : Bool) (now : ℕ)
    → IsTruthful h
    → IsTruthful (send_on o h f ready now).0
unfolding send_on shown_state
send-IsTruthful none h f ready now t = t
send-IsTruthful (some ws) h f false now t = t
send-IsTruthful (some ws) h f true now t = λ d n.
    ap (λ s. s.connection)
      (run-snoc initial_state h.dispatched (sent f (some (pos (send_time now)))))
    ∙ reducer-connection (run initial_state h.dispatched) (sent f (some (pos (send_time now))))
    ∙ t d n

module _ (json_parse : String → Option Value) where
  message_attached :
      (h : Hook) (m : MessageData) → (on_message json_parse h m).attached ≡ h.attached
  unfolding on_message
  message_attached h binary = refl
  message_attached h (text raw) = ground arith

  step-IsTruthful : (h : Hook) (e : Event) → IsTruthful h → IsTruthful (step json_parse h e)
  unfolding step
  step-IsTruthful h (opened ws) t = elim (Bool-cases (is_current h.attached ws)) [
    | inl e ↦ rw e (attached-IsTruthful h (on_open h) ws e (open_attached h))
    | inr e ↦ rw e t
  ]
  step-IsTruthful h (closed ws) t = elim (Bool-cases (is_current h.attached ws)) [
    | inl e ↦ rw e (close-IsTruthful h ws t)
    | inr e ↦ rw e t
  ]
  step-IsTruthful h (message ws m) t = elim (Bool-cases (is_current h.attached ws)) [
    | inl e ↦ rw e (attached-IsTruthful h (on_message json_parse h m) ws e (message_attached h m))
    | inr e ↦ rw e t
  ]
  step-IsTruthful h timer_fired t = timer-IsTruthful h h.timer t
  step-IsTruthful h (send f ready now) t = send-IsTruthful h.socket_ref h f ready now t
  step-IsTruthful h unmount t = λ d n. absurd (true≢false d)

  from-IsTruthful : (h : Hook) (es : List Event) → IsTruthful h → IsTruthful (steps json_parse h es)
  unfolding steps
  from-IsTruthful h [] t = t
  from-IsTruthful h (e ∷ es) t = from-IsTruthful (step json_parse h e) es (step-IsTruthful h e t)

  -- In every order of events, a mounted hook that has no socket with its handlers on shows the status
  -- RECONNECTING: the page never says OPEN over a lost connection.
  pub steps_status :
      (events : List Event)
      → (steps json_parse mount events).disposed ≡ false
      → (steps json_parse mount events).attached ≡ none
      → (shown_state (steps json_parse mount events)).connection ≡ reconnecting
  unfolding mount
  steps_status events = from-IsTruthful mount events (λ d n. absurd (none≢some (sym n)))

  -- The loss of a connection leaves the book that the page shows as it was, whatever the hook.
  pub closed-keeps_book :
      (h : Hook) (ws : ℕ)
      → (shown_state (step json_parse h (closed ws))).book ≡ (shown_state h).book
  unfolding step
  closed-keeps_book h ws = elim (Bool-cases (is_current h.attached ws)) [
    | inl e ↦ rw e (close-keeps_book h ws)
    | inr e ↦ rw e refl
  ]

  -- After the clean-up, from any state and whatever events arrive late: nothing is dispatched any more and
  -- no socket is opened.
  pub gone_silent :
      (h : Hook) (es : List Event)
      → ((steps json_parse (step json_parse h unmount) es).dispatched ≡ h.dispatched)
        × ((steps json_parse (step json_parse h unmount) es).sockets ≡ h.sockets)
  unfolding step steps
  gone_silent h [] = (refl, refl)
  gone_silent h (opened ws ∷ es) = gone_silent h es
  gone_silent h (closed ws ∷ es) = gone_silent h es
  gone_silent h (message ws m ∷ es) = gone_silent h es
  gone_silent h (timer_fired ∷ es) = gone_silent h es
  gone_silent h (send f ready now ∷ es) = gone_silent h es
  gone_silent h (unmount ∷ es) = gone_silent h es
