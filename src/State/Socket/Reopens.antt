-- ===== src/State/Socket/Reopens.antt =====
-- useOrderBook.ts: the way back to an open connection.
use low_latency_matching_eng.Prelude.{
  ℕ, suc, List, Option, none, some, true, false, String, ◌≡◌, inl, inr, refl, sym, ap, subst, ◌∙◌,
  true≢false, if◌then◌else◌, arith,
}
use low_latency_matching_eng.Protocol.Value.{Value}
use low_latency_matching_eng.State.Model.{open_, initial_state, connection}
use low_latency_matching_eng.State.Reducer.{run}
use low_latency_matching_eng.State.Reducer.Connection.{reducer-connection, run-snoc}
use low_latency_matching_eng.State.Socket.{
  Hook, connected, connect, mount, Event, opened, timer_fired, is_current, on_open, on_timer, step,
  steps, shown_state, dispatch,
}
use low_latency_matching_eng.State.Socket.Lifecycle.{
  IsConnected, IsWaiting, IsWellFormed, steps-IsWellFormed,
}

-- A hook on whose socket an `open` event has just been handled.
pub record IsOpen (ws : ℕ) (h : Hook) : Type 0 where
  pub shows_open : (shown_state h).connection ≡ open_
  pub writes_to : h.socket_ref ≡ some ws
  pub backoff_reset : h.attempt ≡ 0

current_self : (ws : ℕ) → is_current (some ws) ws ≡ true
current_self ws = ground arith

module _ (json_parse : String → Option Value) where
  opened-IsOpen :
      (h : Hook) (ws : ℕ)
      → h.disposed ≡ false
      → h.attached ≡ some ws
      → h.socket_ref ≡ some ws
      → IsOpen ws (step json_parse h (opened ws))
  unfolding step on_open shown_state
  opened-IsOpen h ws d a r =
      subst (λ o. IsOpen ws (if is_current o ws then on_open h else h)) (sym a)
        (subst (λ b. IsOpen ws (if b then on_open h else h)) (sym (current_self ws))
          (subst
            (λ b.
              IsOpen ws (if b then h else dispatch (connection open_) (record h { attempt = 0 })))
            (sym d)
            (record {
              shows_open =
                  ap (λ s. s.connection) (run-snoc initial_state h.dispatched (connection open_))
                  ∙ reducer-connection (run initial_state h.dispatched) (connection open_);
              writes_to = r;
              backoff_reset = refl;
            })))

  -- A timer without a delay is not pending; one with a delay starts the next connection.
  idle : (h : Hook) → h.timer ≡ none → step json_parse h timer_fired ≡ h
  unfolding step on_timer
  idle h t = subst (λ o. on_timer o h ≡ h) (sym t) refl

  retried :
      (h : Hook) (ms : ℕ)
      → h.timer ≡ some ms
      → h.disposed ≡ false
      → step json_parse h timer_fired ≡ connected (record h { timer = none })
  unfolding step on_timer connect
  retried h ms t d =
      subst (λ o. on_timer o h ≡ connected (record h { timer = none })) (sym t)
        (subst
          (λ b.
            (if b then record h { timer = none } else connected (record h { timer = none }))
            ≡ connected (record h { timer = none }))
          (sym d) refl)

  -- The socket that answers.
  Answers : Hook → Type 0
  Answers h =
      (ws : ℕ) × (suc ws ≡ (step json_parse h timer_fired).sockets)
      × IsOpen ws (step json_parse (step json_parse h timer_fired) (opened ws))

  connected-Answers : (h : Hook) (ws : ℕ) → h.disposed ≡ false → IsConnected h ws → Answers h
  unfolding Answers
  connected-Answers h ws d c =
      subst (λ k. (w : ℕ) × (suc w ≡ k.sockets) × IsOpen w (step json_parse k (opened w)))
        (sym (idle h c.no_timer)) (ws, c.newest, opened-IsOpen h ws d c.attached_is c.ref_is)

  waiting-Answers : (h : Hook) (ms : ℕ) → h.disposed ≡ false → IsWaiting h ms → Answers h
  unfolding Answers
  waiting-Answers h ms d w =
      subst (λ k. (n : ℕ) × (suc n ≡ k.sockets) × IsOpen n (step json_parse k (opened n)))
        (sym (retried h ms w.timer_is d))
        (
          h.sockets,
          refl,
          opened-IsOpen (connected (record h { timer = none })) h.sockets d refl refl,
        )

  well_formed-Answers : (h : Hook) → h.disposed ≡ false → IsWellFormed h → Answers h
  well_formed-Answers h d (inl (gone, g)) = absurd (true≢false (sym gone ∙ d))
  well_formed-Answers h d (inr (e, inl (ws, c))) = connected-Answers h ws d c
  well_formed-Answers h d (inr (e, inr (ms, w))) = waiting-Answers h ms d w

  -- The terminal is never stuck. Whatever has happened on a mounted page: once the pending retry, if there
  -- is one, has fired, the newest socket is one whose `open` event leads to a page that shows OPEN, to
  -- a hook that writes to that socket, and to a backoff that starts anew.
  pub steps-reopen :
      (events : List Event)
      → (steps json_parse mount events).disposed ≡ false
      → (ws : ℕ) × (suc ws ≡ (step json_parse (steps json_parse mount events) timer_fired).sockets)
        × IsOpen ws (
            step json_parse
              (step json_parse (steps json_parse mount events) timer_fired)
              (opened ws))
  unfolding Answers
  steps-reopen events d =
      well_formed-Answers (steps json_parse mount events) d (steps-IsWellFormed json_parse events)
