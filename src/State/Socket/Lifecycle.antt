-- ===== src/State/Socket/Lifecycle.antt =====
-- useOrderBook.ts: what holds of the hook in every order of events.
use native.Mathlib.Nat.{pow-suc}
use low_latency_matching_eng.Prelude.{
  ℕ, zero, suc, ◌^◌, ◌≤◌, List, [], ◌∷◌, Option, none, some, Bool, true, false, String, ◌≡◌, ◌⊎◌,
  inl, inr, refl, sym, ap, subst, ◌∙◌, Bool-cases, none≢some, if◌then◌else◌, arith,
}
use low_latency_matching_eng.Protocol.Value.{Value}
use low_latency_matching_eng.Protocol.Narrow.{parse_server_frame}
use low_latency_matching_eng.Protocol.Frames.{ServerFrame, ClientFrame}
use low_latency_matching_eng.State.Socket.{
  base_backoff_ms, max_backoff_ms, delay, Hook, mount, MessageData, text, binary, Event, opened,
  closed, message, timer_fired, send, unmount, is_current, on_open, on_message, on_close, connected,
  disconnected, on_timer, dispatch_frame, on_send, step, steps,
}

one-le-pow : (k : ℕ) → 1 ≤ 2 ^ k
one-le-pow zero = omega arith
one-le-pow (suc k) = simp pow-suc (omega (arith, one-le-pow k))

-- The retry delay is at least 250 ms and at most 4 s, and a further attempt never waits less.
pub delay_bounds :
    (attempt : ℕ)
    → (base_backoff_ms ≤ delay attempt)
      × (delay attempt ≤ max_backoff_ms)
      × (delay attempt ≤ delay (suc attempt))
unfolding delay
delay_bounds attempt = (
  omega (arith, one-le-pow attempt),
  omega arith,
  simp pow-suc (omega (arith, one-le-pow attempt)),
)

-- A socket is attached, and it is the one that is written to and closed at the end; no retry is
-- pending.
pub record IsConnected (h : Hook) (ws : ℕ) : Type 0 where
  pub attached_is : h.attached ≡ some ws
  pub socket_is : h.socket ≡ some ws
  pub ref_is : h.socket_ref ≡ some ws
  pub no_timer : h.timer ≡ none
  pub newest : suc ws ≡ h.sockets

-- No socket is attached, none can be written to, and a retry is pending within its bounds.
pub record IsWaiting (h : Hook) (ms : ℕ) : Type 0 where
  pub none_attached : h.attached ≡ none
  pub no_socket : h.socket ≡ none
  pub no_ref : h.socket_ref ≡ none
  pub timer_is : h.timer ≡ some ms
  pub not_early : base_backoff_ms ≤ ms
  pub not_late : ms ≤ max_backoff_ms

-- After the clean-up nothing is attached, pending or writable.
pub record IsGone (h : Hook) : Type 0 where
  pub none_attached : h.attached ≡ none
  pub no_ref : h.socket_ref ≡ none
  pub no_timer : h.timer ≡ none

-- A mounted hook is connected or waiting, never both and never neither.
abbrev pub IsWellFormed : Hook → Type 0
IsWellFormed h =
    ((h.disposed ≡ true) × IsGone h)
    ⊎ ((h.disposed ≡ false) × (((ws : ℕ) × IsConnected h ws) ⊎ ((ms : ℕ) × IsWaiting h ms)))

mount-IsWellFormed : IsWellFormed mount
unfolding mount
mount-IsWellFormed = inr (
  refl,
  inl (
    0,
    record { attached_is = refl; socket_is = refl; ref_is = refl; no_timer = refl; newest = refl },
  ),
)

-- Two hooks that differ in the dispatches and the attempt count at most.
record IsAlike (h h' : Hook) : Type 0 where
  disposed_same : h'.disposed ≡ h.disposed
  socket_same : h'.socket ≡ h.socket
  ref_same : h'.socket_ref ≡ h.socket_ref
  attached_same : h'.attached ≡ h.attached
  timer_same : h'.timer ≡ h.timer
  sockets_same : h'.sockets ≡ h.sockets

IsAlike-IsWellFormed : {h h' : Hook} → IsAlike h h' → IsWellFormed h → IsWellFormed h'
IsAlike-IsWellFormed a (inl (d, g)) = inl (
  a.disposed_same ∙ d,
  record {
    none_attached = a.attached_same ∙ g.none_attached;
    no_ref = a.ref_same ∙ g.no_ref;
    no_timer = a.timer_same ∙ g.no_timer;
  },
)
IsAlike-IsWellFormed a (inr (d, inl (ws, c))) = inr (
  a.disposed_same ∙ d,
  inl (
    ws,
    record {
      attached_is = a.attached_same ∙ c.attached_is;
      socket_is = a.socket_same ∙ c.socket_is;
      ref_is = a.ref_same ∙ c.ref_is;
      no_timer = a.timer_same ∙ c.no_timer;
      newest = c.newest ∙ sym a.sockets_same;
    },
  ),
)
IsAlike-IsWellFormed a (inr (d, inr (ms, w))) = inr (
  a.disposed_same ∙ d,
  inr (
    ms,
    record {
      none_attached = a.attached_same ∙ w.none_attached;
      no_socket = a.socket_same ∙ w.no_socket;
      no_ref = a.ref_same ∙ w.no_ref;
      timer_is = a.timer_same ∙ w.timer_is;
      not_early = w.not_early;
      not_late = w.not_late;
    },
  ),
)

opened-IsAlike : (h : Hook) → IsAlike h (on_open h)
unfolding on_open
opened-IsAlike h = ground arith

dispatch_frame-IsAlike : (h : Hook) (f : Option ServerFrame) → IsAlike h (dispatch_frame h f)
unfolding dispatch_frame
dispatch_frame-IsAlike h f = ground arith

send-IsAlike :
    (h : Hook) (f : ClientFrame) (ready : Bool) (now : ℕ) → IsAlike h (on_send h f ready now).0
unfolding on_send
send-IsAlike h f ready now = ground arith

message-IsAlike :
    (json_parse : String → Option Value) (h : Hook) (m : MessageData)
    → IsAlike h (on_message json_parse h m)
unfolding on_message
message-IsAlike json_parse h binary = ground arith
message-IsAlike json_parse h (text raw) =
    ground (arith, dispatch_frame-IsAlike h (parse_server_frame json_parse raw))

close-IsWellFormed :
    (h : Hook) (ws : ℕ)
    → is_current h.attached ws ≡ true
    → IsWellFormed h
    → IsWellFormed (on_close h ws)
unfolding on_close
close-IsWellFormed h ws e (inl (d, g)) =
    subst (λ b. IsWellFormed (if b then h else disconnected h ws)) (sym d) (inl (d, g))
close-IsWellFormed h ws e (inr (d, inl (w, c))) =
    let current : is_current h.socket_ref ws ≡ true =
      ap (λ r. is_current r ws) (c.ref_is ∙ sym c.attached_is) ∙ e in
    subst (λ b. IsWellFormed (if b then h else disconnected h ws)) (sym d)
      (inr (
        d,
        inr (
          delay h.attempt,
          record {
            none_attached = refl;
            no_socket = refl;
            no_ref = ap (λ b. if b then none else h.socket_ref) current;
            timer_is = refl;
            not_early = (delay_bounds h.attempt).0;
            not_late = (delay_bounds h.attempt).1;
          },
        ),
      ))
close-IsWellFormed h ws e (inr (d, inr (ms, w))) =
    let stale : is_current none ws ≡ true = ap (λ r. is_current r ws) (sym w.none_attached) ∙ e in
    cc

timer-IsWellFormed :
    (h : Hook) (t : Option ℕ) → h.timer ≡ t → IsWellFormed h → IsWellFormed (on_timer t h)
unfolding on_timer
timer-IsWellFormed h none e w = w
timer-IsWellFormed h (some ms) e (inl (d, g)) = absurd (none≢some (sym g.no_timer ∙ e))
timer-IsWellFormed h (some ms) e (inr (d, inl (w, c))) = absurd (none≢some (sym c.no_timer ∙ e))
timer-IsWellFormed h (some ms) e (inr (d, inr (k, w))) =
    let h' = record h { timer = none } in
    subst (λ b. IsWellFormed (if b then h' else connected h')) (sym d)
      (inr (
        d,
        inl (
          h.sockets,
          record {
            attached_is = refl;
            socket_is = refl;
            ref_is = refl;
            no_timer = refl;
            newest = refl;
          },
        ),
      ))

module _ (json_parse : String → Option Value) where
  step-IsWellFormed : (h : Hook) (e : Event) → IsWellFormed h → IsWellFormed (step json_parse h e)
  unfolding step
  step-IsWellFormed h (opened ws) w = elim (Bool-cases (is_current h.attached ws)) [
    | inl e ↦ rw e (IsAlike-IsWellFormed (opened-IsAlike h) w)
    | inr e ↦ rw e w
  ]
  step-IsWellFormed h (closed ws) w = elim (Bool-cases (is_current h.attached ws)) [
    | inl e ↦ rw e (close-IsWellFormed h ws e w)
    | inr e ↦ rw e w
  ]
  step-IsWellFormed h (message ws m) w = elim (Bool-cases (is_current h.attached ws)) [
    | inl e ↦ rw e (IsAlike-IsWellFormed (message-IsAlike json_parse h m) w)
    | inr e ↦ rw e w
  ]
  step-IsWellFormed h timer_fired w = timer-IsWellFormed h h.timer refl w
  step-IsWellFormed h (send f ready now) w = IsAlike-IsWellFormed (send-IsAlike h f ready now) w
  step-IsWellFormed h unmount w =
      inl (refl, record { none_attached = refl; no_ref = refl; no_timer = refl })

  -- In every order of events the hook is well formed: before the clean-up it has either one socket with
  -- its handlers on, the newest, to which `send` writes, and no pending retry, or no socket and one
  -- pending retry of 250 ms to 4 s; after the clean-up it has neither.
  pub steps-IsWellFormed : (events : List Event) → IsWellFormed (steps json_parse mount events)
  unfolding steps
  steps-IsWellFormed events = from mount events mount-IsWellFormed
    where
      from : (h : Hook) (es : List Event) → IsWellFormed h → IsWellFormed (steps json_parse h es)
      from h [] w = w
      from h (e ∷ es) w = from (step json_parse h e) es (step-IsWellFormed h e w)
