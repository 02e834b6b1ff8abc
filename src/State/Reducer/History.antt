-- ===== src/State/Reducer/History.antt =====
-- reducer.ts: what the state keeps of the dispatches so far. Each accumulator is compared with a
-- plain fold over the whole history, which the capped lists of the state have forgotten.
use low_latency_matching_eng.Prelude.{
  ℕ, ◌+◌, ℤ, List, [], ◌∷◌, ◌≡◌, refl, sym, ap, ◌∙◌, map, map-take, take, take-take, map-append,
  ◌++◌, Bool, rev_onto, rev_onto-append, true, false, Bool-cases, inl, inr, if◌then◌else◌, arith,
}
use low_latency_matching_eng.Protocol.Frames.{ExecFrame, book, exec, fix, is_fill}
use low_latency_matching_eng.State.Model.{
  tape_cap, inspector_cap, TapeEntry, InspectorEntry, fix_entry, exec_entry, AppState,
  initial_state, Action, connection, frame, sent,
}
use low_latency_matching_eng.State.Reducer.{apply_print, print_entry, reducer, run}

abbrev pub fill_of : Action → List ExecFrame
fill_of (frame (exec f)) = if is_fill f then f ∷ [] else []
fill_of _ = []

-- The trades of a sequence of dispatches, the oldest first.
abbrev pub fills : List Action → List ExecFrame
fills [] = []
fills (a ∷ rest) = fill_of a ++ fills rest

abbrev pub entry_of : Action → List InspectorEntry
entry_of (frame (exec f)) = exec_entry f ∷ []
entry_of (frame (fix f)) = fix_entry f ∷ []
entry_of _ = []

-- The frames that the inspector shows, the oldest first.
abbrev pub inspected : List Action → List InspectorEntry
inspected [] = []
inspected (a ∷ rest) = entry_of a ++ inspected rest

abbrev pub is_sent : Action → Bool
is_sent (sent f n) = true
is_sent _ = false

abbrev pub sent_count : List Action → ℕ
sent_count [] = 0
sent_count (a ∷ rest) = (if is_sent a then 1 else 0) + sent_count rest

abbrev pub time_after : ℤ → Action → ℤ
time_after t (frame (book f)) = f.timestamp
time_after t (frame (exec f)) = f.timestamp
time_after t (frame (fix f)) = f.timestamp
time_after t _ = t

-- The time of the last frame received, or the given time.
abbrev pub last_time : ℤ → List Action → ℤ
last_time t [] = t
last_time t (a ∷ rest) = last_time (time_after t a) rest

-- The part of a print that the wire carries.
pub record Trade : Type 0 where
  pub trade_id : ℤ
  pub price_px : ℤ
  pub quantity : ℤ
  pub aggressor_order_id : ℤ
  pub passive_order_id : ℤ
  pub timestamp : ℤ

abbrev pub trade_of : TapeEntry → Trade
trade_of e = record {
  trade_id = e.trade_id;
  price_px = e.price_px;
  quantity = e.quantity;
  aggressor_order_id = e.aggressor_order_id;
  passive_order_id = e.passive_order_id;
  timestamp = e.timestamp;
}

abbrev pub trade_of_frame : ExecFrame → Trade
trade_of_frame f = record {
  trade_id = f.trade_id;
  price_px = f.price;
  quantity = f.filled_quantity;
  aggressor_order_id = f.aggressor_order_id;
  passive_order_id = f.passive_order_id;
  timestamp = f.timestamp;
}

reducer_seq :
    (s : AppState) (a : Action)
    → (reducer s a).msg_seq_num ≡ s.msg_seq_num + (if is_sent a then 1 else 0)
unfolding reducer
reducer_seq s (frame (book f)) = omega arith
reducer_seq s (frame (exec f)) = ground arith
reducer_seq s (frame (fix f)) = omega arith
reducer_seq s (connection c) = ground arith
reducer_seq s (sent f n) = omega arith

reducer_time :
    (s : AppState) (a : Action) → (reducer s a).last_frame_nanos ≡ time_after s.last_frame_nanos a
unfolding reducer
reducer_time s (frame (book f)) = refl
reducer_time s (frame (exec f)) = refl
reducer_time s (frame (fix f)) = refl
reducer_time s (connection c) = ground arith
reducer_time s (sent f n) = refl

reducer_log :
    (s : AppState) (a : Action) (l : List InspectorEntry)
    → s.inspector_log ≡ take inspector_cap l
    → (reducer s a).inspector_log ≡ take inspector_cap (rev_onto (entry_of a) l)
unfolding reducer
reducer_log s (frame (book f)) l h = h
reducer_log s (frame (exec f)) l h =
    ap (λ t. take inspector_cap (exec_entry f ∷ t)) h ∙ take-take inspector_cap (exec_entry f) l
reducer_log s (frame (fix f)) l h =
    ap (λ t. take inspector_cap (fix_entry f ∷ t)) h ∙ take-take inspector_cap (fix_entry f) l
reducer_log s (connection c) l h = ground arith
reducer_log s (sent f n) l h = h

-- One print pushed on the tape.
apply_print_tape :
    (s : AppState) (f : ExecFrame) (l : List Trade)
    → map trade_of s.tape ≡ take tape_cap l
    → map trade_of (apply_print s f).tape ≡ take tape_cap (trade_of_frame f ∷ l)
unfolding apply_print
apply_print_tape s f l h =
    map-take tape_cap trade_of (print_entry s f ∷ s.tape)
    ∙ ap (λ t. take tape_cap (trade_of_frame f ∷ t)) h
    ∙ take-take tape_cap (trade_of_frame f) l

reducer_tape :
    (s : AppState) (a : Action) (l : List Trade)
    → map trade_of s.tape ≡ take tape_cap l
    → map trade_of (reducer s a).tape ≡ take tape_cap (rev_onto (map trade_of_frame (fill_of a)) l)
unfolding reducer
reducer_tape s (frame (book f)) l h = h
reducer_tape s (frame (exec f)) l h = elim (Bool-cases (is_fill f)) [
  | inl e ↦ rw e (apply_print_tape s f l h)
  | inr e ↦ rw e h
]
reducer_tape s (frame (fix f)) l h = h
reducer_tape s (connection c) l h = ground arith
reducer_tape s (sent f n) l h = h

run_log :
    (s : AppState) (acts : List Action) (l : List InspectorEntry)
    → s.inspector_log ≡ take inspector_cap l
    → (run s acts).inspector_log ≡ take inspector_cap (rev_onto (inspected acts) l)
unfolding run
run_log s [] l h = h
run_log s (a ∷ rest) l h =
    run_log (reducer s a) rest (rev_onto (entry_of a) l) (reducer_log s a l h)
    ∙ ap (take inspector_cap) (sym (rev_onto-append (entry_of a) (inspected rest) l))

run_tape :
    (s : AppState) (acts : List Action) (l : List Trade)
    → map trade_of s.tape ≡ take tape_cap l
    → map trade_of (run s acts).tape ≡ take tape_cap (rev_onto (map trade_of_frame (fills acts)) l)
unfolding run
run_tape s [] l h = h
run_tape s (a ∷ rest) l h =
    run_tape (reducer s a) rest (rev_onto (map trade_of_frame (fill_of a)) l) (reducer_tape s a l h)
    ∙ rw (map-append, rev_onto-append) refl

run_seq :
    (s : AppState) (acts : List Action) → (run s acts).msg_seq_num ≡ s.msg_seq_num + sent_count acts
unfolding run
run_seq s [] = omega arith
run_seq s (a ∷ rest) = omega (arith, run_seq (reducer s a) rest, reducer_seq s a)

run_time :
    (s : AppState) (acts : List Action)
    → (run s acts).last_frame_nanos ≡ last_time s.last_frame_nanos acts
unfolding run
run_time s [] = refl
run_time s (a ∷ rest) = run_time (reducer s a) rest ∙ ap (λ t. last_time t rest) (reducer_time s a)

-- From the initial state, after any dispatches: the inspector holds the newest 500 of the FIX and
-- EXEC frames received and no BOOK frame, the newest first in arrival order.
inspector_lem :
    (acts : List Action)
    → (run initial_state acts).inspector_log ≡ take inspector_cap (rev_onto (inspected acts) [])
inspector_lem acts = run_log initial_state acts [] refl

-- From the initial state, after any dispatches: the tape holds the newest 200 trades, the newest
-- first, with the ids, price, quantity and time that their fill frames carry.
pub tape_lem :
    (acts : List Action)
    → map trade_of (run initial_state acts).tape
      ≡ take tape_cap (rev_onto (map trade_of_frame (fills acts)) [])
tape_lem acts = run_tape initial_state acts [] refl

-- From any state, after any dispatches: the message counter has grown by the number of frames sent,
-- and the liveness marker holds the time of the last frame received, of whatever kind.
counter_lem :
    (s : AppState) (acts : List Action)
    → ((run s acts).msg_seq_num ≡ s.msg_seq_num + sent_count acts)
      × ((run s acts).last_frame_nanos ≡ last_time s.last_frame_nanos acts)
counter_lem s acts = (run_seq s acts, run_time s acts)
